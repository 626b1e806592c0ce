-- ===== src/Client/Session/Laws.antt =====
-- Sessions and the server: a reconnection, and what a heartbeat says after a restart of the server.
use rdmas.Base.{ℕ, ◌≡◌, refl, false}
use rdmas.Base.Result.{Result}
use rdmas.Bootstrap.{BootstrappedEngine}
use rdmas.Control.{new, discover, heartbeat}
use rdmas.Client.Session.{ClientSession, check_reconnect_needed}

-- Every server starts with the same generation. A session that has discovered one server gets a heartbeat of another one, started in
-- its place with another engine: it asks for no reconnection, so the session keeps the regions of the first.
check_reconnect_needed-restart :
    {T : Type 0} (s : ClientSession T) (before after : BootstrappedEngine) (addr id ts now : ℕ)
    → s.metadata ≡ discover (new before) addr
    → check_reconnect_needed s (heartbeat (new after) id ts now).1 ≡ false
unfolding check_reconnect_needed heartbeat discover new
check_reconnect_needed-restart s before after addr id ts now known = rw known refl
