-- ===== src/Runtime/System/Laws.antt =====
-- What holds in every state that the calls and the poller can reach.
use rdmas.Base.{
  ℕ, ◌<◌, ◌≤◌, ◌≡◌, refl, ◌∙◌, ◌≢◌, ◌⊎◌, inl, inr, [], ◌∷◌, ==_refl, ==_ne, Option, none, some,
  arith,
}
use rdmas.Rdma.Verbs.{WorkCompletion}
use rdmas.Runtime.Poller.{sent, Shared, put, outcome}
use rdmas.Runtime.System.{Stage, idle, rejected, numbered, registered, posted, refused}

pub put_self : {A : Type 0} (f : ℕ → A) (k : ℕ) (a : A) → put f k a k ≡ a
unfolding put
put_self f k a = rw (==_refl k) refl

pub put_ne : {A : Type 0} (f : ℕ → A) (k : ℕ) (a : A) (j : ℕ) → j ≢ k → put f k a j ≡ f j
unfolding put
put_ne f k a j ne = rw (==_ne j k ne) refl

-- The id of a call, and the id under which its sender may be in the map.
abbrev pub id_of : Stage → Option ℕ
id_of idle = none
id_of rejected = none
id_of (numbered w) = some w
id_of (registered w) = some w
id_of (posted w) = some w
id_of (refused w) = some w

abbrev pub listed_id : Stage → Option ℕ
listed_id idle = none
listed_id rejected = none
listed_id (numbered w) = none
listed_id (registered w) = some w
listed_id (posted w) = some w
listed_id (refused w) = some w

-- The sender of call `k` is in the map under `w` and nothing has reached its channel; or it is gone, and one result has, which is
-- that of a completion with the id `w`.
abbrev pub Waits : Shared → ℕ → ℕ → Type 0
Waits sh k w =
    ((sh.pending w ≡ some k) × (sh.delivered k ≡ []))
    ⊎ ((sh.pending w ≡ none)
        × (wc : WorkCompletion) × (wc.wr_id ≡ w)
        × (sh.delivered k ≡ sent (outcome wc) ∷ []))

-- A call at a stage, with ids given out below `n`.
abbrev pub CallIsSound : ℕ → Shared → ℕ → Stage → Type 0
CallIsSound n sh k idle = sh.delivered k ≡ []
CallIsSound n sh k rejected = Unit {0}
CallIsSound n sh k (numbered w) = (w < n) × (sh.delivered k ≡ [])
CallIsSound n sh k (registered w) = (w < n) × Waits sh k w
CallIsSound n sh k (posted w) = (w < n) × Waits sh k w
CallIsSound n sh k (refused w) = (w < n) × Waits sh k w

pub id-lt :
    (n : ℕ) (sh : Shared) (k w : ℕ) (st : Stage) → CallIsSound n sh k st → id_of st ≡ some w → w < n
id-lt n sh k w idle c e = cc
id-lt n sh k w rejected c e = cc
id-lt n sh k w (numbered w') c e = ground (arith, c.0, e)
id-lt n sh k w (registered w') c e = ground (arith, c.0, e)
id-lt n sh k w (posted w') c e = ground (arith, c.0, e)
id-lt n sh k w (refused w') c e = ground (arith, c.0, e)

Waits-keep :
    (sh sh' : Shared) (k w : ℕ)
    → sh'.pending w ≡ sh.pending w
    → sh'.delivered k ≡ sh.delivered k
    → Waits sh k w
    → Waits sh' k w
Waits-keep sh sh' k w same_entry same_channel (inl (e, d)) = inl (same_entry ∙ e, same_channel ∙ d)
Waits-keep sh sh' k w same_entry same_channel (inr (e, wc, own, d)) =
    inr (same_entry ∙ e, wc, own, same_channel ∙ d)

-- A call is sound as long as its entry and its channel are what they were.
pub CallIsSound-keep :
    (n n' : ℕ) (sh sh' : Shared) (k : ℕ) (st : Stage)
    → n ≤ n'
    → ((w : ℕ) → id_of st ≡ some w → sh'.pending w ≡ sh.pending w)
    → sh'.delivered k ≡ sh.delivered k
    → CallIsSound n sh k st
    → CallIsSound n' sh' k st
CallIsSound-keep n n' sh sh' k idle le entry channel c = channel ∙ c
CallIsSound-keep n n' sh sh' k rejected le entry channel c = tt
CallIsSound-keep n n' sh sh' k (numbered w) le entry channel c =
    (omega (arith, le, c.0), channel ∙ c.1)
CallIsSound-keep n n' sh sh' k (registered w) le entry channel c =
    (omega (arith, le, c.0), Waits-keep sh sh' k w (entry w refl) channel c.1)
CallIsSound-keep n n' sh sh' k (posted w) le entry channel c =
    (omega (arith, le, c.0), Waits-keep sh sh' k w (entry w refl) channel c.1)
CallIsSound-keep n n' sh sh' k (refused w) le entry channel c =
    (omega (arith, le, c.0), Waits-keep sh sh' k w (entry w refl) channel c.1)

-- Each call is sound, no two share an id, and a sender in the map belongs to a call with that id.
pub record IsSound (n : ℕ) (sh : Shared) (stage : ℕ → Stage) : Type 0 where
  pub calls : (k : ℕ) → CallIsSound n sh k (stage k)
  pub unique : (k k' w : ℕ) → id_of (stage k) ≡ some w → id_of (stage k') ≡ some w → k ≡ k'
  pub owned : (w k : ℕ) → sh.pending w ≡ some k → listed_id (stage k) ≡ some w
