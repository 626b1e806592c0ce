-- ===== src/Rdma/Qp/Laws.antt =====
-- The chain of a batch.
use rdmas.Base.{
  ℕ, zero, suc, ◌-◌, ◌^◌, bit_and, bit_or, List, [], ◌∷◌, length, get_or, set, none, some,
}
use rdmas.Rdma.Verbs.{Verbs, SendWr}
use rdmas.Rdma.Qp.{SendWorkRequest, raw, link}

-- What the device reads: the links from entry `i` on, at most `fuel` of them.
abbrev pub walk : SendWr → ℕ → List SendWr → ℕ → List SendWr
walk first zero wrs i = []
walk first (suc fuel) wrs i =
    get_or wrs i first
    ∷ elim (get_or wrs i first).next [ none ↦ [] | some j ↦ walk first fuel wrs j ]

abbrev pub unlink : SendWr → SendWr
unlink wr = record wr { next = none }

-- The requests of a batch with their flags: only the last one signals.
abbrev pub flagged : ℕ → SendWorkRequest → List SendWorkRequest → List SendWr
flagged signaled wr [] = raw (bit_or wr.send_flags signaled) wr ∷ []
flagged signaled wr (wr' ∷ wrs) =
    raw (bit_and wr.send_flags (2 ^ 32 - 1 - signaled)) wr ∷ flagged signaled wr' wrs

module _ (first : SendWr) where
  abbrev linked : ℕ → List SendWr → List SendWr
  linked i wrs = set wrs i (record (get_or wrs i first) { next = some (suc i) })

module _ {W : Type 0} (v : Verbs W) (wr : SendWorkRequest) (wrs : List SendWorkRequest) where
  linked_chain : List SendWr
  linked_chain = link (raw 0 wr) (length wrs) 0 (flagged v.send_signaled wr wrs)
