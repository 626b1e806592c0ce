-- ===== src/Client/Batch/Laws.antt =====
-- Batches: what a flush does, entry by entry.
use rdmas.Base.{ℕ, ◌+◌, ◌≡◌, refl, ap, List, [], ◌∷◌, ◌++◌, arith}
use rdmas.Base.Run.{Run, ok, panic, ◌>>=◌}
use rdmas.Base.Result.{Result}
use rdmas.Layout.LockWord.{BucketMode}
use rdmas.Layout.Bucket.{HashedKey}
use rdmas.Client.Retry.{RdmaError}
use rdmas.Client.Write.{Store, WriteResult, insert}
use rdmas.Client.Batch.{BatchBuilder, Pending, add, flush_all, flush_local, one_if_inserted}

abbrev Inserted : Type 0
Inserted = Store × Result RdmaError WriteResult

abbrev Flushed : Type 0
Flushed = Store × ℕ

-- What the loop adds to the count `a` of other entries.
abbrev counted : ℕ → Inserted → Run Flushed
counted a o = ok (o.0, a + one_if_inserted o.1)

abbrev plus : ℕ → Flushed → Run Flushed
plus a o = ok (o.0, a + o.1)

plus-counted : (a c : ℕ) (r : Run Inserted) → (r >>= counted c >>= plus a) ≡ (r >>= counted (a + c))
plus-counted a c panic = refl
plus-counted a c (ok (s, r)) = ap (λ (k : ℕ). ok (s, k)) (omega arith)

-- The count of one entry, whichever side the zero stands on.
counted-zero :
    (r : Run Inserted)
    → ◌>>=◌ {B = Flushed} r (λ o. ok (o.0, one_if_inserted o.1 + 0)) ≡ (r >>= counted 0)
counted-zero panic = refl
counted-zero (ok (s, r)) = ap (λ (k : ℕ). ok (s, k)) (omega arith)

module _ (p : Pending) (n : ℕ) where
  -- The last entry of a batch, on the store and the count that the entries before it leave.
  abbrev last : Flushed → Run Flushed
  last o = insert p.key p.value p.mode o.0 n >>= counted o.1

  last-plus : (a : ℕ) (r : Run Flushed) → (r >>= last >>= plus a) ≡ (r >>= plus a >>= last)
  last-plus a panic = refl
  last-plus a (ok (s, c)) = plus-counted a c (insert p.key p.value p.mode s n)

  abbrev rest_and_last : List Pending → Inserted → Run Flushed
  rest_and_last ps o = flush_all (ps ++ (p ∷ [])) o.0 n >>= plus (one_if_inserted o.1)

  -- An entry before the others, once the others are known to end with `last`.
  last-of_rest :
      (ps : List Pending) (r : Run Inserted)
      → ((s : Store) → flush_all (ps ++ (p ∷ [])) s n ≡ (flush_all ps s n >>= last))
      → (r >>= rest_and_last ps)
        ≡ (r >>= (λ (o : Inserted). flush_all ps o.0 n >>= plus (one_if_inserted o.1)) >>= last)
  last-of_rest ps panic rest = refl
  last-of_rest ps (ok (s, r)) rest = rw (rest s) (last-plus (one_if_inserted r) (flush_all ps s n))

  flush_all-snoc :
      (ps : List Pending) (s : Store) → flush_all (ps ++ (p ∷ [])) s n ≡ (flush_all ps s n >>= last)
  unfolding flush_all
  flush_all-snoc [] s = counted-zero (insert p.key p.value p.mode s n)
  flush_all-snoc (q ∷ ps) s =
      last-of_rest ps (insert q.key q.value q.mode s n) (λ s'. flush_all-snoc ps s')

abbrev emptied : BatchBuilder → Flushed → Run (BatchBuilder × Store × ℕ)
emptied b l = ok (record b { pending = [] }, l.0, l.1)

abbrev counted_after : BatchBuilder → ℕ → Inserted → Run (BatchBuilder × Store × ℕ)
counted_after b c w = ok (b, w.0, c + one_if_inserted w.1)

emptied-counted :
    (b : BatchBuilder) (c : ℕ) (r : Run Inserted)
    → (r >>= counted c >>= emptied b) ≡ (r >>= counted_after (record b { pending = [] }) c)
emptied-counted b c panic = refl
emptied-counted b c (ok o) = refl

emptied-last :
    (b : BatchBuilder) (p : Pending) (n : ℕ) (r : Run Flushed)
    → (r >>= last p n >>= emptied b) ≡ (
        r >>= emptied b >>= λ (o : BatchBuilder × Store × ℕ).
        insert p.key p.value p.mode o.1 n >>= counted_after o.0 o.2)
emptied-last b p n panic = refl
emptied-last b p n (ok (s, c)) = emptied-counted b c (insert p.key p.value p.mode s n)

-- Writes are flushed in the order in which they were added: a flush after `add` is a flush before it, and then the insertion
-- of the added entry into the store that results, with the count one larger if that insertion succeeds. It
-- panics where one of the two does.
flush_local-add :
    (b : BatchBuilder) (key : HashedKey) (value : List ℕ) (mode : BucketMode) (s : Store) (n : ℕ)
    → flush_local (add b key value mode) s n ≡ (
        flush_local b s n >>= λ (o : BatchBuilder × Store × ℕ).
        insert key value mode o.1 n >>= λ (w : Inserted). ok (o.0, w.0, o.2 + one_if_inserted w.1))
unfolding flush_local add
flush_local-add b key value mode s n =
    let p : Pending = record { key = key; value = value; mode = mode } in
    rw (flush_all-snoc p n b.pending s) (emptied-last b p n (flush_all b.pending s n))
