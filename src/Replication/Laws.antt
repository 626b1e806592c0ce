-- ===== src/Replication/Laws.antt =====
-- What the backup holds after a flush.
use rdmas.Base.{
  ℕ, zero, suc, le→leb, length-append, length-take, length-replicate, subst, ◌+◌, ◌-◌, ◌<◌, ◌≤◌,
  ◌≡◌, refl, sym, ap, ◌∙◌, true, List, [], ◌∷◌, ◌++◌, length, take, drop, replicate, leb, min,
  arith,
}
use rdmas.Base.Bytes.{splice}
use rdmas.Base.Run.{Run, ok, panic, ◌>>=◌}
use rdmas.Replication.{
  BackupStore, new, enqueue_write, copy_in, copy_all, flush, ReplicationManager,
  write_with_replication, write_all,
}

copy_all-append :
    (q r : List (ℕ × List ℕ)) (s : List ℕ) → copy_all (q ++ r) s ≡ (copy_all q s >>= copy_all r)
unfolding copy_all
copy_all-append [] r s = refl
copy_all-append ((offset, bytes) ∷ q) r s = go (λ o. copy_all-append q r o) (copy_in s offset bytes)
  where
    go :
        ((o : List ℕ) → copy_all (q ++ r) o ≡ (copy_all q o >>= copy_all r))
        → (x : Run (List ℕ)) → (x >>= copy_all (q ++ r)) ≡ ((x >>= copy_all q) >>= copy_all r)
    go step (ok o) = step o
    go step panic = refl

length-drop {ℓ} : {A : Type ℓ} (n : ℕ) (xs : List A) → length (drop n xs) ≡ length xs - n
length-drop zero xs = omega arith
length-drop (suc n) [] = omega arith
length-drop (suc n) (x ∷ xs) = length-drop n xs ∙ omega arith

length-splice : (i : ℕ) (v s : List ℕ) → i + length v ≤ length s → length (splice i v s) ≡ length s
length-splice i v s h = omega (
  arith,
  length-append (take i s) (v ++ drop (i + length v) s),
  length-append v (drop (i + length v) s),
  length-take i s,
  length-drop (i + length v) s,
  h,
)

-- The backup, once its queue is copied, is the local store `s`.
abbrev pub IsSynced : BackupStore → List ℕ → Type 0
IsSynced b s = copy_all b.pending b.objects ≡ ok s

-- Every write starts inside a store of `n` bytes.
abbrev pub AllInside : ℕ → List (ℕ × List ℕ) → Type 0
AllInside n [] = Unit
AllInside n ((offset, bytes) ∷ ws) = (offset ≤ n) × AllInside n ws

copy_in-ok :
    (s bytes : List ℕ) (offset : ℕ)
    → offset ≤ length s
    → (s' : List ℕ) × (copy_in s offset bytes ≡ ok s') × (length s' ≡ length s)
unfolding copy_in
copy_in-ok s bytes offset h =
    let end : ℕ = min (offset + length bytes) (length s) in
    let part : List ℕ = take (end - offset) bytes in
    let inside : leb offset end ≡ true = le→leb offset end (omega arith) in
    (
      splice offset part s,
      rw inside refl,
      length-splice offset part s (omega (arith, length-take (end - offset) bytes)),
    )

write_with_replication-IsSynced :
    (m : ReplicationManager) (offset : ℕ) (bytes s s' : List ℕ)
    → IsSynced m.backup s
    → copy_in s offset bytes ≡ ok s'
    → (m' : ReplicationManager) × (write_with_replication m offset bytes s ≡ ok (m', s'))
      × IsSynced m'.backup s'
      × (length m'.backup.pending ≡ suc (length m.backup.pending))
unfolding write_with_replication enqueue_write copy_all
write_with_replication-IsSynced m offset bytes s s' synced copied = (
  record m { backup = enqueue_write m.backup offset bytes },
  rw copied refl,
  copy_all-append m.backup.pending ((offset, bytes) ∷ []) m.backup.objects
      ∙ rw (synced, copied) refl,
  length-append m.backup.pending ((offset, bytes) ∷ []) ∙ omega arith,
)

write_all-IsSynced :
    (m : ReplicationManager) (ws : List (ℕ × List ℕ)) (s : List ℕ)
    → AllInside (length s) ws
    → IsSynced m.backup s
    → (m' : ReplicationManager) × (s' : List ℕ) × (write_all m ws s ≡ ok (m', s'))
      × IsSynced m'.backup s'
      × (length m'.backup.pending ≡ length m.backup.pending + length ws)
unfolding write_all
write_all-IsSynced m [] s inside synced = (m, s, refl, synced, omega arith)
write_all-IsSynced m ((offset, bytes) ∷ ws) s inside synced =
    let (s1, copied, size) = copy_in-ok s bytes offset inside.0 in
    let (m1, wrote, synced1, count) =
      write_with_replication-IsSynced m offset bytes s s1 synced copied in
    let (m2, s2, rest, synced2, count2) =
      write_all-IsSynced m1 ws s1 (subst (λ n. AllInside n ws) (sym size) inside.1) synced1 in
    (m2, s2, rw wrote rest, synced2, omega (arith, count, count2))

flush-ok :
    (b : BackupStore) (s : List ℕ)
    → IsSynced b s
    → flush b ≡ ok (record { objects = s; pending = [] }, length b.pending)
unfolding flush
flush-ok b s synced = rw synced refl

-- After any sequence of writes that each start inside a store of `n` zero bytes, none of which panics,
-- a flush of the queue makes the backup of `n` bytes the same as the local store, and reports the
-- number of writes.
pub write_all-flush :
    (n max_lag : ℕ) (ws : List (ℕ × List ℕ))
    → AllInside n ws
    → (m' : ReplicationManager) × (s' : List ℕ) × (write_all
          (record { backup = new n; max_lag = max_lag })
          ws
          (replicate n 0)
        ≡ ok (m', s'))
      × (flush m'.backup ≡ ok (record { objects = s'; pending = [] }, length ws))
unfolding new copy_all
write_all-flush n max_lag ws inside =
    let (m', s', wrote, synced, count) =
      write_all-IsSynced (record { backup = new n; max_lag = max_lag }) ws (replicate n 0)
        (subst (λ k. AllInside k ws) (sym (length-replicate n 0)) inside) refl in
    (
      m',
      s',
      wrote,
      flush-ok m'.backup s' synced
          ∙ ap (λ k. ok (record { objects = s'; pending = [] }, k)) (count ∙ omega arith),
    )

-- A write that starts behind the end of the backup makes `flush` panic, wherever it stands in the
-- queue.
pub flush-panic :
    (b : BackupStore) (before later : List (ℕ × List ℕ)) (offset : ℕ) (bytes s : List ℕ)
    → b.pending ≡ before ++ ((offset, bytes) ∷ later)
    → copy_all before b.objects ≡ ok s
    → length s < offset
    → flush b ≡ panic
unfolding flush copy_all copy_in
flush-panic b before later offset bytes s queue copied outside =
    rw (queue, copy_all-append before ((offset, bytes) ∷ later) b.objects, copied) (ground arith)
