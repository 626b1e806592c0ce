-- ===== src/Replication.antt =====
-- src/control/replication.rs: the backup with its queue of writes, and the manager in front of it.
-- The mutexes are left out: each call is one step.
pub mod Laws
use rdmas.Base.{
  ℕ, suc, ◌+◌, ◌-◌, ◌<◌, Bool, true, false, List, [], ◌∷◌, ◌++◌, length, take, drop, replicate, ltb,
  leb, min, Option, none, some, if◌then◌else◌,
}
use rdmas.Base.Bytes.{splice}
use rdmas.Base.Run.{Run, ok, panic, ◌>>=◌, ◌>>◌, assert}

pub record BackupStore : Type 0 where
  pub objects : List ℕ
  pub pending : List (ℕ × List ℕ)

unfoldable pub new : ℕ → BackupStore
new capacity = record { objects = replicate capacity 0; pending = [] }

unfoldable pub enqueue_write : BackupStore → ℕ → List ℕ → BackupStore
enqueue_write b offset bytes = record b { pending = b.pending ++ ((offset, bytes) ∷ []) }

-- `store[offset..end].copy_from_slice(&bytes[..end - offset])` with
-- `end = min(offset + data.len(), store.len())`; a slice that starts behind its end panics.
unfoldable pub copy_in : List ℕ → ℕ → List ℕ → Run (List ℕ)
copy_in store offset bytes = do
  let end = min (offset + length bytes) (length store)
  assert (leb offset end)
  ok (splice offset (take (end - offset) bytes) store)

-- The loop of `flush` over the queue.
unfoldable pub copy_all : List (ℕ × List ℕ) → List ℕ → Run (List ℕ)
copy_all [] objects = ok objects
copy_all ((offset, bytes) ∷ rest) objects = do
  objects' ← copy_in objects offset bytes
  copy_all rest objects'

unfoldable pub flush : BackupStore → Run (BackupStore × ℕ)
flush b = do
  objects ← copy_all b.pending b.objects
  ok (record { objects = objects; pending = [] }, length b.pending)

unfoldable pub read : BackupStore → ℕ → ℕ → Run (Option (List ℕ))
read b offset size =
    let end = min (offset + size) (length b.objects) in
    if leb (length b.objects) offset
    then ok none
    else ok (some (take (end - offset) (drop offset b.objects)))

pub record ReplicationManager : Type 0 where
  pub backup : BackupStore
  pub max_lag : ℕ

-- The manager and the local store after the call.
unfoldable pub write_with_replication :
    ReplicationManager → ℕ → List ℕ → List ℕ → Run (ReplicationManager × List ℕ)
unfolding copy_in enqueue_write
write_with_replication m offset bytes local_store = do
  local' ← copy_in local_store offset bytes
  ok (record m { backup = enqueue_write m.backup offset bytes }, local')

unfoldable pub is_lagging : ReplicationManager → Bool
is_lagging m = ltb m.max_lag (length m.backup.pending)

-- A sequence of writes through the manager.
unfoldable pub write_all :
    ReplicationManager → List (ℕ × List ℕ) → List ℕ → Run (ReplicationManager × List ℕ)
unfolding write_with_replication
write_all m [] local_store = ok (m, local_store)
write_all m ((offset, bytes) ∷ rest) local_store = do
  (m', local') ← write_with_replication m offset bytes local_store
  write_all m' rest local'
