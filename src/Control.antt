-- ===== src/Control.antt =====
-- src/control/server.rs: the handlers of the control plane. The hash map of clients is a list with one entry per client; a
-- lock is one step; the clock is a number that a call is given. TLS and logging are left out.
pub mod Laws
pub mod Tenant
use rdmas.Base.{
  ℕ, zero, suc, ◌*◌, ◌%◌, ◌^◌, Bool, true, false, List, [], ◌∷◌, ◌==◌, length, min, Option, none,
  some, if◌then◌else◌,
}
use rdmas.Bootstrap.{BootstrappedEngine}

-- `SERVICE_VERSION` and `MIN_COMPATIBLE_VERSION`
abbrev pub service_version : ℕ
service_version = 1

abbrev pub min_compatible_version : ℕ
min_compatible_version = 1

pub data RegionType : Type 0 where
  hash_table large_object free_list : RegionType

pub record RegionMetadata : Type 0 where
  pub vaddr : ℕ
  pub rkey : ℕ
  pub size : ℕ
  pub kind : RegionType
  pub generation : ℕ

pub record ServerMetadata : Type 0 where
  pub generation : ℕ
  pub bucket_count : ℕ
  pub regions : List RegionMetadata

pub record HeartbeatResponse : Type 0 where
  pub generation : ℕ
  pub reconnect : Bool
  pub server_version : ℕ

-- A client is under its id with its time stamp and the time of its last heartbeat.
pub record ControlServer : Type 0 where
  pub engine : BootstrappedEngine
  pub generation : ℕ
  pub clients : List (ℕ × (ℕ × ℕ))
  pub use_tls : Bool

unfoldable pub new : BootstrappedEngine → ControlServer
new engine = record { engine = engine; generation = 1; clients = []; use_tls = false }

unfoldable pub with_tls : ControlServer → ControlServer
with_tls s = record s { use_tls = true }

-- `free_list_header_addr` is the address of a field of the engine.
unfoldable pub discover : ControlServer → ℕ → ServerMetadata
discover s free_list_header_addr = record {
  generation = s.generation;
  bucket_count = s.engine.table.bucket_count;
  regions =
      record {
        vaddr = 0;
        rkey = 0;
        size = s.engine.table.bucket_count * 64 % 2 ^ 64;
        kind = hash_table;
        generation = s.generation;
      }
      ∷ record {
        vaddr = 0;
        rkey = 0;
        size = s.engine.large_objects.size;
        kind = large_object;
        generation = s.generation;
      }
      ∷ record {
        vaddr = free_list_header_addr;
        rkey = 0;
        size = 64;
        kind = free_list;
        generation = s.generation;
      }
      ∷ [];
}

-- `HashMap::remove`, `insert` and `get`.
unfoldable pub remove : List (ℕ × (ℕ × ℕ)) → ℕ → List (ℕ × (ℕ × ℕ))
remove [] id = []
remove ((k, v) ∷ rest) id =
    let others = remove rest id in if k == id then others else (k, v) ∷ others

unfoldable pub find : List (ℕ × (ℕ × ℕ)) → ℕ → Option (ℕ × ℕ)
find [] id = none
find ((k, v) ∷ rest) id = let later = find rest id in if k == id then some v else later

unfoldable pub heartbeat : ControlServer → ℕ → ℕ → ℕ → ControlServer × HeartbeatResponse
unfolding remove
heartbeat s client_id active_ts now = (
  record s { clients = (client_id, (active_ts, now)) ∷ remove s.clients client_id },
  record { generation = s.generation; reconnect = false; server_version = service_version },
)

unfoldable pub deregister : ControlServer → ℕ → ControlServer
unfolding remove
deregister s client_id = record s { clients = remove s.clients client_id }

-- The count of offsets, as 32 bits; the server does nothing with them.
unfoldable pub sync_free_list : ControlServer → List ℕ → ControlServer × ℕ
sync_free_list s freed_offsets = (s, length freed_offsets % 2 ^ 32)

unfoldable pub get_version : ControlServer → ℕ × ℕ
get_version s = (service_version, min_compatible_version)

-- `min()` of the time stamps.
unfoldable pub min_ts : List (ℕ × (ℕ × ℕ)) → Option ℕ
min_ts [] = none
min_ts ((k, (ts, seen)) ∷ rest) = elim (min_ts rest) [ none ↦ some ts | some n ↦ some (min ts n) ]

-- `unwrap_or(0)`
unfoldable pub or_zero : Option ℕ → ℕ
or_zero none = 0
or_zero (some n) = n

unfoldable pub min_active_ts : List (ℕ × (ℕ × ℕ)) → ℕ
unfolding min_ts or_zero
min_active_ts clients = or_zero (min_ts clients)
