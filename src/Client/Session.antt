-- ===== src/Client/Session.antt =====
-- src/client/session.rs: sessions with a server. What the control plane and the transports return is an
-- argument: `discover` and `get_version` are the results of those calls, `rdma` and `tcp` connect to an address.
-- The address is a list of bytes. Text of errors is left out.
pub mod Laws
use rdmas.Base.{
  ℕ, zero, suc, Bool, true, false, not, ◌||◌, List, [], ◌∷◌, ◌++◌, ◌==◌, ltb, take, Option, none,
  some, if◌then◌else◌,
}
use rdmas.Base.Bytes.{bytes_eq}
use rdmas.Base.Result.{Result, done, err}
use rdmas.Client.Retry.{RdmaError, internal}
use rdmas.Control.{
  RegionType, hash_table, large_object, free_list, RegionMetadata, ServerMetadata,
  HeartbeatResponse, min_compatible_version,
}

-- Without the texts and the codes.
pub data ClientSessionError : Type 0 where
  grpc transport_failed no_device missing_region version_mismatch tls : ClientSessionError
  rdma_failed : RdmaError → ClientSessionError

pub record ClientSession (T : Type 0) : Type 0 where
  pub client_id : ℕ
  pub server_addr : List ℕ
  pub metadata : ServerMetadata
  pub server_version : ℕ
  pub transport : T
  pub heartbeat_interval : ℕ

-- `ServerMetadata::default()`
unfoldable pub no_metadata : ServerMetadata
no_metadata = record { generation = 0; bucket_count = 0; regions = [] }

-- ":9400" and ":9401"
abbrev pub grpc_port : List ℕ
grpc_port = 58 ∷ 57 ∷ 52 ∷ 48 ∷ 48 ∷ []

abbrev pub tcp_port : List ℕ
tcp_port = 58 ∷ 57 ∷ 52 ∷ 48 ∷ 49 ∷ []

-- `replace(":9400", ":9401")`, with `skip` bytes of an occurrence left to pass over.
unfoldable pub replace_port : ℕ → List ℕ → List ℕ
replace_port skip [] = []
replace_port zero (c ∷ cs) =
    let hit = replace_port 4 cs in
    let miss = replace_port 0 cs in
    if bytes_eq (take 5 (c ∷ cs)) grpc_port then tcp_port ++ hit else c ∷ miss
replace_port (suc skip) (c ∷ cs) = replace_port skip cs

module _ {T : Type 0} where
  unfoldable pub create_transport_inner :
      (List ℕ → Result RdmaError T)
      → (List ℕ → Result RdmaError T)
      → List ℕ
      → Result ClientSessionError T
  unfolding replace_port
  create_transport_inner rdma tcp server_addr = elim (rdma server_addr) [
    | done t ↦ done t
    | err e ↦ elim (tcp (replace_port 0 server_addr)) [
      | done t ↦ done t
      | err e' ↦ err (rdma_failed (internal []))
    ]
  ]

  -- `connect`, once the control client is connected; `connect_tls` does the same.
  unfoldable pub connect :
      Result ClientSessionError ℕ
      → Result ClientSessionError ServerMetadata
      → (List ℕ → Result RdmaError T)
      → (List ℕ → Result RdmaError T)
      → List ℕ
      → ℕ
      → Result ClientSessionError (ClientSession T)
  unfolding create_transport_inner
  connect get_version discover rdma tcp server_addr client_id = elim get_version [
    | err e ↦ err grpc
    | done service_version ↦ elim (ltb service_version min_compatible_version) [
      | true ↦ err version_mismatch
      | false ↦ elim discover [
        | err e ↦ err grpc
        | done metadata ↦ elim (create_transport_inner rdma tcp server_addr) [
          | err e ↦ err e
          | done transport ↦ done (record {
            client_id = client_id;
            server_addr = server_addr;
            metadata = metadata;
            server_version = service_version;
            transport = transport;
            heartbeat_interval = 1000;
          })
        ]
      ]
    ]
  ]

  unfoldable pub invalidate_mr_metadata : ClientSession T → ClientSession T
  unfolding no_metadata
  invalidate_mr_metadata s = record s { metadata = no_metadata }

  unfoldable pub check_reconnect_needed : ClientSession T → HeartbeatResponse → Bool
  check_reconnect_needed s response =
      response.reconnect || not (response.generation == s.metadata.generation)

  unfoldable pub refresh_metadata :
      Result ClientSessionError ServerMetadata
      → ClientSession T
      → ClientSession T × Result ClientSessionError (Unit {0})
  refresh_metadata discover s = elim discover [
    | err e ↦ (s, err grpc)
    | done metadata ↦ (record s { metadata = metadata }, done tt)
  ]

  unfoldable pub reconnect :
      Result ClientSessionError ServerMetadata
      → (List ℕ → Result RdmaError T)
      → (List ℕ → Result RdmaError T)
      → ClientSession T
      → ClientSession T × Result ClientSessionError (Unit {0})
  unfolding invalidate_mr_metadata create_transport_inner
  reconnect discover rdma tcp s =
      let blank = invalidate_mr_metadata s in
      elim discover [
        | err e ↦ (blank, err grpc)
        | done metadata ↦ elim (create_transport_inner rdma tcp s.server_addr) [
          | err e ↦ (blank, err e)
          | done transport ↦ (record blank { transport = transport; metadata = metadata }, done tt)
        ]
      ]

unfoldable pub same_kind : RegionType → RegionType → Bool
same_kind hash_table hash_table = true
same_kind large_object large_object = true
same_kind free_list free_list = true
same_kind a b = false

-- `regions.iter().find(..)`
unfoldable pub find_region : RegionType → List RegionMetadata → Option RegionMetadata
unfolding same_kind
find_region kind [] = none
find_region kind (r ∷ rs) =
    let later = find_region kind rs in if same_kind r.kind kind then some r else later
