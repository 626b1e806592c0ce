-- ===== src/Tests/Plane.antt =====
-- The control plane, sessions and batches at fixed inputs.
use rdmas.Base.{List, ℕ, replicate, ◌≡◌, refl, [], ◌∷◌, none}
use rdmas.Base.Result.{Result, done, err}
use rdmas.Bootstrap.{BootstrappedEngine}
use rdmas.Client.Batch.{BatchBuilder}
use rdmas.Client.Retry.{RdmaError, timeout}
use rdmas.Client.Write.{Store}
use rdmas.Client.Session.{ClientSession, grpc_port, tcp_port, replace_port}
use rdmas.Control.{ControlServer, new, discover}
use rdmas.Extent.Region
use rdmas.Layout.Bucket
use rdmas.Layout.Bucket.{HashedKey}
use rdmas.Layout.LockWord.{inline}
use rdmas.Slab

abbrev engine : BootstrappedEngine
engine = record {
  table = record { buckets = []; bucket_count = 4; max_kick = 32 };
  large_objects = Region.new 64;
  bump_offset = 0;
  slab = Slab.new 64 16;
}

abbrev server : ControlServer
server = new engine

abbrev registry : ControlServer
registry = record server { clients = (2, (50, 9)) ∷ (3, (40, 8)) ∷ [] }

-- A server that only TCP reaches.
abbrev rdma : List ℕ → Result RdmaError ℕ
rdma addr = err timeout

abbrev tcp : List ℕ → Result RdmaError ℕ
tcp addr = done 5

abbrev session : ClientSession ℕ
session = record {
  client_id = 2;
  server_addr = 49 ∷ grpc_port;
  metadata = discover server 0;
  server_version = 1;
  transport = 4;
  heartbeat_interval = 1000;
}

port : replace_port 0 (49 ∷ grpc_port) ≡ 49 ∷ tcp_port
unfolding replace_port
port = refl

abbrev key : ℕ → HashedKey
key n = record { hash = n; digest = replicate 16 n }

abbrev batch : BatchBuilder
batch = record {
  pending = record { key = key 4; value = 7 ∷ []; mode = inline } ∷ [];
  max_batch = 8;
}

abbrev store : Store
store = record { buckets = replicate 4 Bucket.zeroed; large_objects = none }
