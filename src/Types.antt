-- ===== src/Types.antt =====
-- packages/types/src/cluster.ts and models.ts: the records that the services exchange. Timestamps and
-- ports are natural numbers; what only the user interface shows is left out.
use sardeenz.Base.{ℕ, String, Bool, true, false, List}

pub data ModelStatus : Type 0 where
  starting running sleeping stopping failed : ModelStatus

pub data PeerRole : Type 0 where
  leader follower : PeerRole

pub data PeerStatus : Type 0 where
  healthy suspect unavailable : PeerStatus

pub record PeerGpuInfo : Type 0 where
  pub gpu_id : ℕ
  pub name : String
  pub total_vram_mb : ℕ
  pub used_vram_mb : ℕ
  pub temperature : ℕ
  pub utilization : ℕ

pub record PeerModelEntry : Type 0 where
  pub instance_id : String
  pub model_path : String
  pub model_name : String
  pub port : ℕ
  pub status : ModelStatus
  pub gpu_ids : List ℕ
  pub tensor_parallel_size : ℕ
  pub max_tokens : ℕ

pub record PeerInfo : Type 0 where
  pub pod_id : String
  pub address : String
  pub port : ℕ
  pub role : PeerRole
  pub status : PeerStatus
  pub last_heartbeat : ℕ
  pub term : ℕ
  pub models : List PeerModelEntry
  pub gpus : List PeerGpuInfo
  pub joined_at : ℕ

pub record RoutingEntry : Type 0 where
  pub pod_id : String
  pub pod_address : String
  pub vllm_port : ℕ
  pub weight : ℕ
  pub last_verified : ℕ

pub record HeartbeatMessage : Type 0 where
  pub pod_id : String
  pub role : PeerRole
  pub term : ℕ
  pub timestamp : ℕ
  pub models : List PeerModelEntry
  pub gpus : List PeerGpuInfo
  pub cluster_version : ℕ

pub record HeartbeatAck : Type 0 where
  pub pod_id : String
  pub term : ℕ
  pub role : PeerRole
  pub cluster_version : ℕ

-- `status === 'running'` and the like.
abbrev pub is_running : ModelStatus → Bool
is_running running = true
is_running _ = false

abbrev pub is_starting : ModelStatus → Bool
is_starting starting = true
is_starting _ = false

abbrev pub is_sleeping : ModelStatus → Bool
is_sleeping sleeping = true
is_sleeping _ = false

abbrev pub is_healthy : PeerStatus → Bool
is_healthy healthy = true
is_healthy _ = false

abbrev pub is_suspect : PeerStatus → Bool
is_suspect suspect = true
is_suspect _ = false

abbrev pub is_unavailable : PeerStatus → Bool
is_unavailable unavailable = true
is_unavailable _ = false
