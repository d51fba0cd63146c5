-- ===== src/ServerList/State.antt =====
-- The state of `ServerList` (src/ServerList.h), with the structures of src/utiles.h and the class
-- peer_info of src/PeerInfo.h.
use relb.Prelude.{ℕ, suc, Bool, true, false, Option, none, some, List, [], ◌∷◌, ◌++◌, if◌then◌else◌}
use relb.Prelude.Int.{ℤ}
use relb.Address.{IpAddress}
use relb.Filters.{FilterInfo}
use Prim.Native.String.{String}

-- Weight and limit come from `atoi`, and may be negative. The counters never fall below 0.
pub record ServerInfo : Type 0 where
  pub host_name : String
  pub ip : IpAddress
  pub port : ℕ
  pub disconnected : ℕ
  pub finished : ℕ
  pub connected : ℕ
  pub connecting : ℕ
  pub weight : ℤ
  pub max_connections : ℤ
  pub last_connection_failed : Bool
  pub last_connection_attempt : ℕ

-- `address` is the object's address, by which messages name it; `parallel` and `manager` are
-- addresses of other objects, `none` for NULL. The field last_changed is never written.
pub record PeerInfo : Type 0 where
  pub address : ℕ
  pub src_ip : IpAddress
  pub src_port : ℕ
  pub dst_ip : IpAddress
  pub dst_port : ℕ
  pub status : ℕ
  pub parallel : Option ℕ
  pub manager : Option ℕ
  pub created : ℕ
  pub modified : ℕ
  pub ban_this : Bool
  pub ban_all : Bool

pub record TaskInfo : Type 0 where
  pub task_type : ℕ
  pub run_interval_seconds : ℕ
  pub next_run_time : ℕ
  pub fixed_time : Bool
  pub last_ran_time : ℕ
  pub last_ran_exitcode : ℕ

-- Times are milliseconds, 0 for none. The last three fields are what has left the object: the
-- messages posted to `parallelList`, the calls of `closePInfo` as (manager, pointer), and the next
-- address that `new` returns.
pub record ServerList : Type 0 where
  pub running : Bool
  pub update : Bool
  pub finish : Bool
  pub reconnect_lost_sessions : Bool
  pub filters : List FilterInfo
  pub servers : List ServerInfo
  pub peers : List PeerInfo
  pub tasks : List TaskInfo
  pub next_task_run_time : ℕ
  pub parallel_list : Bool
  pub last_server_assigned : ℕ
  pub server_retry_milliseconds : ℕ
  pub finished_weight : ℕ
  pub disconnected_weight : ℕ
  pub last_connections_cleanup : ℕ
  pub admin_posts : List (ℕ × ℕ)
  pub close_requests : List (ℕ × Option ℕ)
  pub next_address : ℕ

-- The constructor, at time `now`.
unfoldable pub new : ℕ → ServerList
new now = record {
  running = false;
  update = false;
  finish = false;
  reconnect_lost_sessions = true;
  filters = [];
  servers = [];
  peers = [];
  tasks = [];
  next_task_run_time = 0;
  parallel_list = false;
  last_server_assigned = 9999;
  server_retry_milliseconds = 30000;
  finished_weight = 1;
  disconnected_weight = 1;
  last_connections_cleanup = now;
  admin_posts = [];
  close_requests = [];
  next_address = 1;
}

-- `if( parallelList && pinfo->parallel ) parallelList->post( status, pinfo->parallel )`.
unfoldable pub post_parallel : ℕ → Option ℕ → ServerList → ServerList
post_parallel status none s = s
post_parallel status (some twin) s =
    if s.parallel_list then record s { admin_posts = s.admin_posts ++ (status, twin) ∷ [] } else s

-- `manager->closePInfo( pointer )`, if there is a manager.
unfoldable pub request_close : Option ℕ → Option ℕ → ServerList → ServerList
request_close none pointer s = s
request_close (some manager) pointer s = record s {
  close_requests = s.close_requests ++ (manager, pointer) ∷ [];
}

-- Two objects that are one another's `parallel`: `setParallel` copies the fields into the new one,
-- and the other list gets its address with the status.
unfoldable pub set_parallel : PeerInfo → ServerList → PeerInfo × ServerList
set_parallel p s = (
  record p { parallel = some s.next_address },
  record s {
    next_address = suc s.next_address;
    admin_posts = s.admin_posts ++ (p.status, s.next_address) ∷ [];
  },
)
