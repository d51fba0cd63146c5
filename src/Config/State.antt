-- ===== src/Config/State.antt =====
-- The state of `AppConfig` (src/AppConfig.h) and what it takes from outside.
use relb.Prelude.{ℕ, Bool, true, false, List, [], ◌∷◌}
use relb.Prelude.Int.{ℤ, pos, negsuc}
use relb.Address.{IpAddress}
use relb.Filters.{FilterInfo}

pub record BindAddress : Type 0 where
  pub src_ip : IpAddress
  pub src_port : ℕ

pub record DstConf : Type 0 where
  pub host_name : List ℕ
  pub dst_ip : IpAddress
  pub dst_port : ℕ
  pub weight : ℤ
  pub max_connections : ℤ

-- The fields of `task_info` that the configuration sets; a time may be negative here.
pub record TaskConf : Type 0 where
  pub task_type : ℕ
  pub fixed_time : Bool
  pub run_interval_seconds : ℤ
  pub next_run_time : ℤ

pub record BindConf : Type 0 where
  pub address : List BindAddress
  pub dst : List DstConf
  pub tasks : List TaskConf
  pub filter : List FilterInfo

-- The list of errors is always empty. The last five fields are the positions of the getters.
pub record AppConfig : Type 0 where
  pub configfile : List ℕ
  pub connect_to_the_same_server : Bool
  pub one_connection_per_ip : Bool
  pub http_admin_enabled : Bool
  pub http_admin_port : ℕ
  pub http_admin_ip : IpAddress
  pub connections_per_thread : ℤ
  pub update_server_status : Bool
  pub minimum_server_reconnection_time : ℤ
  pub bind : List BindConf
  pub current_bind : ℕ
  pub current_server : ℕ
  pub current_task : ℤ
  pub current_filter : ℤ
  pub current_address : ℕ

-- The constructor sets the positions and empties the list; all else is what the memory held.
unfoldable pub construct : AppConfig → AppConfig
construct memory = record memory {
  configfile = [];
  bind = [];
  current_bind = 0;
  current_server = 0;
  current_filter = pos 0;
  current_address = 0;
  current_task = negsuc 0;
}

-- What the functions of the PTypes library give: `phostbyname`, `iptostring`, the two constants, and
-- the octet that the constructor of an address makes of an `int`.
pub record Network : Type 0 where
  pub host : List ℕ → IpAddress
  pub show : IpAddress → List ℕ
  pub ip_none : IpAddress
  pub ip_any : IpAddress
  pub octet : ℤ → ℕ

-- The calendar of PTypes, and the readings of the clock while one line is read: the day, the
-- difference to the local time, and the time at each place where it is asked for.
pub record Calendar : Type 0 where
  pub encode_date : ℤ → ℤ → ℤ → ℤ
  pub encode_time : ℤ → ℤ → ℤ → ℤ
  pub is_valid : ℤ → Bool
  pub year : ℤ
  pub month : ℤ
  pub day : ℤ
  pub offset : ℤ
  pub compared : ℤ
  pub again : ℤ
  pub unset : ℤ

-- `bind[bind.get_count() - 1]`, if there is one.
unfoldable pub on_last : (BindConf → BindConf) → List BindConf → List BindConf
on_last f [] = []
on_last f (b ∷ []) = f b ∷ []
on_last f (b ∷ c ∷ bs) = b ∷ on_last f (c ∷ bs)

-- `cleanBindList` and `setDefaultValues`.
unfoldable pub clean_bind_list : AppConfig → AppConfig
clean_bind_list c = record c { bind = [] }

unfoldable pub set_default_values : Network → AppConfig → AppConfig
unfolding clean_bind_list
set_default_values n c = record (clean_bind_list c) {
  http_admin_port = 8182;
  connect_to_the_same_server = true;
  one_connection_per_ip = false;
  connections_per_thread = pos 16;
  update_server_status = false;
  http_admin_enabled = false;
  http_admin_ip = n.ip_any;
  minimum_server_reconnection_time = pos 30;
}

unfoldable pub set_file_path : List ℕ → AppConfig → AppConfig
set_file_path file c = record c { configfile = file }
