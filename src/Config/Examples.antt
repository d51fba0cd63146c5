-- ===== src/Config/Examples.antt =====
-- A configuration on which the theorems about it apply.
use relb.Prelude.{
  ℕ, ◌-◌, ◌%◌, ◌≡◌, refl, Bool, true, false, not, ◌&&◌, ◌||◌, Option, none, some, is_some, List, [],
  ◌∷◌, ◌++◌, ◌==◌, arith, codes, same_text, if◌then◌else◌,
}
use Prim.Native.Nat.{◌^◌}
use relb.Prelude.Int.{ℤ, pos, negsuc}
use relb.Address.{IpAddress, value}
use relb.Parse.{atoi, read_signed, read_digits}
use relb.Config.State.{
  BindConf, AppConfig, Network, Calendar, set_default_values, clean_bind_list, on_last,
}
use relb.Config.Endpoint.{endpoint, endpoint_at, bind_line}
use relb.Config.Servers.{server_of, add_server, server_named, server_line, retry_line, threads_line}
use relb.Config.Rules.{filter_line, netmask}
use relb.Config.Tasks.{task_line}
use relb.Config.Lines.{
  is_comment, binds, others, process_config_line, process_lines, load_opened, load_file, can_bind,
  check_config,
}
use relb.Config.Faults.{one_has_no_port, lines_read, load_file-fault}
use relb.Config.Masks.{netmask-value}
use relb.Config.Usable.{IsConfig}
use relb.Config.Sound.{load_file-IsConfig}
use relb.Config.Fallback.{all, is_usable, check_config-accepts}
use relb.Config.Written.{Written, IsWritten}
use relb.Config.RoundTrip.{
  WrittenPart, IsWrittenPart, write_part, meant_part, process_lines-written,
}

abbrev pub nowhere : IpAddress
nowhere = record { a = 255; b = 255; c = 255; d = 255 }

abbrev pub everywhere : IpAddress
everywhere = record { a = 0; b = 0; c = 0; d = 0 }

abbrev pub backend : IpAddress
backend = record { a = 10; b = 0; c = 0; d = 1 }

abbrev octet_of : ℤ → ℕ
octet_of (pos m) = m % 256
octet_of (negsuc m) = 255 - m % 256

-- One host has a name.
abbrev pub lan : Network
lan = record {
  host = λ name. if same_text name (codes "web") then backend else nowhere;
  show = λ ip. [];
  ip_none = nowhere;
  ip_any = everywhere;
  octet = octet_of;
}

abbrev pub epoch : Calendar
epoch = record {
  encode_date = λ y m d. pos 0;
  encode_time = λ h m s. pos 0;
  is_valid = λ t. true;
  year = pos 1;
  month = pos 1;
  day = pos 1;
  offset = pos 0;
  compared = pos 100500;
  again = pos 100500;
  unset = pos 100500;
}

abbrev pub fresh : AppConfig
fresh = record {
  configfile = [];
  connect_to_the_same_server = true;
  one_connection_per_ip = false;
  http_admin_enabled = false;
  http_admin_port = 0;
  http_admin_ip = everywhere;
  connections_per_thread = pos 0;
  update_server_status = false;
  minimum_server_reconnection_time = pos 0;
  bind = [];
  current_bind = 0;
  current_server = 0;
  current_task = negsuc 0;
  current_filter = pos 0;
  current_address = 0;
}

-- A file in the working path.
abbrev pub files : List ℕ → Option (List (List ℕ))
files path =
    if same_text path (codes "relb.conf")
    then some (codes "# web" ∷ codes "bind:80" ∷ codes "server:web:8080" ∷ [])
    else none

abbrev pub served : BindConf
served = record {
  address = record { src_ip = everywhere; src_port = 80 } ∷ [];
  dst =
      record {
        host_name = codes "web";
        dst_ip = backend;
        dst_port = 8080;
        weight = pos 0;
        max_connections = pos 0;
      }
      ∷ [];
  tasks = [];
  filter = [];
}

abbrev pub found : AppConfig
found = record fresh { configfile = codes "relb.conf" }

abbrev pub loaded : AppConfig
loaded = record found {
  http_admin_port = 8182;
  connections_per_thread = pos 16;
  minimum_server_reconnection_time = pos 30;
  bind = served ∷ [];
}

pub load_found : load_file lan (λ i. epoch) files found ≡ some (loaded, true)
unfolding load_file load_opened set_default_values clean_bind_list process_lines process_config_line
    is_comment binds bind_line endpoint endpoint_at server_line server_named add_server server_of
    on_last others atoi read_signed read_digits retry_line threads_line filter_line task_line
load_found = refl

load_file-IsConfig_example : IsConfig lan loaded
load_file-IsConfig_example = load_file-IsConfig lan (λ i. epoch) files found loaded true load_found

load_file-fault_example :
    is_some (load_file lan (λ i. epoch) files found)
    ≡ not (one_has_no_port (lines_read (files (codes "relb.conf"))))
load_file-fault_example = load_file-fault lan (λ i. epoch) files found

netmask-value_example : value (netmask lan (pos 20)) ≡ 2 ^ 32 - 2 ^ (32 - 20)
netmask-value_example = netmask-value lan 20 (λ x h. omega arith) (omega arith)

abbrev pub free : IpAddress → Bool
free ip = true

abbrev pub unprivileged : IpAddress → ℕ → Bool
unprivileged ip port = not (port == 443)

check_config-accepts_example :
    check_config free unprivileged loaded
    ≡ (not false || can_bind free unprivileged everywhere 8182)
      && (not (1 == 0) && all (is_usable free unprivileged) (served ∷ []))
check_config-accepts_example = check_config-accepts free unprivileged loaded

abbrev web : Written
web = record { name = codes "web"; port = 8080; weight = 3; limit = 100 }

abbrev site : WrittenPart
site = record { host = codes "web"; port = 80; servers = web ∷ [] }

web-IsWritten : IsWritten lan web
web-IsWritten = record {
  plain = (refl, (refl, (refl, tt)));
  solid = refl;
  known = refl;
  port = ground arith;
  fits = ground arith;
}

site-IsWrittenPart : IsWrittenPart lan site
site-IsWrittenPart = record {
  plain = (refl, (refl, (refl, tt)));
  solid = refl;
  port = ground arith;
  fits = ground arith;
  servers = (web-IsWritten, tt);
}

process_lines-written_example :
    process_lines lan (λ i. epoch) 0 (write_part site) fresh
    ≡ some (record fresh { bind = [] ++ meant_part lan site ∷ [] })
process_lines-written_example =
    process_lines-written lan (λ i. epoch) 0 site fresh site-IsWrittenPart
