-- ===== src/Config/Getters.antt =====
-- The getters of `AppConfig` (src/AppConfig.cpp).
use relb.Prelude.{ℕ, Bool, true, false, Option, List, codes}
use relb.Prelude.Int.{ℤ, pos}
use relb.Address.{IpAddress}
use relb.Config.State.{AppConfig, Network}
use relb.Config.Cursor.{of_address, of_server, of_task, of_filter}

unfoldable pub get_address_ip : Network → AppConfig → IpAddress
get_address_ip n = of_address (λ a. a.src_ip) n.ip_any

unfoldable pub get_address_port : AppConfig → ℕ
get_address_port = of_address (λ a. a.src_port) 0

unfoldable pub get_server_port : AppConfig → ℕ
get_server_port = of_server (λ s. s.dst_port) 0

unfoldable pub get_server_ip : Network → AppConfig → IpAddress
get_server_ip n = of_server (λ s. s.dst_ip) n.ip_none

unfoldable pub get_server_name : AppConfig → List ℕ
get_server_name = of_server (λ s. s.host_name) (codes "void")

unfoldable pub get_server_max_connections : AppConfig → ℤ
get_server_max_connections = of_server (λ s. s.max_connections) (pos 0)

unfoldable pub get_server_weight : AppConfig → ℤ
get_server_weight = of_server (λ s. s.weight) (pos 0)

unfoldable pub get_filter_source_ip : Network → AppConfig → Option IpAddress
get_filter_source_ip n = of_filter (λ f. f.src_ip) n.ip_any

unfoldable pub get_filter_source_mask : Network → AppConfig → Option IpAddress
get_filter_source_mask n = of_filter (λ f. f.src_mask) n.ip_any

unfoldable pub get_filter_dest_ip : Network → AppConfig → Option IpAddress
get_filter_dest_ip n = of_filter (λ f. f.dst_ip) n.ip_any

unfoldable pub get_filter_dest_mask : Network → AppConfig → Option IpAddress
get_filter_dest_mask n = of_filter (λ f. f.dst_mask) n.ip_any

unfoldable pub get_filter_allow : AppConfig → Option Bool
get_filter_allow = of_filter (λ f. f.allow) true

-- INVALID_TASK is 0.
unfoldable pub get_task_type : AppConfig → Option ℕ
get_task_type = of_task (λ t. t.task_type) 0

unfoldable pub get_task_interval : AppConfig → Option ℤ
get_task_interval = of_task (λ t. t.run_interval_seconds) (pos 0)

unfoldable pub get_task_fixed_time : AppConfig → Option Bool
get_task_fixed_time = of_task (λ t. t.fixed_time) false

unfoldable pub get_task_first_run : AppConfig → Option ℤ
get_task_first_run = of_task (λ t. t.next_run_time) (pos 0)

unfoldable pub get_connections_per_thread : AppConfig → ℤ
get_connections_per_thread c = c.connections_per_thread

unfoldable pub get_server_retry_time : AppConfig → ℤ
get_server_retry_time c = c.minimum_server_reconnection_time

unfoldable pub get_admin_enabled : AppConfig → Bool
get_admin_enabled c = c.http_admin_enabled

unfoldable pub get_admin_port : AppConfig → ℕ
get_admin_port c = c.http_admin_port

unfoldable pub get_admin_ip : AppConfig → IpAddress
get_admin_ip c = c.http_admin_ip
