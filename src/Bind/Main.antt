-- ===== src/Bind/Main.antt =====
-- The part of `main` (src/main.cpp) between the configuration and the threads.
use relb.Prelude.{given, suc, Option, some, ltb, if◌then◌else◌}
use relb.Filters.{FilterInfo}
use relb.Config.State.{AppConfig, Network}
use relb.Config.Cursor.{
  count, get_first_bind, get_next_server, get_next_address, get_tasks_count, get_next_task,
  get_filter_count, get_next_filter,
}
use relb.Config.Getters.{
  get_address_ip, get_address_port, get_server_port, get_server_ip, get_server_name,
  get_server_max_connections, get_server_weight, get_filter_source_ip, get_filter_source_mask,
  get_filter_dest_ip, get_filter_dest_mask, get_filter_allow, get_task_type, get_task_interval,
  get_task_fixed_time, get_task_first_run, get_connections_per_thread, get_server_retry_time,
  get_admin_enabled, get_admin_port, get_admin_ip,
}
use relb.Bind.Loop.{do_while, while_next}
use relb.Bind.State.{
  Services, Bind, construct, add_address, set_server_retry, set_admin, add_server, add_task,
  add_task_first, add_filter, start_listening,
}

module _ {S A : Type 0} (n : Network) (o : Services S A) where
  -- The bodies of the four loops.
  unfoldable pub next_address_added : AppConfig → Bind S A → Option (Bind S A)
  unfolding add_address get_address_port get_address_ip
  next_address_added c b = some (add_address o (get_address_port c) (get_address_ip n c) b)

  unfoldable pub next_server_added : AppConfig → Bind S A → Option (Bind S A)
  unfolding add_server get_server_name get_server_ip get_server_port get_server_weight
      get_server_max_connections
  next_server_added c b = some (
      add_server o (get_server_name c) (get_server_ip n c) (get_server_port c) (get_server_weight c)
        (get_server_max_connections c) b)

  unfoldable pub next_task_added : AppConfig → Bind S A → Option (Bind S A)
  unfolding add_task add_task_first get_task_type get_task_interval get_task_fixed_time
      get_task_first_run
  next_task_added c b = given (get_task_fixed_time c) λ fixed. given (get_task_type c) λ type.
      given (get_task_interval c) λ interval.
        if fixed
        then given (get_task_first_run c) (λ first. some (add_task_first o type first interval b))
        else some (add_task o type interval b)

  unfoldable pub next_filter_added : AppConfig → Bind S A → Option (Bind S A)
  unfolding add_filter get_filter_source_ip get_filter_source_mask get_filter_dest_ip
      get_filter_dest_mask get_filter_allow
  next_filter_added c b = given (get_filter_source_ip n c) λ source.
      given (get_filter_source_mask n c) λ source_mask. given (get_filter_dest_ip n c) λ dest.
        given (get_filter_dest_mask n c) λ dest_mask. given (get_filter_allow c) λ allow.
          let f : FilterInfo = record {
            src_ip = source;
            src_mask = source_mask;
            dst_ip = dest;
            dst_mask = dest_mask;
            allow = allow;
          } in
          some (add_filter o f b)

  unfoldable pub tasks_added : AppConfig → Bind S A → Option (AppConfig × Bind S A)
  tasks_added c b =
      let (d, total) = get_tasks_count c in
      if ltb 0 total then while_next next_task_added get_next_task (suc total) d b else some (d, b)

  unfoldable pub filters_added : AppConfig → Bind S A → Option (AppConfig × Bind S A)
  filters_added c b =
      let (d, total) = get_filter_count c in
      if ltb 0 total
      then while_next next_filter_added get_next_filter (suc total) d b
      else some (d, b)

  -- The fuel of a loop is the number of the entries, and one more.
  unfoldable pub configure : AppConfig → Bind S A → Option (AppConfig × Bind S A)
  configure config memory =
      let c = (get_first_bind config).0 in
      let made = construct o (get_connections_per_thread c) memory in
      let admin = set_admin o (get_admin_enabled c) (get_admin_ip c) (get_admin_port c) made in
      let addresses =
        do_while next_address_added get_next_address (suc (count (λ b. b.address) c)) c admin in
      given addresses λ (d, listening).
        given (do_while next_server_added get_next_server (suc (count (λ b. b.dst) c)) d listening)
          λ (e, serving). given (tasks_added e serving) λ (f, timed).
            given (filters_added f timed) λ (g, filtered).
              some (g, start_listening o (set_server_retry o (get_server_retry_time g) filtered))
