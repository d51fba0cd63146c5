-- ===== src/Bind/Visits.antt =====
-- The loops of `main` (src/main.cpp) visit every entry of the selected part of the configuration.
use relb.Prelude.{
  ℕ, zero, suc, ◌+◌, ◌≡◌, ◌≢◌, refl, ap, ◌∙◌, some, [], ◌∷◌, ◌++◌, length, if◌then◌else◌, arith,
  Bool-cases, inl, inr,
}
use relb.Prelude.Int.{ℤ, pos, negsuc, ◌+ℤ◌}
use relb.Filters.{FilterInfo}
use relb.Config.State.{BindAddress, DstConf, TaskConf, BindConf, AppConfig, Network}
use relb.Config.Cursor.{
  selected, count, get_next_server, get_next_address, get_tasks_count, get_next_task,
  get_filter_count, get_next_filter,
}
use relb.Config.Getters.{
  get_address_ip, get_address_port, get_server_port, get_server_ip, get_server_name,
  get_server_max_connections, get_server_weight, get_filter_source_ip, get_filter_source_mask,
  get_filter_dest_ip, get_filter_dest_mask, get_filter_allow, get_task_type, get_task_interval,
  get_task_fixed_time, get_task_first_run,
}
use relb.Bind.Loop.{do_while, for_each, stop, all_visited, all_reached, Visits, Reaches}
use relb.Bind.State.{Services, Bind, add_address, add_server, add_task, add_task_first, add_filter}
use relb.Bind.Main.{
  next_address_added, next_server_added, next_task_added, next_filter_added, tasks_added,
  filters_added,
}

-- The positions of a counter that begins at -1.
abbrev pub before : ℕ → ℤ
before zero = negsuc 0
before (suc i) = pos i

before_next : (i : ℕ) → before i +ℤ pos 1 ≡ before (suc i)
before_next zero = refl
before_next (suc i) = ground arith

next_suc : (i : ℕ) → i + 1 ≡ suc i
next_suc i = omega arith

module _ {S A : Type 0} (n : Network) (o : Services S A) where
  abbrev pub for_address : BindAddress → Bind S A → Bind S A
  for_address a b = record b { addresses = b.addresses ++ a ∷ [] }

  -- A server, a task and a filter of the configuration, as they are given on.
  abbrev pub serve : DstConf → S → S
  serve s = o.add_server s.host_name s.dst_ip s.dst_port s.weight s.max_connections

  abbrev pub administer : DstConf → A → A
  administer s = o.admin_add_server s.host_name s.dst_ip s.dst_port s.weight s.max_connections

  abbrev pub plan : TaskConf → S → S
  plan t =
      if t.fixed_time
      then o.add_task_first t.task_type t.next_run_time t.run_interval_seconds
      else o.add_task t.task_type t.run_interval_seconds

  abbrev pub for_server : DstConf → Bind S A → Bind S A
  for_server s b = record b { slist = serve s b.slist; admin = administer s b.admin }

  abbrev pub for_task : TaskConf → Bind S A → Bind S A
  for_task t b = record b { slist = plan t b.slist }

  abbrev pub for_filter : FilterInfo → Bind S A → Bind S A
  for_filter f b = record b { slist = o.add_filter f b.slist }

  module _ (c : AppConfig) (p : BindConf) (h : selected c ≡ some p) where
    addresses_visited :
        Visits
          (next_address_added n o)
          get_next_address
          for_address
          (λ i. record c { current_address = i })
          p.address
    unfolding next_address_added get_next_address get_address_ip get_address_port add_address
    addresses_visited = record {
      moves = λ i. rw (h, next_suc i) refl;
      calls = λ i x b e. rw (h, e) refl;
    }

    servers_visited :
        Visits
          (next_server_added n o)
          get_next_server
          for_server
          (λ i. record c { current_server = i })
          p.dst
    unfolding next_server_added get_next_server add_server get_server_name get_server_ip
        get_server_port get_server_weight get_server_max_connections
    servers_visited = record {
      moves = λ i. rw (h, next_suc i) refl;
      calls = λ i x b e. rw (h, e) refl;
    }

    tasks_reached :
        Reaches
          (next_task_added n o)
          get_next_task
          for_task
          (λ i. record c { current_task = before i })
          p.tasks
    unfolding next_task_added get_next_task add_task add_task_first get_task_type get_task_interval
        get_task_fixed_time get_task_first_run
    tasks_reached = record {
      moves = λ i.
          rw (h, before_next i)
            (ap (λ t. (record c { current_task = before (suc i) }, t)) (ground arith));
      calls = λ i x b e.
          rw (h, e) (elim (Bool-cases x.fixed_time) [ inl f ↦ rw f refl | inr f ↦ rw f refl ]);
    }

    filters_reached :
        Reaches
          (next_filter_added n o)
          get_next_filter
          for_filter
          (λ i. record c { current_filter = before i })
          p.filter
    unfolding next_filter_added get_next_filter add_filter get_filter_source_ip
        get_filter_source_mask get_filter_dest_ip get_filter_dest_mask get_filter_allow
    filters_reached = record {
      moves = λ i.
          rw (h, before_next i)
            (ap (λ t. (record c { current_filter = before (suc i) }, t)) (ground arith));
      calls = λ i x b e. rw (h, e) refl;
    }

    pub addresses_lem :
        (b : Bind S A)
        → c.current_address ≡ 0
        → p.address ≢ []
        → do_while (next_address_added n o) get_next_address (suc (count (λ q. q.address) c)) c b
          ≡ some (record c { current_address = length p.address }, for_each for_address p.address b)
    addresses_lem b z ne = rw h (
        ap
          (λ i.
            do_while (next_address_added n o) get_next_address (suc (length p.address))
              (record c { current_address = i }) b)
          z
        ∙ all_visited (next_address_added n o) get_next_address for_address
            (λ i. record c { current_address = i }) p.address b ne addresses_visited)

    pub servers_lem :
        (b : Bind S A)
        → c.current_server ≡ 0
        → p.dst ≢ []
        → do_while (next_server_added n o) get_next_server (suc (count (λ q. q.dst) c)) c b
          ≡ some (record c { current_server = length p.dst }, for_each for_server p.dst b)
    servers_lem b z ne = rw h (
        ap
          (λ i.
            do_while (next_server_added n o) get_next_server (suc (length p.dst))
              (record c { current_server = i }) b)
          z
        ∙ all_visited (next_server_added n o) get_next_server for_server
            (λ i. record c { current_server = i }) p.dst b ne servers_visited)

    pub tasks_lem :
        (b : Bind S A)
        → tasks_added n o c b
          ≡ some (record c { current_task = before (stop p.tasks) }, for_each for_task p.tasks b)
    unfolding tasks_added get_tasks_count
    tasks_lem b = rw h (
        all_reached (next_task_added n o) get_next_task for_task
          (λ i. record c { current_task = before i }) p.tasks b tasks_reached)

    pub filters_lem :
        (b : Bind S A)
        → filters_added n o c b
          ≡ some
              (record c { current_filter = before (stop p.filter) }, for_each for_filter p.filter b)
    unfolding filters_added get_filter_count
    filters_lem b = rw h (
        all_reached (next_filter_added n o) get_next_filter for_filter
          (λ i. record c { current_filter = before i }) p.filter b filters_reached)
