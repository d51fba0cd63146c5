-- ===== src/Bind/Filled.antt =====
-- What the object that listens holds when `main` (src/main.cpp) has filled it.
use relb.Prelude.{
  ◌≡◌, ◌≢◌, refl, ap, sym, ◌∙◌, true, false, Option, none, some, List, [], ◌∷◌, ◌++◌, length, ltb,
  if◌then◌else◌, arith, List-cases, inl, inr, append_assoc, append-nil,
}
use relb.Prelude.Int.{pos, ltb_ℤ}
use relb.Filters.{FilterInfo}
use relb.Config.State.{BindAddress, DstConf, TaskConf, BindConf, AppConfig, Network}
use relb.Config.Cursor.{selected, get_first_bind}
use relb.Config.Getters.{
  get_connections_per_thread, get_server_retry_time, get_admin_enabled, get_admin_port,
  get_admin_ip,
}
use relb.Bind.Loop.{for_each, stop}
use relb.Bind.State.{Services, Bind, construct, set_server_retry, set_admin, start_listening}
use relb.Bind.Main.{configure}
use relb.Bind.Visits.{
  before, for_address, serve, administer, plan, for_server, for_task, for_filter, addresses_lem,
  servers_lem, tasks_lem, filters_lem,
}

module _ {S A : Type 0} (n : Network) (o : Services S A) where
  -- What the loops leave, in one record.
  for_each-address :
      (rest : List BindAddress) (b : Bind S A)
      → for_each (for_address n o) rest b ≡ record b { addresses = b.addresses ++ rest }
  for_each-address [] b = ap (λ l. record b { addresses = l }) (sym (append-nil b.addresses))
  for_each-address (a ∷ rest) b =
      for_each-address rest (for_address n o a b)
      ∙ ap (λ l. record b { addresses = l }) (append_assoc b.addresses (a ∷ []) rest)

  for_each-server :
      (ss : List DstConf) (b : Bind S A)
      → for_each (for_server n o) ss b ≡ record b {
        slist = for_each (serve n o) ss b.slist;
        admin = for_each (administer n o) ss b.admin;
      }
  for_each-server [] b = refl
  for_each-server (s ∷ ss) b = for_each-server ss (for_server n o s b)

  for_each-task :
      (ts : List TaskConf) (b : Bind S A)
      → for_each (for_task n o) ts b ≡ record b { slist = for_each (plan n o) ts b.slist }
  for_each-task [] b = refl
  for_each-task (t ∷ ts) b = for_each-task ts (for_task n o t b)

  for_each-filter :
      (fs : List FilterInfo) (b : Bind S A)
      → for_each (for_filter n o) fs b ≡ record b { slist = for_each o.add_filter fs b.slist }
  for_each-filter [] b = refl
  for_each-filter (f ∷ fs) b = for_each-filter fs (for_filter n o f b)

  all_added :
      (p : BindConf) (b : Bind S A)
      → for_each (for_filter n o) p.filter (
          for_each
            (for_task n o)
            p.tasks
            (for_each (for_server n o) p.dst (for_each (for_address n o) p.address b)))
        ≡ record b {
          addresses = b.addresses ++ p.address;
          admin = for_each (administer n o) p.dst b.admin;
          slist =
              for_each o.add_filter p.filter
                (for_each (plan n o) p.tasks (for_each (serve n o) p.dst b.slist));
        }
  all_added p b =
      rw
        (
          for_each-address p.address b,
          for_each-server p.dst (record b { addresses = b.addresses ++ p.address }),
        )
        (ap (for_each (for_filter n o) p.filter) (for_each-task p.tasks _)
          ∙ for_each-filter p.filter _)

  starts_listening :
      (b : Bind S A)
      → b.addresses ≢ []
      → start_listening o b ≡ record b { slist = o.start b.slist; started = true }
  unfolding start_listening
  starts_listening b h = elim (List-cases b.addresses) [
    | inl e ↦ absurd (h e)
    | inr (x, xs, e) ↦
        let more : ltb 0 (length b.addresses) ≡ true = rw e (ground arith) in rw more refl
  ]

  -- The object for a part of the configuration.
  abbrev pub filled : AppConfig → BindConf → Bind S A → Bind S A
  filled c p memory = record {
    admin = for_each (administer n o) p.dst memory.admin;
    addresses = p.address;
    admin_enabled = c.http_admin_enabled;
    admin_ip = c.http_admin_ip;
    admin_port = c.http_admin_port;
    finish = false;
    started = true;
    slist = o.start (
        o.set_server_retry c.minimum_server_reconnection_time (
          for_each o.add_filter p.filter (
            for_each (plan n o) p.tasks (
              for_each (serve n o) p.dst (
                if ltb_ℤ (pos 0) c.connections_per_thread
                then o.set_peers_per_thread c.connections_per_thread memory.slist
                else memory.slist)))));
  }

  abbrev pub bind_of : Option (AppConfig × Bind S A) → Option (Bind S A)
  bind_of none = none
  bind_of (some (c, b)) = some b

  -- The loops of `main` end without a fault, and fill the object that listens with exactly the first part
  -- of the configuration: its addresses; its servers, given to the list of servers and to the
  -- administration; then its tasks and its filters; each in their order. Then it has set the retry time
  -- and started the list. This is so if the positions are at the start and the part has an address and
  -- a server.
  pub configure-filled :
      (c : AppConfig) (p : BindConf) (ps : List BindConf) (memory : Bind S A)
      → c.bind ≡ p ∷ ps
      → c.current_address ≡ 0
      → c.current_server ≡ 0
      → p.address ≢ []
      → p.dst ≢ []
      → bind_of (configure n o c memory) ≡ some (filled c p memory)
  unfolding configure get_first_bind construct set_admin set_server_retry get_server_retry_time
      get_connections_per_thread get_admin_enabled get_admin_ip get_admin_port
  configure-filled config p ps memory h y z ne_a ne_s =
      let c : AppConfig = record config { current_bind = 0 } in
      let sel : selected c ≡ some p = rw h refl in
      let b0 =
        set_admin o c.http_admin_enabled c.http_admin_ip c.http_admin_port
          (construct o c.connections_per_thread memory) in
      let b1 = for_each (for_address n o) p.address b0 in
      let b2 = for_each (for_server n o) p.dst b1 in
      let b3 = for_each (for_task n o) p.tasks b2 in
      let d : AppConfig = record c { current_address = length p.address } in
      let e : AppConfig = record d { current_server = length p.dst } in
      let f : AppConfig = record e { current_task = before (stop p.tasks) } in
      rw
        (
          addresses_lem n o c p sel b0 y ne_a,
          servers_lem n o d p sel b1 z ne_s,
          tasks_lem n o e p sel b2,
          filters_lem n o f p sel b3,
        )
        (ap
            (λ b.
              some (start_listening o (set_server_retry o c.minimum_server_reconnection_time b)))
            (all_added p b0)
          ∙ ap some (starts_listening _ ne_a))
