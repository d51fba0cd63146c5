-- ===== src/Bind/Together.antt =====
-- The program from its configuration file to the clients: `main` (src/main.cpp), `Bind` (src/Bind.cpp), and
-- behind it the list of servers and the administration.
use relb.Prelude.{
  ℕ, ◌≡◌, refl, ap, sym, ◌∙◌, Bool, true, false, Option, some, List, [], ◌∷◌, if◌then◌else◌,
  if_cases, Zip, Zip-snoc, arith,
}
use relb.Prelude.Int.{ℤ, pos, ltb_ℤ}
use relb.Address.{IpAddress}
use relb.Filters.{FilterInfo}
use relb.Socket.{Socket}
use relb.Config.State.{BindAddress, TaskConf, DstConf, BindConf, AppConfig, Network, Calendar}
use relb.Config.Lines.{load_config}
use relb.Config.Start.{IsAtStart}
use relb.Manager.Pool.{Pool, set_peers_per_thread}
use relb.ServerList.State.{ServerInfo, PeerInfo, ServerList}
use relb.Admin.Mirror.{IsAlike, IsTwin, Mirrors}
use relb.Bind.Loop.{for_each}
use relb.Bind.State.{Services, Bind}
use relb.Bind.Main.{configure}
use relb.Bind.Visits.{serve, administer, plan}
use relb.Bind.Filled.{filled, bind_of}
use relb.Bind.Composed.{configure-load_config}
use relb.Bind.Execute.{Round, Listened, execute}
use relb.Bind.Live.{Live, LiveAdmin, live}
use relb.Bind.Serving.{Ends}
use relb.Bind.Room.{HasPlaces, Places, execute-Places}
use mathlib.Core.Path.{subst}
use Prim.Native.String.{String}

for_each-kept :
    {A B X : Type 0} (g : B → X) (f : A → B → B)
    → ((a : A) (b : B) → g (f a b) ≡ g b)
    → (l : List A) (b : B) → g (for_each f l b) ≡ g b
for_each-kept g f k [] b = refl
for_each-kept g f k (a ∷ l) b = for_each-kept g f k l (f a b) ∙ k a b

module _ (ratio : ℕ → ℕ → ℕ) (dial : IpAddress → ℕ → Socket) (text : List ℕ → String)
    (n : Network) where
  abbrev own : Services Live LiveAdmin
  own = live ratio dial text

  -- Tasks and filters change neither the threads nor the servers nor the connections.
  abbrev core : Live → Pool × List ServerInfo × List PeerInfo
  core s = (s.balancer.pool, s.balancer.list.servers, s.balancer.list.peers)

  plan-core : (t : TaskConf) (s : Live) → core (plan n own t s) ≡ core s
  unfolding live
  plan-core t s = ground arith

  filter-core : (f : FilterInfo) (s : Live) → core (own.add_filter f s) ≡ core s
  unfolding live
  filter-core f s = ground arith

  -- A server of the configuration, in both lists.
  abbrev entry : DstConf → ℕ → ServerInfo
  entry d now = record {
    host_name = text d.host_name;
    ip = d.dst_ip;
    port = d.dst_port;
    disconnected = 0;
    finished = 0;
    connected = 0;
    connecting = 0;
    weight = d.weight;
    max_connections = d.max_connections;
    last_connection_failed = false;
    last_connection_attempt = now;
  }

  entry-IsAlike : (d : DstConf) (now now' : ℕ) → IsAlike (entry d now) (entry d now')
  entry-IsAlike d now now' = record {
    ip = refl;
    port = refl;
    connecting = refl;
    connected = refl;
    finished = refl;
    disconnected = refl;
    failed = refl;
  }

  serve-Zip :
      (ss : List DstConf) (s : Live) (a : LiveAdmin)
      → Zip IsAlike s.balancer.list.servers a.server.servers
      → Zip IsAlike
          (for_each (serve n own) ss s).balancer.list.servers
          (for_each (administer n own) ss a).server.servers
  serve-Zip [] s a z = z
  serve-Zip (d ∷ ss) s a z = serve-Zip ss (serve n own d s) (administer n own d a) (
      unfold live in
      Zip-snoc IsAlike s.balancer.list.servers a.server.servers _ _ z
        (entry-IsAlike d (s.clocks s.calls).made (a.clock a.calls)))

  serve-pool : (d : DstConf) (s : Live) → (serve n own d s).balancer.pool ≡ s.balancer.pool
  unfolding live
  serve-pool d s = refl

  serve-peers :
      (d : DstConf) (s : Live) → (serve n own d s).balancer.list.peers ≡ s.balancer.list.peers
  unfolding live
  serve-peers d s = refl

  administer-peers :
      (d : DstConf) (a : LiveAdmin) → (administer n own d a).server.peers ≡ a.server.peers
  unfolding live
  administer-peers d a = refl

  begun-core : (retry : ℤ) (s : Live) → core (own.start (own.set_server_retry retry s)) ≡ core s
  unfolding live
  begun-core retry s = refl

  resize-list : (m : ℤ) (s : Live) → (own.set_peers_per_thread m s).balancer.list ≡ s.balancer.list
  unfolding live
  resize-list m s = refl

  resize-Places :
      (m : ℤ) (s : Live)
      → Places ratio dial text s
      → Places ratio dial text (own.set_peers_per_thread m s)
  unfolding live
  resize-Places m s v = record {
    some_peers = unfold set_peers_per_thread in ground (arith, v.some_peers);
    some_sockets = unfold set_peers_per_thread in ground (arith, v.some_sockets);
    fits = unfold set_peers_per_thread in ground (arith, v.fits);
  }

  module _ (c : AppConfig) (p : BindConf) (memory : Bind Live LiveAdmin) where
    -- What the loops make of the list, behind the number of connections of a thread.
    abbrev resized : Live
    resized =
        if ltb_ℤ (pos 0) c.connections_per_thread
        then own.set_peers_per_thread c.connections_per_thread memory.slist
        else memory.slist

    abbrev served : Live
    served = for_each (serve n own) p.dst resized

    filled-core : core (filled n own c p memory).slist ≡ core served
    filled-core =
        begun-core c.minimum_server_reconnection_time _
        ∙ for_each-kept core own.add_filter filter-core p.filter _
        ∙ for_each-kept core (plan n own) plan-core p.tasks served

    served-pool : served.balancer.pool ≡ resized.balancer.pool
    served-pool =
        for_each-kept (λ (s : Live). s.balancer.pool) (serve n own) serve-pool p.dst resized

    resized-list : resized.balancer.list ≡ memory.slist.balancer.list
    resized-list =
        if_cases (λ (s : Live). s.balancer.list ≡ memory.slist.balancer.list)
          (ltb_ℤ (pos 0) c.connections_per_thread)
          (resize-list c.connections_per_thread memory.slist) refl

    served-peers : served.balancer.list.peers ≡ memory.slist.balancer.list.peers
    served-peers =
        for_each-kept (λ (s : Live). s.balancer.list.peers) (serve n own) serve-peers p.dst resized
        ∙ ap (λ (l : ServerList). l.peers) resized-list

    filled-Places :
        Places ratio dial text memory.slist → Places ratio dial text (filled n own c p memory).slist
    filled-Places v =
        let w =
          if_cases (Places ratio dial text) (ltb_ℤ (pos 0) c.connections_per_thread)
            (resize-Places c.connections_per_thread memory.slist v) v in
        subst HasPlaces (sym (ap (λ t. t.0) filled-core ∙ served-pool)) w

    filled-Mirrors :
        Mirrors memory.slist.balancer.list memory.admin.server
        → Mirrors
            (filled n own c p memory).slist.balancer.list
            (filled n own c p memory).admin.server
    filled-Mirrors m =
        let start =
          subst (λ (l : ServerList). Zip IsAlike l.servers memory.admin.server.servers)
            (sym resized-list) m.servers in
        let admin =
          for_each-kept (λ (a : LiveAdmin). a.server.peers) (administer n own) administer-peers
            p.dst memory.admin in
        record {
          peers =
              subst (λ ps. Zip IsTwin ps (filled n own c p memory).admin.server.peers)
                (sym (ap (λ t. t.2) filled-core ∙ served-peers))
                (subst (λ qs. Zip IsTwin memory.slist.balancer.list.peers qs) (sym admin) m.peers);
          servers =
              subst (λ ss. Zip IsAlike ss (filled n own c p memory).admin.server.servers)
                (sym (ap (λ t. t.1) filled-core)) (serve-Zip p.dst resized memory.admin start);
        }

  module _ (k : ℕ → Calendar) (files : List ℕ → Option (List (List ℕ))) (ip_free : IpAddress → Bool)
      (port_free : IpAddress → ℕ → Bool) where
    -- From the configuration file to the clients: if the configuration is loaded and accepted, the object that
    -- listens is filled, the list of servers and the administration then have the same servers with
    -- the same counters and the same connections, and whatever clients come, each round of the
    -- thread that accepts them ends without a fault, and no thread ever has more connections than
    -- it may have. Before, the two lists are alike, and threads may have connections at all.
    pub load_config-serves :
        (c d : AppConfig) (memory : Bind Live LiveAdmin) (listening : ℕ → BindAddress → ℤ)
        (rs : List Round)
        → IsAtStart c
        → load_config n k files ip_free port_free c ≡ some (d, true)
        → Places ratio dial text memory.slist
        → Mirrors memory.slist.balancer.list memory.admin.server
        → (b : Bind Live LiveAdmin) × (bind_of n own (configure n own d memory) ≡ some b)
          × Mirrors b.slist.balancer.list b.admin.server
          × Ends
              (λ (e : Listened Live LiveAdmin). Places ratio dial text e.bind.slist)
              (execute own listening rs b)
    load_config-serves c d memory listening rs at_start accepted v m =
        let (p, ps, e, f) =
          configure-load_config ip_free port_free n k files own c d memory at_start accepted in
        (
          filled n own d p memory,
          f,
          filled-Mirrors d p memory m,
          execute-Places ratio dial text listening rs (filled n own d p memory)
              (filled-Places d p memory v),
        )
