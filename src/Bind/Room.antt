-- ===== src/Bind/Room.antt =====
-- Accepted clients of the whole program find threads with room: src/Bind.cpp with `setServer` of
-- src/ServerList.cpp behind it.
use relb.Prelude.{All, ℕ, ◌<◌, ◌≡◌, true, some, List, Bool-cases, inl, inr, arith}
use relb.Prelude.Int.{ℤ}
use relb.Address.{IpAddress}
use relb.Socket.{Socket}
use relb.Config.State.{BindAddress}
use relb.Manager.Pool.{Pool, add_new, get_free_manager}
use relb.ServerList.GetServer.{Clock}
use relb.ServerList.SetServer.{Balancer, hand_over, set_server, Fits, set_server-Fits}
use relb.Bind.State.{Bind}
use relb.Bind.Execute.{Round, Listened, enable_admin, execute}
use relb.Bind.Live.{Live, LiveAdmin, live}
use relb.Bind.Serving.{Ends, execute-Ends}
use Prim.Native.String.{String}

-- Threads may have connections, and none has more than it may have.
pub record HasPlaces (l : Pool) : Type 0 where
  pub some_peers : 0 < l.peers_per_thread
  pub some_sockets : 0 < l.max_peers
  pub fits : All Fits l.managers

get_free_manager-limits :
    (l : Pool)
    → ((get_free_manager l).0.peers_per_thread ≡ l.peers_per_thread)
      × ((get_free_manager l).0.max_peers ≡ l.max_peers)
unfolding get_free_manager add_new
get_free_manager-limits l = ground arith

module _ (ratio : ℕ → ℕ → ℕ) (dial : IpAddress → ℕ → Socket) where
  set_server-limits :
      (client : Socket) (ip : IpAddress) (port : ℕ) (clock : Clock) (b c : Balancer)
      → set_server ratio dial client ip port clock b ≡ some c
      → (c.pool.peers_per_thread ≡ b.pool.peers_per_thread) × (c.pool.max_peers ≡ b.pool.max_peers)
  unfolding set_server hand_over
  set_server-limits client ip port clock b c e = ground (arith, get_free_manager-limits b.pool)

  set_server-HasPlaces :
      (client : Socket) (ip : IpAddress) (port : ℕ) (clock : Clock) (b : Balancer)
      → HasPlaces b.pool
      → (c : Balancer) × (set_server ratio dial client ip port clock b ≡ some c) × HasPlaces c.pool
  set_server-HasPlaces client ip port clock b v =
      let (c, e, fits) =
        set_server-Fits ratio dial client ip port clock b v.some_peers v.some_sockets v.fits in
      let (peers, sockets) = set_server-limits client ip port clock b c e in
      (
        c,
        e,
        record {
          some_peers = omega (arith, peers, v.some_peers);
          some_sockets = omega (arith, sockets, v.some_sockets);
          fits = fits;
        },
      )

  module _ (text : List ℕ → String) where
    abbrev pub Places : Live → Type 0
    Places s = HasPlaces s.balancer.pool

    live-Places :
        (fd : ℕ) (ip : IpAddress) (port : ℕ) (s : Live)
        → Places s
        → Ends Places ((live ratio dial text).set_server fd ip port s)
    unfolding live
    live-Places fd ip port s v =
        let (c, e, w) =
          set_server-HasPlaces (record { open_fd = true; fd = fd }) ip port (s.clocks s.calls)
            s.balancer v in
        rw (e, Ends) w

    enable_admin-Places :
        (b : Bind Live LiveAdmin)
        → Places b.slist
        → Places (enable_admin (live ratio dial text) b).slist
    unfolding enable_admin live
    enable_admin-Places b v = elim (Bool-cases b.admin_enabled) [ inl e ↦ rw e v | inr e ↦ rw e v ]

    -- If threads may have connections at all, and none has more than it may have, the thread of `Bind` ends
    -- without a fault, whatever clients come in whatever rounds, and no thread has more connections than it
    -- may have then.
    pub execute-Places :
        (listening : ℕ → BindAddress → ℤ) (rs : List Round) (b : Bind Live LiveAdmin)
        → Places b.slist
        → Ends
            (λ (e : Listened Live LiveAdmin). Places e.bind.slist)
            (execute (live ratio dial text) listening rs b)
    execute-Places listening rs b v =
        execute-Ends (live ratio dial text) Places live-Places listening rs b
          (enable_admin-Places b v)
