-- ===== src/ServerList/SetServer.antt =====
-- `ServerList::setServer` (src/ServerList.cpp): an accepted client gets a server, and its connection a
-- thread.
use relb.Prelude.{
  All, All-snoc, All-update_at, ℕ, ◌≤◌, ◌<◌, ◌≡◌, true, Option, none, some, inl, inr, update_at,
  ltb, if_cases, Option-cases, arith,
}
use relb.Address.{IpAddress}
use relb.Socket.{Socket}
use relb.Connection.Peer.{Peer, connect}
use relb.Manager.Rounds.{Manager, new, add_connection_peer, get_free_connections}
use relb.Manager.Pool.{Pool, add_new, find_best, candidates, get_free_manager}
use relb.Manager.Choice.{HasRoom, get_free_manager-HasRoom}
use relb.ServerList.State.{PeerInfo, ServerList}
use relb.ServerList.GetServer.{Clock, get_server}
use relb.ServerList.Answer.{get_server_total}

-- The object with its list of threads, `cmlist`.
pub record Balancer : Type 0 where
  pub list : ServerList
  pub pool : Pool

-- The connection goes to the thread that was found before, at the index `k`; without a server the
-- client's socket is deleted. `dial` is the constructor of a socket to a server.
unfoldable pub hand_over :
    (IpAddress → ℕ → Socket) → Socket → Pool → ℕ → ServerList × Option PeerInfo → Balancer
hand_over dial client pool k (sl, none) = record { list = sl; pool = pool }
hand_over dial client pool k (sl, some q) = record {
  list = sl;
  pool = record pool {
    managers =
        update_at
          (add_connection_peer (connect client (dial q.dst_ip q.dst_port) true (some q.address))) k
          pool.managers;
  };
}

module _ (ratio : ℕ → ℕ → ℕ) (dial : IpAddress → ℕ → Socket) where
  unfoldable pub set_server : Socket → IpAddress → ℕ → Clock → Balancer → Option Balancer
  unfolding hand_over
  set_server client ip port clock b =
      let (pool, k) = get_free_manager b.pool in
      elim (get_server ratio b.list ip port k clock) [
        | none ↦ none
        | some r ↦ some (hand_over dial client pool k r)
      ]

-- A thread has no more connections than it may have.
abbrev pub Fits : Manager → Type 0
Fits m = m.current_connections ≤ m.max_connections

add_new-Fits : (l : Pool) → All Fits l.managers → All Fits (add_new l).0.managers
unfolding add_new new
add_new-Fits l v =
    All-snoc Fits l.managers (new l.max_peers l.peers_per_thread) v (unfold new in omega arith)

get_free_manager-Fits : (l : Pool) → All Fits l.managers → All Fits (get_free_manager l).0.managers
unfolding get_free_manager
get_free_manager-Fits l v = elim (Option-cases (find_best 1 none (candidates l.managers))) [
  | inl n ↦ rw (n, get_free_manager) (add_new-Fits l v)
  | inr (b, e) ↦
      rw (e, get_free_manager)
        (if_cases (λ (t : Pool × ℕ). All Fits t.0.managers) (ltb b.free 1) (add_new-Fits l v) v)
]

room-Fits : (p : Peer) (m : Manager) → 0 < get_free_connections m → Fits (add_connection_peer p m)
unfolding get_free_connections add_connection_peer
room-Fits p m h = omega (arith, h)

hand_over-Fits :
    (dial : IpAddress → ℕ → Socket) (client : Socket) (pool : Pool) (k : ℕ)
    (r : ServerList × Option PeerInfo)
    → HasRoom pool k
    → All Fits pool.managers
    → All Fits (hand_over dial client pool k r).pool.managers
unfolding hand_over
hand_over-Fits dial client pool k (sl, none) h v = v
hand_over-Fits dial client pool k (sl, some q) h v =
    All-update_at Fits _ pool.managers k h.manager h.listed (room-Fits _ h.manager h.room) v

-- If threads may have connections at all, and none has more than it may have, then an accepted client
-- is dealt with (the call ends), and afterwards too no thread has more connections than it may have.
pub set_server-Fits :
    (ratio : ℕ → ℕ → ℕ) (dial : IpAddress → ℕ → Socket) (client : Socket) (ip : IpAddress)
    (port : ℕ) (clock : Clock) (b : Balancer)
    → 0 < b.pool.peers_per_thread
    → 0 < b.pool.max_peers
    → All Fits b.pool.managers
    → (c : Balancer) × (set_server ratio dial client ip port clock b ≡ some c)
      × All Fits c.pool.managers
unfolding set_server
set_server-Fits ratio dial client ip port clock b h k v =
    let (pool, i) = get_free_manager b.pool in
    let (r, e) = get_server_total ratio b.list ip port i clock in
    (
      hand_over dial client pool i r,
      ground (arith, e),
      hand_over-Fits dial client pool i r (get_free_manager-HasRoom b.pool h k)
          (get_free_manager-Fits b.pool v),
    )
