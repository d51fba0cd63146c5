-- ===== src/Manager/Rounds.antt =====
-- `ThreadedConnectionManager` (src/ThreadedConnectionManager.cpp): its lists, and one round of its
-- thread. `select` and the control socket answer from outside.
use relb.Prelude.{
  ℕ, suc, ◌+◌, ◌-◌, Bool, false, not, ◌&&◌, Option, none, some, List, [], ◌∷◌, ◌++◌, length, ltb,
  if◌then◌else◌,
}
use relb.Connection.Peer.{Peer, is_active, close_p_info}
use relb.Connection.Transfer.{check_peers, check_connecting_peers}
use relb.Connection.Manage.{Round, manage_connections, manage_connecting_peer}

-- `peer_list` holds the connections whose server answered, `connecting_peer_list` the others.
pub record Manager : Type 0 where
  pub peers : List Peer
  pub connecting : List Peer
  pub to_be_closed : List (Option ℕ)
  pub max_connections : ℕ
  pub current_connections : ℕ
  pub finish : Bool

-- The constructor: `MIN( connections, MAX_PEERS_PER_FDSET )`.
unfoldable pub new : ℕ → ℕ → Manager
new max_peers connections = record {
  peers = [];
  connecting = [];
  to_be_closed = [];
  max_connections = (if ltb connections max_peers then connections else max_peers);
  current_connections = 0;
  finish = false;
}

unfoldable pub add_connection_peer : Peer → Manager → Manager
add_connection_peer p m = record m {
  current_connections = m.current_connections + 1;
  connecting = m.connecting ++ p ∷ [];
}

unfoldable pub close_later : Option ℕ → Manager → Manager
close_later info m = record m { to_be_closed = m.to_be_closed ++ info ∷ [] }

-- `MAX( max_connections - currentconnections, 0 )`.
unfoldable pub get_free_connections : Manager → ℕ
get_free_connections m = m.max_connections - m.current_connections

unfoldable pub get_active_connections : Manager → ℕ
get_active_connections m = m.current_connections

unfoldable pub close_in : Option ℕ → List Peer → List Peer
close_in info [] = []
close_in info (p ∷ ps) = close_p_info info p ∷ close_in info ps

-- The last request first, until none is left.
unfoldable pub close_requested : List (Option ℕ) → Manager → Manager
unfolding close_in
close_requested [] m = record m { to_be_closed = [] }
close_requested (info ∷ rest) m =
    let t = close_requested rest m in
    record t { peers = close_in info t.peers; connecting = close_in info t.connecting }

-- The connections that have a side left; all go when the thread is to finish.
unfoldable pub keep_active : Bool → List Peer → List Peer
keep_active finish [] = []
keep_active finish (p ∷ ps) =
    let rest = keep_active finish ps in if not finish && is_active p then p ∷ rest else rest

-- One `currentconnections--` for each connection that is deleted.
unfoldable pub sweep : Manager → Manager
unfolding keep_active
sweep m =
    let left = keep_active m.finish m.peers in
    let trying = keep_active m.finish m.connecting in
    record m {
      peers = left;
      connecting = trying;
      current_connections =
          m.current_connections
          - (length m.peers - length left)
          - (length m.connecting - length trying);
    }

-- Every connection gets its round. `none` is the fault of one of them.
unfoldable pub manage_all : (ℕ → Round) → ℕ → List Peer → Option (List Peer)
manage_all io i [] = some []
manage_all io i (p ∷ ps) =
    let rest = manage_all io (suc i) ps in
    elim (manage_connections (io i) p) [
      | none ↦ none
      | some q ↦ elim rest [ none ↦ none | some qs ↦ some (q ∷ qs) ]
    ]

-- Those that go on connecting, and those that move to the other list.
unfoldable pub manage_connecting : (ℕ → Round) → ℕ → List Peer → List Peer × List Peer
manage_connecting io i [] = ([], [])
manage_connecting io i (p ∷ ps) =
    let rest = manage_connecting io (suc i) ps in
    let now = manage_connecting_peer (io i) p in
    if now.1 then (rest.0, now.0 ∷ rest.1) else (now.0 ∷ rest.0, rest.1)

unfoldable pub check_all :
    (ℕ → Bool × Bool) → (Peer → Bool → Bool → Peer) → ℕ → List Peer → List Peer
check_all refused check i [] = []
check_all refused check i (p ∷ ps) =
    check p (refused i).0 (refused i).1 ∷ check_all refused check (suc i) ps

unfoldable pub check_connections : (ℕ → Bool × Bool) → (ℕ → Bool × Bool) → Manager → Manager
unfolding check_all
check_connections refused_connecting refused m = record m {
  connecting = check_all refused_connecting check_connecting_peers 0 m.connecting;
  peers = check_all refused check_peers 0 m.peers;
}

-- What `select` answers: sockets that are ready; a bad descriptor, with the state of the control
-- socket and what the checks find; any other error, or nothing.
pub data Answer : Type 0 where
  sockets_ready : (ℕ → Round) → (ℕ → Round) → Answer
  bad_descriptor : Bool → (ℕ → Bool × Bool) → (ℕ → Bool × Bool) → Answer
  nothing : Answer

unfoldable pub react : Answer → Manager → Option Manager
unfolding manage_all manage_connecting check_connections
react (sockets_ready io io_connecting) m = elim (manage_all io 0 m.peers) [
  | none ↦ none
  | some ps ↦
      let t = manage_connecting io_connecting 0 m.connecting in
      some (record m { peers = ps ++ t.1; connecting = t.0 })
]
react (bad_descriptor control_ok refused_connecting refused) m =
    some (if control_ok then check_connections refused_connecting refused m else m)
react nothing m = some m

-- `cleanup`: what is left is deleted.
unfoldable pub cleanup : Manager → Manager
cleanup m = record m { peers = []; connecting = []; to_be_closed = [] }

-- One round of the loop of `execute`.
unfoldable pub execute_round : Answer → Manager → Option Manager
unfolding close_requested sweep react
execute_round answer m =
    let t = sweep (close_requested m.to_be_closed m) in if t.finish then some t else react answer t
