-- ===== src/Manager/Counting.antt =====
-- The count of a manager's connections is the number of those that it holds.
use relb.Prelude.{
  ℕ, suc, ◌+◌, ◌≤◌, ◌≡◌, refl, ap, Bool, Option, some, List, [], ◌∷◌, length, length-append,
  Option-cases, inl, inr, arith,
}
use relb.Connection.Peer.{Peer}
use relb.Connection.Transfer.{check_peers, check_connecting_peers}
use relb.Connection.Manage.{Round}
use relb.Manager.Rounds.{
  Manager, Answer, sockets_ready, bad_descriptor, nothing, new, add_connection_peer, close_in,
  close_requested, keep_active, sweep, manage_all, manage_connecting, check_all, check_connections,
  react, execute_round,
}

pub record IsCounted (m : Manager) : Type 0 where
  pub counted : m.current_connections ≡ length m.peers + length m.connecting

length-close_in : (info : Option ℕ) (ps : List Peer) → length (close_in info ps) ≡ length ps
unfolding close_in
length-close_in info [] = refl
length-close_in info (p ∷ ps) = ap suc (length-close_in info ps)

length-keep_active : (f : Bool) (ps : List Peer) → length (keep_active f ps) ≤ length ps
unfolding keep_active
length-keep_active f [] = omega arith
length-keep_active f (p ∷ ps) = ground (arith, length-keep_active f ps)

length-check_all :
    (refused : ℕ → Bool × Bool) (check : Peer → Bool → Bool → Peer) (i : ℕ) (ps : List Peer)
    → length (check_all refused check i ps) ≡ length ps
unfolding check_all
length-check_all refused check i [] = refl
length-check_all refused check i (p ∷ ps) = ap suc (length-check_all refused check (suc i) ps)

length-manage_all :
    (io : ℕ → Round) (i : ℕ) (ps qs : List Peer)
    → manage_all io i ps ≡ some qs
    → length qs ≡ length ps
unfolding manage_all
length-manage_all io i [] qs e = ground arith
length-manage_all io i (p ∷ ps) qs e = elim (Option-cases (manage_all io (suc i) ps)) [
  | inl n ↦ ground (arith, n)
  | inr (rs, f) ↦ ground (arith, f, length-manage_all io (suc i) ps rs f)
]

length-manage_connecting :
    (io : ℕ → Round) (i : ℕ) (ps : List Peer)
    → length (manage_connecting io i ps).0 + length (manage_connecting io i ps).1 ≡ length ps
unfolding manage_connecting
length-manage_connecting io i [] = refl
length-manage_connecting io i (p ∷ ps) = ground (arith, length-manage_connecting io (suc i) ps)

new-IsCounted : (max_peers connections : ℕ) → IsCounted (new max_peers connections)
unfolding new
new-IsCounted max_peers connections = record { counted = refl }

-- A connection that is handed to a manager is counted.
pub add_connection_peer-IsCounted :
    (p : Peer) (m : Manager) → IsCounted m → IsCounted (add_connection_peer p m)
unfolding add_connection_peer
add_connection_peer-IsCounted p m v = record {
  counted = omega (arith, v.counted, length-append m.connecting (p ∷ []));
}

close_requested-IsCounted :
    (infos : List (Option ℕ)) (m : Manager) → IsCounted m → IsCounted (close_requested infos m)
unfolding close_requested
close_requested-IsCounted [] m v = record { counted = v.counted }
close_requested-IsCounted (info ∷ infos) m v =
    let t = close_requested infos m in
    record {
      counted = omega (
        arith,
        (close_requested-IsCounted infos m v).counted,
        length-close_in info t.peers,
        length-close_in info t.connecting,
      );
    }

sweep-IsCounted : (m : Manager) → IsCounted m → IsCounted (sweep m)
unfolding sweep
sweep-IsCounted m v = record {
  counted = omega (
    arith,
    v.counted,
    length-keep_active m.finish m.peers,
    length-keep_active m.finish m.connecting,
  );
}

react-IsCounted : (a : Answer) (m n : Manager) → IsCounted m → react a m ≡ some n → IsCounted n
unfolding react check_connections
react-IsCounted (sockets_ready io jo) m n v e = elim (Option-cases (manage_all io 0 m.peers)) [
  | inl f ↦ absurd (ground (arith, f))
  | inr (ps, f) ↦
      let t = manage_connecting jo 0 m.connecting in
      ground (
        arith,
        f,
        v.counted,
        length-manage_all io 0 m.peers ps f,
        length-manage_connecting jo 0 m.connecting,
        length-append ps t.1,
      )
]
react-IsCounted (bad_descriptor ok rc r) m n v e = ground (
  arith,
  v.counted,
  length-check_all rc check_connecting_peers 0 m.connecting,
  length-check_all r check_peers 0 m.peers,
)
react-IsCounted nothing m n v e = ground arith

-- A round of a manager's thread that ends without a fault, whatever `select` answers, keeps the
-- count equal to the number of connections that it holds: it falls by one for each that is deleted,
-- and stays when one moves between the lists.
pub execute_round-IsCounted :
    (a : Answer) (m n : Manager) → IsCounted m → execute_round a m ≡ some n → IsCounted n
unfolding execute_round
execute_round-IsCounted a m n v e =
    let t = sweep (close_requested m.to_be_closed m) in
    let w = sweep-IsCounted _ (close_requested-IsCounted m.to_be_closed m v) in
    ground (arith, w.counted, react-IsCounted a t n w)
