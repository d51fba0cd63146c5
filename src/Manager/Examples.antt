-- ===== src/Manager/Examples.antt =====
-- Concrete managers, on which the theorems of this part apply.
use relb.Prelude.{
  All, ◌≡◌, true, ℕ, suc, ◌-◌, ◌≡◌, refl, true, false, none, some, [], ◌∷◌, ltb, ◌==◌,
  if◌then◌else◌, arith,
}
use relb.Prelude.Int.{pos, negsuc, ltb_ℤ}
use relb.ControlSocket.{Pipes, IsPipe, ControlSocket, new, same_ℤ, posts, wakes, wakes-posts}
use relb.Manager.Watch.{Covers, watched}
use relb.Manager.Asked.{Asks, AsksConnecting, Has, watched_complete}
use relb.Socket.{Socket, would_block, is_in_fdset}
use relb.Connection.Peer.{Peer, connect, is_active}
use relb.Connection.Manage.{Round, manage_connecting_peer}
use relb.Manager.Rounds.{Manager, Answer, sockets_ready, execute_round}
use relb.Manager.Counting.{IsCounted, execute_round-IsCounted}

abbrev line : Socket
line = record { open_fd = true; fd = 5 }

abbrev fresh : Peer
fresh = connect line line true (some 7)

abbrev server_answers : Round
server_answers = record {
  client_readable = false;
  client_writable = true;
  server_readable = false;
  server_writable = true;
  recv_client = λ max. would_block;
  recv_server = λ max. would_block;
  send_client = λ max. would_block;
  send_server = λ max. would_block;
}

abbrev answered : Answer
answered = sockets_ready (λ i. server_answers) (λ i. server_answers)

-- One connection, still without its server.
abbrev trying : Manager
trying = record {
  peers = [];
  connecting = fresh ∷ [];
  to_be_closed = [];
  max_connections = 16;
  current_connections = 1;
  finish = false;
}

-- Its server answered.
abbrev connected : Manager
connected = record trying {
  peers = (manage_connecting_peer server_answers fresh).0 ∷ [];
  connecting = [];
}

execute_round-IsCounted_example : IsCounted connected
unfolding is_in_fdset
execute_round-IsCounted_example =
    execute_round-IsCounted answered trying connected (record { counted = refl })
      (unfold execute_round is_active connect manage_connecting_peer in refl)

abbrev free : ℕ → Manager
free n = record trying { max_connections = n; current_connections = 0; connecting = [] }

-- A pipe with the ends 5 and 6 and room for four bytes, as the number of those that wait. Other
-- descriptors are no part of it.
abbrev pipe : Pipes ℕ
pipe = record {
  write =
      λ fd k. if same_ℤ fd (pos 6) then (if ltb k 4 then suc k else k, pos 1) else (k, negsuc 0);
  read =
      λ fd k. if same_ℤ fd (pos 5) then (k - 1, if k == 0 then pos 0 else pos 1) else (k, negsuc 0);
}

pipe-IsPipe : IsPipe pipe (λ k. k) 4 (pos 5) (pos 6)
pipe-IsPipe = record {
  written = λ k h. ground arith;
  taken = λ k n e. (omega (arith, e), ground (arith, e));
}

abbrev ends : ControlSocket
ends = record { read_end = pos 5; write_end = pos 6 }

wakes-posts_example :
    ((wakes pipe
        (λ k. k)
        9
        (new (some (pos 5, pos 6)))
        (posts pipe 3 (new (some (pos 5, pos 6))) 0)).0
      ≡ 3)
    × ((wakes pipe
          (λ k. k)
          9
          (new (some (pos 5, pos 6)))
          (posts pipe 3 (new (some (pos 5, pos 6))) 0)).1
        ≡ 0)
wakes-posts_example =
    wakes-posts pipe (λ k. k) 4 (pos 5) (pos 6) pipe-IsPipe refl 3 9 0 refl (omega arith)
      (omega arith)

-- A manager with a connection that is made and one that is being made.
abbrev side : ℕ → Socket
side n = record { open_fd = true; fd = n }

abbrev serving : Manager
serving = record (free 2) {
  peers = connect (side 7) (side 8) true none ∷ [];
  connecting = connect (side 12) (side 9) true none ∷ [];
}

watched_complete_example :
    Covers (watched ends serving)
    × All (λ p. Asks p (watched ends serving)) serving.peers
    × All (λ p. AsksConnecting p (watched ends serving)) serving.connecting
    × (ltb_ℤ (pos 0) ends.read_end ≡ true → Has ends.read_end (watched ends serving).readable)
watched_complete_example = watched_complete ends serving
