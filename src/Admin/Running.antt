-- ===== src/Admin/Running.antt =====
-- The administration's loop from turn to turn, until it is stopped (`execute` of
-- src/AdminHTTPServer.cpp), beside the list of servers.
use relb.Prelude.{
  ℕ, ◌≡◌, refl, ◌∙◌, true, false, ◌||◌, Option, none, some, Option-cases, inl, inr, List, [], ◌∷◌,
  get_elem?, if_cases, ◌==◌,
}
use relb.Prelude.Int.{ℤ}
use relb.Address.{IpAddress}
use relb.Status.{
  event_of, connecting_server, connection_lost, disconnected_ok, connection_failed,
  connection_established, peer_connection_deleted,
}
use relb.ServerList.State.{ServerInfo, PeerInfo, ServerList}
use relb.ServerList.Messages.{find_peer, server_at, other_connected, establish}
use relb.Admin.State.{AdminServer, stop_http_admin}
use relb.Admin.Messages.{
  add_peer, end_peer, change_server, count_connecting, account_peer, follow, handle_message,
}
use relb.Admin.Mirror.{Mirrors}
use relb.Admin.Passed.{process_message-posts}
use relb.Admin.Serve.{Message, Turn, AdminThread, take_messages, turn, execute}
use relb.Admin.Turns.{
  Report, message_of, messages_of, process, process_all, AllPlaced, AllCanServe, turn-Mirrors,
}

abbrev Steady : AdminServer → AdminServer → Type 0
Steady a b = b.finish ≡ a.finish

end_peer-Steady : (id now i : ℕ) (p : PeerInfo) (a : AdminServer) → Steady a (end_peer id now i p a)
unfolding end_peer
end_peer-Steady id now i p a = elim (Option-cases (server_at p.dst_ip p.dst_port 0 a.servers)) [
  | inl e ↦ simp (end_peer, e) refl
  | inr (j, e) ↦
      simp (end_peer, e)
        (if_cases (Steady a) (id == peer_connection_deleted || other_connected p.src_ip i 0 a.peers)
          refl refl)
]

change_server-Steady :
    (f : ServerInfo → ServerInfo) (p : PeerInfo) (a : AdminServer) → Steady a (change_server f p a)
unfolding change_server
change_server-Steady f p a = elim (Option-cases (server_at p.dst_ip p.dst_port 0 a.servers)) [
  | inl e ↦ simp (change_server, e) refl
  | inr (j, e) ↦ simp (change_server, e) refl
]

account_peer-Steady :
    (id now i : ℕ) (p : PeerInfo) (a : AdminServer) → Steady a (account_peer id now i p a)
unfolding account_peer
account_peer-Steady id now i p a =
    if_cases (Steady a)
      (event_of id == connection_lost
        || (event_of id == disconnected_ok
            || (event_of id == connection_failed || event_of id == peer_connection_deleted)))
      {x = end_peer id now i p a} {y = _} (end_peer-Steady id now i p a)
      (if_cases (Steady a) (event_of id == connection_established)
        {x = change_server (establish now) p a} {y = _} (change_server-Steady (establish now) p a)
        (if_cases (Steady a) (event_of id == connecting_server)
          {x = change_server count_connecting p a} {y = a}
          (change_server-Steady count_connecting p a) refl))

follow-Steady : (id n now : ℕ) (o : Option ℕ) (a : AdminServer) → Steady a (follow id n now o a)
unfolding follow
follow-Steady id n now none a = refl
follow-Steady id n now (some i) a = elim (Option-cases (get_elem? a.peers i)) [
  | inl e ↦ simp (follow, e) refl
  | inr (p, e) ↦ simp (follow, e) (account_peer-Steady id now i p _)
]

handle_message-Steady :
    (id : ℕ) (p : PeerInfo) (index n now : ℕ) (a : AdminServer)
    → Steady a (handle_message id p index n now a)
unfolding handle_message add_peer
handle_message-Steady id p index n now a =
    if_cases (Steady a) (id == connecting_server) {x = account_peer id now index p (add_peer p a)}
      {y = _} (account_peer-Steady id now index p (add_peer p a))
      (follow-Steady id n now (find_peer p.address 0 a.peers) a)

take_messages-Steady :
    (ms : List Message) (t : AdminThread) → Steady t.server (take_messages ms t).server
unfolding take_messages
take_messages-Steady [] t = refl
take_messages-Steady (m ∷ ms) t =
    take_messages-Steady ms _ ∙ handle_message-Steady m.id m.peer t.index m.noted m.now t.server

-- What a turn gets: the reports that the list of servers has handled since the last one, and a client.
pub record Shift : Type 0 where
  pub reports : List Report
  pub client : Option (List (List ℕ))

abbrev pub turn_of : Shift → Turn
turn_of x = record { stopped = false; messages = messages_of x.reports; client = x.client }

-- Turns before others.
abbrev pub turns_of : List Shift → List Turn → List Turn
turns_of [] last = last
turns_of (x ∷ xs) last = turn_of x ∷ turns_of xs last

abbrev pub process_shifts : List Shift → ServerList → ServerList
process_shifts [] sl = sl
process_shifts (x ∷ xs) sl = process_shifts xs (process_all x.reports sl)

process_all-parallel :
    (rs : List Report) (sl : ServerList) (t : AdminThread)
    → sl.parallel_list ≡ true
    → AllPlaced rs sl t
    → (process_all rs sl).parallel_list ≡ true
process_all-parallel [] sl t l v = l
process_all-parallel (r ∷ rs) sl t l (v, w) =
    let (a, b) =
      process_message-posts r.id r.session.address r.noted r.now r.place r.copy.address r.session sl
        v.report v.known v.session v.twin l in
    process_all-parallel rs (process r sl) (take_messages (message_of r ∷ []) t) b w

module _ (byte : ℤ → ℕ) (ip_none : IpAddress) where
  -- Each turn, when it comes: its reports can be placed, and its client served.
  abbrev pub AllReady : List Shift → ServerList → AdminThread → Type 0
  AllReady [] sl t = Unit
  AllReady (x ∷ xs) sl t =
      AllPlaced x.reports sl t
      × AllCanServe x.client
      × ((u : AdminThread)
          → turn byte ip_none (turn_of x) t ≡ some u
          → AllReady xs (process_all x.reports sl) u)

  -- The administration's loop from the start, beside the list of servers, over any number of turns.
  -- If the loop is not stopped until a last turn, the two lists have the same connections and
  -- counters at first, and each turn, when it comes, handles reports that the list of servers has
  -- handled and that both can place, as in one turn, and a client that sends no kick or ban without
  -- a port: then the loop ends at the test of the last turn, whatever waits then and later, without
  -- a fault, and the two lists have the same connections at the same places and the same counters.
  pub execute-Mirrors :
      (xs : List Shift) (last : Turn) (later : List Turn) (sl : ServerList) (t : AdminThread)
      → last.stopped ≡ true
      → t.server.finish ≡ false
      → Mirrors sl t.server
      → sl.parallel_list ≡ true
      → AllReady xs sl t
      → (u : AdminThread) × (execute byte ip_none (turns_of xs (last ∷ later)) t ≡ some u)
        × (u.server.finish ≡ true)
        × Mirrors (process_shifts xs sl) u.server
  unfolding execute stop_http_admin
  execute-Mirrors [] last later sl t e n m l v = (
    record t { server = stop_http_admin t.server },
    simp (execute, e) refl,
    refl,
    record { peers = m.peers; servers = m.servers },
  )
  execute-Mirrors (x ∷ xs) last later sl t e n m l (v, c, w) =
      let (a, u, f, k, r) = turn-Mirrors byte ip_none x.reports x.client false sl t m l v c in
      let (z, g, h, i) =
        execute-Mirrors xs last later (process_all x.reports sl) u e
          (r.finish ∙ take_messages-Steady (messages_of x.reports) t ∙ n) k
          (process_all-parallel x.reports sl t l v) (w u f) in
      (z, simp (execute, n, f) g, h, i)
