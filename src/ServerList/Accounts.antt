-- ===== src/ServerList/Accounts.antt =====
-- The counters of the servers against the list of connections (src/ServerList.cpp).
use relb.Prelude.{
  ℕ, zero, suc, ◌+◌, ◌<◌, ◌≡◌, refl, none, some, List, [], ◌∷◌, ◌++◌, length, length-append,
  length-update_at, get_elem?, update_at, delete_at, if◌then◌else◌, arith,
}
use relb.Address.{IpAddress}
use relb.Status.{has, connection_failed}
use relb.ServerList.State.{
  ServerInfo, PeerInfo, ServerList, set_parallel, post_parallel, request_close,
}
use relb.ServerList.Sessions.{announce, start_connecting, new_peer, reuse_session}
use relb.ServerList.GetServer.{place}
use relb.ServerList.Messages.{
  server_at, end_connection, establish_connection, establish, leave, keep_count, note_failure,
  find_peer, process_message,
}

-- All connections that a server's counters stand for.
abbrev pub total : ServerInfo → ℕ
total s = s.connecting + s.connected + s.finished + s.disconnected

unfoldable pub sum_total : List ServerInfo → ℕ
sum_total [] = 0
sum_total (s ∷ ss) = total s + sum_total ss

-- Every entry of the list of connections is counted once, at one server.
abbrev pub IsBalanced : ServerList → Type 0
IsBalanced sl = sum_total sl.servers ≡ length sl.peers

sum_total-update_at :
    (f : ServerInfo → ServerInfo) (ss : List ServerInfo) (j : ℕ) (s : ServerInfo)
    → get_elem? ss j ≡ some s
    → sum_total (update_at f j ss) + total s ≡ sum_total ss + total (f s)
unfolding sum_total
sum_total-update_at f [] j s e = cc
sum_total-update_at f (x ∷ ss) zero s e = ground arith
sum_total-update_at f (x ∷ ss) (suc j) s e = omega (arith, sum_total-update_at f ss j s e)

length-delete_at :
    {A : Type 0} (xs : List A) (i : ℕ) (x : A)
    → get_elem? xs i ≡ some x
    → suc (length (delete_at i xs)) ≡ length xs
length-delete_at [] i x e = cc
length-delete_at (y ∷ xs) zero x e = refl
length-delete_at (y ∷ xs) (suc i) x e = omega (arith, length-delete_at xs i x e)

length-snoc : {A : Type 0} (xs : List A) (x : A) → length (xs ++ x ∷ []) ≡ suc (length xs)
length-snoc xs x = omega (arith, length-append xs (x ∷ []))

announce_keeps :
    (p : PeerInfo) (sl : ServerList)
    → ((announce p sl).1.peers ≡ sl.peers) × ((announce p sl).1.servers ≡ sl.servers)
unfolding announce set_parallel
announce_keeps p sl = ground arith

-- A new connection to a listed server keeps every connection counted once: if the counters of all
-- servers add up to the number of connections before, they do afterwards.
pub place-IsBalanced :
    (sl : ServerList) (client : IpAddress) (port manager now last : ℕ) (s : ServerInfo)
    → get_elem? sl.servers last ≡ some s
    → IsBalanced sl
    → IsBalanced (place sl client port manager now last s).0
unfolding place
place-IsBalanced sl client port manager now last s e b =
    let fresh = new_peer sl.next_address client port s.ip s.port manager now in
    let made = record sl {
      last_server_assigned = last;
      servers = update_at start_connecting last sl.servers;
      next_address = suc sl.next_address;
    } in
    let (a, c) = announce_keeps fresh made in
    rw (a, c)
      (omega (
        arith,
        sum_total-update_at start_connecting sl.servers last s e,
        length-snoc sl.peers (announce fresh made).0,
      ))

-- If the counters of all servers add up to the number of connections, then after a session is taken
-- up again at the same port they add up to one more: the connection that was lost stays counted.
pub reuse_session_counts :
    (sl : ServerList) (port manager now i j : ℕ) (p : PeerInfo) (s : ServerInfo)
    → get_elem? sl.servers j ≡ some s
    → IsBalanced sl
    → sum_total (reuse_session sl port manager now i p j).0.servers
      ≡ suc (length (reuse_session sl port manager now i p j).0.peers)
unfolding reuse_session request_close post_parallel
reuse_session_counts sl port manager now i j p s e b = ground (
  arith,
  sum_total-update_at start_connecting sl.servers j s e,
  length-update_at (λ _. (reuse_session sl port manager now i p j).1) i sl.peers,
)

module _ (id now i : ℕ) (p : PeerInfo) (sl : ServerList) {j : ℕ} (s : ServerInfo) where
  -- A connection that ends is taken off where it was counted, and is counted among those that are
  -- over, or is deleted.
  pub end_connection-IsBalanced :
      (q : PeerInfo)
      → get_elem? sl.peers i ≡ some q
      → server_at p.dst_ip p.dst_port 0 sl.servers ≡ some j
      → get_elem? sl.servers j ≡ some s
      → 0 < (if has id connection_failed then s.connecting else s.connected)
      → IsBalanced sl
      → IsBalanced (end_connection id now i p sl)
  unfolding end_connection
  end_connection-IsBalanced q known at here counted b = ground (
    arith,
    at,
    length-delete_at sl.peers i q known,
    sum_total-update_at (λ t. leave id (note_failure id now t)) sl.servers j s here,
    sum_total-update_at (λ t. keep_count id (leave id (note_failure id now t))) sl.servers j s here,
  )

  -- A connection that is made moves from the count of those being made to that of those made.
  pub establish_connection-IsBalanced :
      server_at p.dst_ip p.dst_port 0 sl.servers ≡ some j
      → get_elem? sl.servers j ≡ some s
      → 0 < s.connecting
      → IsBalanced sl
      → IsBalanced (establish_connection now p sl)
  unfolding establish_connection
  establish_connection-IsBalanced at here counted b =
      ground (arith, at, sum_total-update_at (establish now) sl.servers j s here)

-- A message about a connection that is no longer in the list changes nothing.
pub process_message_unknown :
    (id address noted now : ℕ) (sl : ServerList)
    → find_peer address 0 sl.peers ≡ none
    → process_message id address noted now sl ≡ sl
unfolding process_message
process_message_unknown id address noted now sl e = ground (arith, e)
