-- ===== src/ServerList/Balance.antt =====
-- A whole message keeps the counters of the servers in step with the list of connections
-- (`processMessage` of src/ServerList.cpp).
use relb.Prelude.{
  get_elem?-update_at, ℕ, ◌<◌, ◌≡◌, refl, ◌||◌, some, length, length-update_at, get_elem?,
  update_at, ◌==◌, if◌then◌else◌, if_cases, arith,
}
use relb.Status.{has, connection_failed, connection_established, event_of, to_byte}
use relb.ServerList.State.{ServerInfo, PeerInfo, ServerList, post_parallel, request_close}
use relb.ServerList.Messages.{server_at, find_peer, record_status, account, process_message}
use relb.ServerList.Accounts.{
  IsBalanced, end_connection-IsBalanced, establish_connection-IsBalanced,
}

-- What the first part of a message leaves as it was.
record IsNoted (i : ℕ) (sl t : ServerList) : Type 0 where
  servers_kept : t.servers ≡ sl.servers
  peers_kept : length t.peers ≡ length sl.peers
  entry : PeerInfo
  at_index : get_elem? t.peers i ≡ some entry

record_status-IsNoted :
    (id now i : ℕ) (p : PeerInfo) (sl : ServerList)
    → get_elem? sl.peers i ≡ some p
    → IsNoted i sl (record_status id now i p sl)
unfolding record_status
record_status-IsNoted id now i p sl e =
    if_cases (IsNoted i sl) (id == 65) same (if_cases (IsNoted i sl) (id == 64) kicked noted)
  where
    same : IsNoted i sl sl
    same = record { servers_kept = refl; peers_kept = refl; entry = p; at_index = e }

    kicked : IsNoted i sl (request_close p.manager (some p.address) sl)
    kicked =
        unfold request_close in
        record {
          servers_kept = ground arith;
          peers_kept = ground arith;
          entry = p;
          at_index = ground arith;
        }

    noted : IsNoted i sl (
        post_parallel (to_byte id) p.parallel (record sl {
          peers = update_at (λ q. record q { status = to_byte id; modified = now }) i sl.peers;
        }))
    noted =
        unfold post_parallel in
        record {
          servers_kept = ground arith;
          peers_kept = ground (
            arith,
            length-update_at (λ q. record q { status = to_byte id; modified = now }) i sl.peers,
          );
          entry = record p { status = to_byte id; modified = now };
          at_index = ground (
            arith,
            get_elem?-update_at (λ q. record q { status = to_byte id; modified = now }) sl.peers i p
                e,
          );
        }

module _ (id address noted now i j : ℕ) (p : PeerInfo) (s : ServerInfo) (sl : ServerList) where
  account-IsBalanced :
      (t : ServerList) (q : PeerInfo)
      → get_elem? t.peers i ≡ some q
      → server_at p.dst_ip p.dst_port 0 t.servers ≡ some j
      → get_elem? t.servers j ≡ some s
      → 0 < (
          if has id connection_failed || event_of id == connection_established
          then s.connecting
          else s.connected)
      → IsBalanced t
      → IsBalanced (account id now i p t)
  unfolding account
  account-IsBalanced t q known at here counted b = ground (
    arith,
    end_connection-IsBalanced id now i p t s q known at here,
    establish_connection-IsBalanced id now i p t s at here,
  )

  -- A message about a connection of the list, whose server is listed and has counted it as the
  -- message supposes, keeps every connection counted once: if the counters of all servers add up to
  -- the number of connections before it, they do after it.
  pub process_message-IsBalanced :
      find_peer address 0 sl.peers ≡ some i
      → get_elem? sl.peers i ≡ some p
      → server_at p.dst_ip p.dst_port 0 sl.servers ≡ some j
      → get_elem? sl.servers j ≡ some s
      → 0 < (
          if has id connection_failed || event_of id == connection_established
          then s.connecting
          else s.connected)
      → IsBalanced sl
      → IsBalanced (process_message id address noted now sl)
  unfolding process_message
  process_message-IsBalanced named known at here counted b =
      let v = record_status-IsNoted id noted i p sl known in
      let t = record_status id noted i p sl in
      let k =
        account-IsBalanced t v.entry v.at_index (rw v.servers_kept at) (rw v.servers_kept here)
          counted (rw (v.servers_kept, v.peers_kept) b) in
      ground (arith, named, known, k)
