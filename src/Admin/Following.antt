-- ===== src/Admin/Following.antt =====
-- The administration follows the list of servers: a report about a connection, once both have handled
-- it, leaves their counters the same (src/AdminHTTPServer.cpp, src/ServerList.cpp).
use relb.Prelude.{
  ℕ, ◌≡◌, refl, sym, Bool, true, false, ◌||◌, Option, none, some, Option-cases, Bool-cases, inl,
  inr, get_elem?, update_at, ◌==◌, ltb, arith, if_cases, Zip-update_at, Zip-delete_at,
  Zip-get_elem?,
}
use relb.Status.{
  connecting_server, connection_established, disconnected_ok, connection_lost, connection_failed,
  peer_connection_deleted, peer_connection_cancelled, peer_connection_kicked, event_of, to_byte,
}
use relb.ServerList.State.{ServerInfo, PeerInfo, ServerList, post_parallel}
use relb.ServerList.Messages.{
  find_peer, server_at, other_connected, note_failure, leave, establish, end_connection,
  establish_connection, account, record_status, process_message,
}
use relb.Admin.State.{AdminServer}
use relb.Admin.Messages.{end_peer, change_server, account_peer, follow, handle_message}
use relb.Admin.Mirror.{
  IsTwin, IsAlike, Mirrors, server_at-Zip, other_connected-Zip, note_failure-IsAlike, leave-IsAlike,
  keep_count-IsAlike, establish-IsAlike,
}

-- The event of a connection that was made or is over.
abbrev pub is_report : ℕ → Bool
is_report id =
    event_of id == connection_established
    || (event_of id == connection_lost
        || (event_of id == disconnected_ok || event_of id == connection_failed))

abbrev is_over : ℕ → Bool
is_over id =
    event_of id == connection_lost
    || (event_of id == disconnected_ok || event_of id == connection_failed)

admin_over :
    (id : ℕ)
    → (event_of id == connection_lost
        || (event_of id == disconnected_ok
            || (event_of id == connection_failed || event_of id == peer_connection_deleted)))
      ≡ (is_over id || event_of id == peer_connection_deleted)
admin_over id = ground arith

module _ (sl : ServerList) (a : AdminServer) (m : Mirrors sl a) (p q : PeerInfo) (t : IsTwin p q)
    (id now now' i : ℕ) where
  same_server :
      server_at q.dst_ip q.dst_port 0 a.servers ≡ server_at p.dst_ip p.dst_port 0 sl.servers
  same_server =
      rw (← t.dst, ← t.dst_port)
        (sym (server_at-Zip p.dst_ip p.dst_port 0 sl.servers a.servers m.servers))

  same_others : other_connected q.src_ip i 0 a.peers ≡ other_connected p.src_ip i 0 sl.peers
  same_others = rw (← t.src) (sym (other_connected-Zip p.src_ip i 0 sl.peers a.peers m.peers))

  establish-Mirrors : Mirrors (establish_connection now p sl) (change_server (establish now') q a)
  unfolding establish_connection change_server
  establish-Mirrors = elim (Option-cases (server_at p.dst_ip p.dst_port 0 sl.servers)) [
    | inl e ↦ rw (establish_connection, change_server, same_server, e) m
    | inr (j, e) ↦
        rw (establish_connection, change_server, same_server, e)
          (record {
            peers = m.peers;
            servers =
                Zip-update_at IsAlike (establish now) (establish now') (establish-IsAlike now now')
                  j sl.servers a.servers m.servers;
          })
  ]

  leave_both :
      (s s' : ServerInfo)
      → IsAlike s s'
      → IsAlike (leave id (note_failure id now s)) (leave id (note_failure id now' s'))
  leave_both s s' v = leave-IsAlike id _ _ (note_failure-IsAlike id now now' s s' v)

  end-Mirrors :
      id == peer_connection_deleted ≡ false
      → ltb p.created sl.last_connections_cleanup ≡ false
      → Mirrors (end_connection id now i p sl) (end_peer id now' i q a)
  unfolding end_connection end_peer
  end-Mirrors d c = elim (Option-cases (server_at p.dst_ip p.dst_port 0 sl.servers)) [
    | inl e ↦ rw (end_connection, end_peer, same_server, e) m
    | inr (j, e) ↦ elim (Bool-cases (other_connected p.src_ip i 0 sl.peers)) [
      | inl o ↦
          rw (end_connection, end_peer, same_server, e, d, c, same_others, o)
            (record {
              peers = Zip-delete_at IsTwin i sl.peers a.peers m.peers;
              servers = Zip-update_at IsAlike _ _ leave_both j sl.servers a.servers m.servers;
            })
      | inr o ↦
          rw (end_connection, end_peer, same_server, e, d, c, same_others, o)
            (record {
              peers = m.peers;
              servers =
                  Zip-update_at IsAlike _ _
                    (λ s s' v. keep_count-IsAlike id _ _ (leave_both s s' v)) j sl.servers a.servers
                    m.servers;
            })
    ]
  ]

  account-Mirrors :
      is_report id ≡ true
      → ltb p.created sl.last_connections_cleanup ≡ false
      → Mirrors (account id now i p sl) (account_peer id now' i q a)
  unfolding account account_peer
  account-Mirrors r c =
      let d : id == peer_connection_deleted ≡ false = ground (arith, r) in
      elim (Bool-cases (is_over id)) [
        | inl e ↦
            let also : is_over id || event_of id == peer_connection_deleted ≡ true =
              ground (arith, e) in
            rw (e, admin_over id, also) (end-Mirrors d c)
        | inr e ↦
            let made : event_of id == connection_established ≡ true = ground (arith, e, r) in
            let not_over : is_over id || event_of id == peer_connection_deleted ≡ false =
              ground (arith, e, made) in
            rw (e, admin_over id, not_over, made) establish-Mirrors
      ]

-- What is recorded first.
module _ (id now i : ℕ) (p : PeerInfo) (sl : ServerList) (r : is_report id ≡ true) where
  abbrev pub noted : ServerList
  noted = record sl {
    peers = update_at (λ q. record q { status = to_byte id; modified = now }) i sl.peers;
  }

  pub record_status-posts :
      record_status id now i p sl ≡ post_parallel (to_byte id) p.parallel noted
  unfolding record_status
  record_status-posts =
      let c : id == peer_connection_cancelled ≡ false = ground (arith, r) in
      let k : id == peer_connection_kicked ≡ false = ground (arith, r) in rw (c, k) refl

posts-Mirrors :
    (status : ℕ) (twin : Option ℕ) (sl : ServerList) (a : AdminServer)
    → Mirrors sl a
    → Mirrors (post_parallel status twin sl) a
unfolding post_parallel
posts-Mirrors status none sl a m = m
posts-Mirrors status (some twin) sl a m =
    if_cases (λ s. Mirrors s a) sl.parallel_list (record { peers = m.peers; servers = m.servers }) m

posts-cleanup :
    (status : ℕ) (twin : Option ℕ) (sl : ServerList)
    → (post_parallel status twin sl).last_connections_cleanup ≡ sl.last_connections_cleanup
unfolding post_parallel
posts-cleanup status none sl = refl
posts-cleanup status (some twin) sl =
    if_cases (λ (s : ServerList). s.last_connections_cleanup ≡ sl.last_connections_cleanup)
      sl.parallel_list refl refl

-- When the two lists have the same connections at the same places and the same counters, a report about
-- a connection (it was made, lost, refused or is finished) that both have handled, each at its own
-- times, leaves them so, if both find the connection at the same place and it is not older than the
-- last purge.
pub process_message-Mirrors :
    (sl : ServerList) (a : AdminServer) (p q : PeerInfo) (id index noted now noted' now' i : ℕ)
    → Mirrors sl a
    → is_report id ≡ true
    → find_peer p.address 0 sl.peers ≡ some i
    → get_elem? sl.peers i ≡ some p
    → find_peer q.address 0 a.peers ≡ some i
    → ltb p.created sl.last_connections_cleanup ≡ false
    → Mirrors (process_message id p.address noted now sl) (handle_message id q index noted' now' a)
unfolding process_message handle_message follow
process_message-Mirrors sl a p q id index n now n' now' i m r f g h c =
    let new : id == connecting_server ≡ false = ground (arith, r) in
    let (x, at, t) = Zip-get_elem? IsTwin i sl.peers a.peers p m.peers g in
    let told : AdminServer = record a {
      peers = update_at (λ q. record q { status = to_byte id; modified = n' }) i a.peers;
    } in
    let both_noted : Mirrors (noted id n i p sl r) told = record {
      peers =
          Zip-update_at IsTwin _ _
            (λ y z w. record { src = w.src; dst = w.dst; dst_port = w.dst_port; status = refl }) i
            sl.peers a.peers m.peers;
      servers = m.servers;
    } in
    rw
      (process_message, handle_message, follow, f, g, new, h, at, record_status-posts id n i p sl r)
      (account-Mirrors (post_parallel (to_byte id) p.parallel (noted id n i p sl r)) told
        (posts-Mirrors (to_byte id) p.parallel (noted id n i p sl r) told both_noted) p x t id now
        now' i r (rw (posts-cleanup (to_byte id) p.parallel (noted id n i p sl r)) c))
