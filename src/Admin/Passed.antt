-- ===== src/Admin/Passed.antt =====
-- What the list of servers posts to the administration about a report (`processMessage` of
-- src/ServerList.cpp).
use relb.Prelude.{
  ℕ, ◌≡◌, refl, ◌∙◌, true, some, Option-cases, inl, inr, [], ◌∷◌, ◌++◌, get_elem?, if_cases, ◌==◌,
  ◌||◌, ltb,
}
use relb.Status.{
  event_of, connection_lost, disconnected_ok, connection_failed, connection_established, to_byte,
}
use relb.ServerList.State.{PeerInfo, ServerList, post_parallel}
use relb.ServerList.Messages.{
  find_peer, server_at, other_connected, end_connection, establish_connection, account,
  process_message,
}
use relb.Admin.Following.{is_report, noted, record_status-posts}

-- A step that posts nothing.
abbrev Silent : ServerList → ServerList → Type 0
Silent sl s = (s.admin_posts ≡ sl.admin_posts) × (s.parallel_list ≡ sl.parallel_list)

end-Silent :
    (id now i : ℕ) (p : PeerInfo) (sl : ServerList) → Silent sl (end_connection id now i p sl)
unfolding end_connection
end-Silent id now i p sl = elim (Option-cases (server_at p.dst_ip p.dst_port 0 sl.servers)) [
  | inl e ↦ rw (end_connection, e) (refl, refl)
  | inr (j, e) ↦
      rw (end_connection, e)
        (if_cases (Silent sl)
          (other_connected p.src_ip i 0 sl.peers || ltb p.created sl.last_connections_cleanup)
          (refl, refl) (refl, refl))
]

establish-Silent :
    (now : ℕ) (p : PeerInfo) (sl : ServerList) → Silent sl (establish_connection now p sl)
unfolding establish_connection
establish-Silent now p sl = elim (Option-cases (server_at p.dst_ip p.dst_port 0 sl.servers)) [
  | inl e ↦ rw (establish_connection, e) (refl, refl)
  | inr (j, e) ↦ rw (establish_connection, e) (refl, refl)
]

account-Silent : (id now i : ℕ) (p : PeerInfo) (sl : ServerList) → Silent sl (account id now i p sl)
unfolding account
account-Silent id now i p sl =
    if_cases (Silent sl)
      (event_of id == connection_lost
        || (event_of id == disconnected_ok || event_of id == connection_failed))
      {x = end_connection id now i p sl} {y = _} (end-Silent id now i p sl)
      (if_cases (Silent sl) (event_of id == connection_established)
        {x = establish_connection now p sl} {y = sl} (establish-Silent now p sl) (refl, refl))

posted_once :
    (id twin : ℕ) (sl : ServerList)
    → sl.parallel_list ≡ true
    → ((post_parallel id (some twin) sl).admin_posts ≡ sl.admin_posts ++ (id, twin) ∷ [])
      × ((post_parallel id (some twin) sl).parallel_list ≡ true)
unfolding post_parallel
posted_once id twin sl l = simp (post_parallel, l) (refl, refl)

-- A report about a connection with a twin is passed on, once.
pub process_message-posts :
    (id address n now i twin : ℕ) (p : PeerInfo) (sl : ServerList)
    → is_report id ≡ true
    → find_peer address 0 sl.peers ≡ some i
    → get_elem? sl.peers i ≡ some p
    → p.parallel ≡ some twin
    → sl.parallel_list ≡ true
    → ((process_message id address n now sl).admin_posts
        ≡ sl.admin_posts ++ (to_byte id, twin) ∷ [])
      × ((process_message id address n now sl).parallel_list ≡ true)
unfolding process_message
process_message-posts id address n now i twin p sl r f g t l =
    let before = noted id n i p sl r in
    let (a, b) = account-Silent id now i p (post_parallel (to_byte id) (some twin) before) in
    let (c, d) = posted_once (to_byte id) twin before l in
    rw (process_message, f, g, record_status-posts id n i p sl r, t) (a ∙ c, b ∙ d)
