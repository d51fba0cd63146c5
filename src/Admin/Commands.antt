-- ===== src/Admin/Commands.antt =====
-- What the pages kick and ban (src/AdminHTTPServer.cpp) come to, with the list of servers
-- (src/ServerList.cpp).
use relb.Prelude.{
  All, ℕ, zero, suc, ◌-◌, ◌≡◌, refl, ap, sym, ◌∙◌, append-nil, true, false, none, some, Bool-cases,
  inl, inr, ◌==◌, ==_iff, List, [], ◌∷◌, ◌++◌, get_elem?, update_at, delete_at,
}
use relb.Address.{IpAddress, same_ip, same_ip_iff, same_ip_refl}
use relb.Status.{peer_connection_kicked, peer_connection_deleted}
use relb.ServerList.State.{PeerInfo, ServerList, post_parallel, request_close}
use relb.ServerList.Messages.{find_peer, server_at, record_status, account, process_message}
use relb.Admin.State.{AdminServer, twin_of, command, kick, ban}
use relb.Admin.Messages.{end_peer, account_peer, follow, handle_message}

delete_at-update_at :
    {A : Type 0} (f : A → A) (i : ℕ) (xs : List A) → delete_at i (update_at f i xs) ≡ delete_at i xs
delete_at-update_at f i [] = refl
delete_at-update_at f zero (x ∷ xs) = refl
delete_at-update_at f (suc i) (x ∷ xs) = ap (◌∷◌ x) (delete_at-update_at f i xs)

-- A connection that a command for this address and port passes over: it has another source, or no twin.
abbrev pub PassedOver : IpAddress → ℕ → PeerInfo → Type 0
PassedOver ip port p = p.src_ip ≡ ip → p.src_port ≡ port → p.parallel ≡ none

passed :
    (ip : IpAddress) (port : ℕ) (p : PeerInfo) (ps : List PeerInfo)
    → PassedOver ip port p
    → twin_of ip port (p ∷ ps) ≡ twin_of ip port ps
unfolding twin_of
passed ip port p ps v = elim (Bool-cases (same_ip p.src_ip ip)) [
  | inl s ↦ elim (Bool-cases (p.src_port == port)) [
    | inl e ↦ rw (s, e, v (same_ip_iff p.src_ip ip s) ((==_iff p.src_port port).0 e)) refl
    | inr e ↦ rw (s, e) refl
  ]
  | inr s ↦ rw s refl
]

twin_of-append :
    (ip : IpAddress) (port : ℕ) (before ps : List PeerInfo)
    → All (PassedOver ip port) before
    → twin_of ip port (before ++ ps) ≡ twin_of ip port ps
twin_of-append ip port [] ps v = refl
twin_of-append ip port (p ∷ before) ps (v, w) =
    passed ip port p (before ++ ps) v ∙ twin_of-append ip port before ps w

twin_of-first :
    (ip : IpAddress) (port twin : ℕ) (q : PeerInfo) (ps : List PeerInfo)
    → q.src_ip ≡ ip
    → q.src_port ≡ port
    → q.parallel ≡ some twin
    → twin_of ip port (q ∷ ps) ≡ some twin
unfolding twin_of
twin_of-first ip port twin q ps s e t =
    rw (s, e, t, same_ip_refl ip, (==_iff port port).1 refl) refl

-- A kick reaches the thread that serves the client. If a connection of the administration's list
-- has the given source address and port and a twin, and none before it has both, then the list of
-- servers is told to kick that twin, and, when it handles this, asks the twin's manager to close it
-- and changes nothing else. For a source that no connection with a twin has, nothing is posted and
-- nothing changes.
pub kick-closes :
    (a : AdminServer) (sl : ServerList) (ip : IpAddress) (port : ℕ) (before after : List PeerInfo)
    (q p : PeerInfo) (i manager noted now : ℕ) (other : IpAddress) (there : ℕ)
    → a.parallel_list ≡ true
    → a.peers ≡ before ++ q ∷ after
    → All (PassedOver ip port) before
    → q.src_ip ≡ ip
    → q.src_port ≡ port
    → q.parallel ≡ some p.address
    → find_peer p.address 0 sl.peers ≡ some i
    → get_elem? sl.peers i ≡ some p
    → p.manager ≡ some manager
    → All (PassedOver other there) a.peers
    → (kick ip port a
        ≡ (record a { posted = a.posted ++ (peer_connection_kicked, p.address) ∷ [] }, true))
      × (process_message peer_connection_kicked p.address noted now sl
          ≡ record sl { close_requests = sl.close_requests ++ (manager, some p.address) ∷ [] })
      × (kick other there a ≡ (a, false))
unfolding kick command process_message record_status account request_close
kick-closes a sl ip port before after q p i manager noted now other there h s v x y z f g m w =
    let found : twin_of ip port a.peers ≡ some p.address =
      ap (twin_of ip port) s
      ∙ twin_of-append ip port before (q ∷ after) v
      ∙ twin_of-first ip port p.address q after x y z in
    let none_found : twin_of other there a.peers ≡ none =
      ap (twin_of other there) (sym (append-nil a.peers))
      ∙ twin_of-append other there a.peers [] w in
    (rw (h, found) refl, rw (process_message, f, g, m) refl, rw (h, none_found) refl)

-- A ban of one connection has the code of a deletion. The list of servers keeps the connection, without
-- a request to close it, and passes the message back to the administration, which deletes the
-- connection from its own list and counts one connection less on its server.
pub ban-forgets :
    (a : AdminServer) (sl : ServerList) (ip : IpAddress) (port : ℕ) (p q : PeerInfo)
    (i j s index noted now noted' now' : ℕ)
    → a.parallel_list ≡ true
    → twin_of ip port a.peers ≡ some p.address
    → find_peer p.address 0 sl.peers ≡ some i
    → get_elem? sl.peers i ≡ some p
    → sl.parallel_list ≡ true
    → p.parallel ≡ some q.address
    → find_peer q.address 0 a.peers ≡ some j
    → get_elem? a.peers j ≡ some q
    → server_at q.dst_ip q.dst_port 0 a.servers ≡ some s
    → ((ban ip port a).0.posted ≡ a.posted ++ (peer_connection_deleted, p.address) ∷ [])
      × (process_message peer_connection_deleted p.address noted now sl ≡ record sl {
        peers =
            update_at
              (λ r. record r { status = peer_connection_deleted; modified = noted })
              i
              sl.peers;
        admin_posts = sl.admin_posts ++ (peer_connection_deleted, q.address) ∷ [];
      })
      × (handle_message peer_connection_deleted q index noted' now' a ≡ record a {
        peers = delete_at j a.peers;
        servers = update_at (λ r. record r { connected = r.connected - 1 }) s a.servers;
      })
unfolding ban command process_message record_status account post_parallel handle_message follow
    account_peer end_peer
ban-forgets a sl ip port p q i j s index noted now noted' now' h t f g l r u v w = (
  rw (h, t) refl,
  rw (process_message, f, g, r, l) refl,
  rw (u, follow, v, account_peer, end_peer, w)
      (ap
        (λ ps. record a {
          peers = ps;
          servers = update_at (λ r. record r { connected = r.connected - 1 }) s a.servers;
        })
        (delete_at-update_at _ j a.peers)),
)
