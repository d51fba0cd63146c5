-- ===== src/Admin/Turns.antt =====
-- A turn of the administration's loop, beside the list of servers (`execute` of
-- src/AdminHTTPServer.cpp, `processMessage` of src/ServerList.cpp).
use mathlib.Core.Path.{subst}
use relb.Prelude.{
  All, Zip, ℕ, ◌≡◌, refl, sym, ap, ◌∙◌, append-nil, append_assoc, Bool, true, false, Option, none,
  some, List, [], ◌∷◌, ◌++◌, Bool-cases, inl, inr, get_elem?, ltb, codes, starts, drop,
}
use relb.Prelude.Int.{ℤ}
use relb.Address.{IpAddress}
use relb.ServerList.State.{PeerInfo, ServerList}
use relb.ServerList.Messages.{find_peer, process_message}
use relb.Admin.State.{AdminServer}
use relb.Admin.Mirror.{Mirrors, IsTwin, IsAlike}
use relb.Admin.Following.{is_report, process_message-Mirrors}
use relb.Admin.Request.{split}
use relb.Admin.Unnamed.{is_complete}
use relb.Admin.Serve.{
  Visit, Message, AdminThread, take_messages, serve_line, serve_lines, serve_client, turn,
}
use relb.Status.{to_byte}
use relb.Admin.Passed.{process_message-posts}
use relb.Admin.Answers.{serve_line_once}
use relb.Admin.Unchanged.{Reads, keep-Reads, Each, serve_lines-Reads}

-- A report about a connection, as both handle it: its two objects, their place in the two lists, and
-- the times at which each handles it.
pub record Report : Type 0 where
  pub id : ℕ
  pub place : ℕ
  pub session : PeerInfo
  pub copy : PeerInfo
  pub noted : ℕ
  pub now : ℕ
  pub copy_noted : ℕ
  pub copy_now : ℕ

abbrev pub message_of : Report → Message
message_of r = record { id = r.id; peer = r.copy; noted = r.copy_noted; now = r.copy_now }

abbrev pub messages_of : List Report → List Message
messages_of [] = []
messages_of (r ∷ rs) = message_of r ∷ messages_of rs

abbrev pub process : Report → ServerList → ServerList
process r sl = process_message r.id r.session.address r.noted r.now sl

abbrev pub process_all : List Report → ServerList → ServerList
process_all [] sl = sl
process_all (r ∷ rs) sl = process_all rs (process r sl)

-- A report that both can place: the connection stands at the same place in both lists, and is not older
-- than the last purge. The two objects know one another, and the code fits the status.
pub record Placed (r : Report) (sl : ServerList) (a : AdminServer) : Type 0 where
  pub report : is_report r.id ≡ true
  pub known : find_peer r.session.address 0 sl.peers ≡ some r.place
  pub session : get_elem? sl.peers r.place ≡ some r.session
  pub copied : find_peer r.copy.address 0 a.peers ≡ some r.place
  pub fresh : ltb r.session.created sl.last_connections_cleanup ≡ false
  pub twin : r.session.parallel ≡ some r.copy.address
  pub byte : to_byte r.id ≡ r.id

-- Each report, when its turn comes.
abbrev pub AllPlaced : List Report → ServerList → AdminThread → Type 0
AllPlaced [] sl t = Unit
AllPlaced (r ∷ rs) sl t =
    Placed r sl t.server × AllPlaced rs (process r sl) (take_messages (message_of r ∷ []) t)

take_messages-Mirrors :
    (rs : List Report) (sl : ServerList) (t : AdminThread)
    → Mirrors sl t.server
    → AllPlaced rs sl t
    → Mirrors (process_all rs sl) (take_messages (messages_of rs) t).server
unfolding take_messages
take_messages-Mirrors [] sl t m v = m
take_messages-Mirrors (r ∷ rs) sl t m (v, w) =
    take_messages-Mirrors rs (process r sl) (take_messages (message_of r ∷ []) t)
      (process_message-Mirrors sl t.server r.session r.copy r.id t.index r.noted r.now r.copy_noted
        r.copy_now r.place m v.report v.known v.session v.copied v.fresh)
      w

-- The reports as the list of servers posts them: the code, and the address of the copy.
abbrev pub posts_of : List Message → List (ℕ × ℕ)
posts_of [] = []
posts_of (m ∷ ms) = (m.id, m.peer.address) ∷ posts_of ms

process_all-posts :
    (rs : List Report) (sl : ServerList) (t : AdminThread)
    → sl.parallel_list ≡ true
    → AllPlaced rs sl t
    → (process_all rs sl).admin_posts ≡ sl.admin_posts ++ posts_of (messages_of rs)
process_all-posts [] sl t l v = sym (append-nil sl.admin_posts)
process_all-posts (r ∷ rs) sl t l (v, w) =
    let (a, b) =
      process_message-posts r.id r.session.address r.noted r.now r.place r.copy.address r.session sl
        v.report v.known v.session v.twin l in
    let rest = posts_of (messages_of rs) in
    process_all-posts rs (process r sl) _ b w
    ∙ ap (λ ps. ps ++ rest) a
    ∙ append_assoc sl.admin_posts ((to_byte r.id, r.copy.address) ∷ []) rest
    ∙ ap (λ n. sl.admin_posts ++ (n, r.copy.address) ∷ rest) v.byte

Reads-Mirrors : (sl : ServerList) (a b : AdminServer) → Reads a b → Mirrors sl a → Mirrors sl b
Reads-Mirrors sl a b v m = record {
  peers = subst (Zip IsTwin sl.peers) (sym v.peers) m.peers;
  servers = subst (Zip IsAlike sl.servers) (sym v.servers) m.servers;
}

-- A line that can be carried out.
abbrev pub CanServe : List ℕ → Type 0
CanServe line = starts (codes "GET ") line ≡ true → is_complete (split (drop 5 line)) ≡ true

abbrev pub AllCanServe : Option (List (List ℕ)) → Type 0
AllCanServe none = Unit
AllCanServe (some lines) = All CanServe lines

module _ (byte : ℤ → ℕ) (ip_none : IpAddress) where
  serve_line_done :
      (line : List ℕ) (v : Visit)
      → CanServe line
      → (w : Visit) × (serve_line byte ip_none line v ≡ some w)
  unfolding serve_line
  serve_line_done line v c = elim (Bool-cases (starts (codes "GET ") line)) [
    | inl e ↦ let (w, f, g, i) = serve_line_once byte ip_none line v e (c e) in (w, f)
    | inr e ↦ rw (serve_line, e) (v, refl)
  ]

  serve_lines_done :
      (lines : List (List ℕ)) (v : Visit)
      → All CanServe lines
      → (w : Visit) × (serve_lines byte ip_none lines v ≡ some w)
  unfolding serve_lines
  serve_lines_done [] v c = (v, refl)
  serve_lines_done ([] ∷ ls) v c = (v, refl)
  serve_lines_done ((x ∷ xs) ∷ ls) v (c, d) =
      let (w, e) = serve_line_done (x ∷ xs) v c in
      let (u, f) = serve_lines_done ls w d in (u, rw e f)

  serve_client_done :
      (client : Option (List (List ℕ))) (t : AdminThread)
      → AllCanServe client
      → (u : AdminThread) × (serve_client byte ip_none client t ≡ some u) × Reads t.server u.server
  unfolding serve_client
  serve_client_done none t c = (t, refl, keep-Reads t.server)
  serve_client_done (some lines) t c =
      let v : Visit = record { server = t.server; redirects = true; answers = [] } in
      let (w, e) = serve_lines_done lines v c in
      (
        record t { server = w.server; answers = t.answers ++ w.answers ∷ [] },
        rw e refl,
        subst (Each (λ (w : Visit). Reads t.server w.server)) e
            (serve_lines-Reads byte ip_none lines v),
      )

  -- A turn of the administration's loop, beside the list of servers. If the two lists have the same
  -- connections at the same places and the same counters, the list of servers handles reports about
  -- connections, each of a connection with a twin, no older than the last purge and found at the
  -- same place in both lists when its turn comes, the turn handles the same reports, and the
  -- client, if one comes, sends no kick or ban without a port: then the list of servers posts
  -- exactly the messages that the turn handles; the turn ends without a fault; afterwards the lists
  -- have the same connections and counters again; and the client has changed neither the
  -- connections nor the servers of the administration, and posted messages about twins of its
  -- connections only.
  pub turn-Mirrors :
      (rs : List Report) (client : Option (List (List ℕ))) (stopped : Bool) (sl : ServerList)
      (t : AdminThread)
      → Mirrors sl t.server
      → sl.parallel_list ≡ true
      → AllPlaced rs sl t
      → AllCanServe client
      → ((process_all rs sl).admin_posts ≡ sl.admin_posts ++ posts_of (messages_of rs))
        × (u : AdminThread) × (turn byte ip_none
              (record { stopped = stopped; messages = messages_of rs; client = client })
              t
            ≡ some u)
        × Mirrors (process_all rs sl) u.server
        × Reads (take_messages (messages_of rs) t).server u.server
  unfolding turn
  turn-Mirrors rs client stopped sl t m l v c =
      let told = take_messages (messages_of rs) t in
      let (u, e, r) = serve_client_done client told c in
      (
        process_all-posts rs sl t l v,
        u,
        e,
        Reads-Mirrors (process_all rs sl) told.server u.server r
            (take_messages-Mirrors rs sl t m v),
        r,
      )
