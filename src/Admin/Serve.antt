-- ===== src/Admin/Serve.antt =====
-- The thread of the administration (`execute` of src/AdminHTTPServer.cpp): the messages, and the pages
-- that a client is answered with. PTypes' `serve` and `line` are parameters: which clients come, and
-- the lines that each sends. The text around what a page shows is not part of an answer.
use relb.Prelude.{
  ℕ, Bool, true, false, Option, none, some, List, [], ◌∷◌, ◌++◌, ◌==◌, if◌then◌else◌, codes, starts,
  same_text, drop, length, given,
}
use relb.Prelude.Int.{ℤ}
use relb.Address.{IpAddress}
use relb.Status.{connecting_server}
use relb.ServerList.State.{ServerInfo, PeerInfo}
use relb.ServerList.Messages.{find_peer}
use relb.Admin.State.{AdminServer, stop_http_admin}
use relb.Admin.Messages.{handle_message}
use relb.Admin.Listing.{Row, listing}
use relb.Admin.Request.{split, list_page}
use relb.Admin.Pages.{is_command, command_page}

-- A row of the page `servers`.
pub record ServerRow : Type 0 where
  pub ip : IpAddress
  pub port : ℕ
  pub connected : ℕ
  pub disconnected : ℕ

abbrev pub server_rows : List ServerInfo → List ServerRow
server_rows [] = []
server_rows (s ∷ ss) =
    record { ip = s.ip; port = s.port; connected = s.connected; disconnected = s.disconnected }
    ∷ server_rows ss

-- The five pages with something to show, the three commands as one, with `success`, and `redirect`.
pub data Answer : Type 0 where
  listed : List Row → Answer
  carried_out : Bool → Answer
  counted : List ServerRow → Answer
  redirected : Answer

-- One client: `redirects` is `default_redirection`, and `answers` the pages sent so far.
pub record Visit : Type 0 where
  pub server : AdminServer
  pub redirects : Bool
  pub answers : List Answer

abbrev pub answer : Answer → Visit → Visit
answer x v = record v { redirects = false; answers = v.answers ++ x ∷ [] }

abbrev pub page_of : List (List ℕ) → List ℕ
page_of [] = []
page_of (page ∷ ss) = page

unfoldable pub serve_servers : List (List ℕ) → Visit → Visit
serve_servers parts v =
    if same_text (page_of parts) (codes "servers")
    then answer (counted (server_rows v.server.servers)) v
    else v

unfoldable pub serve_redirect : Visit → Visit
serve_redirect v = if v.redirects then record v { answers = v.answers ++ redirected ∷ [] } else v

-- A message: the object that it names, the time that the connection gets and the time that the server
-- gets.
pub record Message : Type 0 where
  pub id : ℕ
  pub peer : PeerInfo
  pub noted : ℕ
  pub now : ℕ

-- One turn of the loop: whether `stopHTTPAdmin` was called before it, the messages that wait, and the
-- lines of the client that comes, if one comes in time.
pub record Turn : Type 0 where
  pub stopped : Bool
  pub messages : List Message
  pub client : Option (List (List ℕ))

-- The thread: `index` is `current_item_index`, and `answers` has the pages of each client.
pub record AdminThread : Type 0 where
  pub server : AdminServer
  pub index : ℕ
  pub answers : List (List Answer)

unfoldable pub index_after : Message → ℕ → List PeerInfo → ℕ
unfolding find_peer
index_after m index peers =
    if m.id == connecting_server
    then index
    else elim (find_peer m.peer.address 0 peers) [ none ↦ length peers | some i ↦ i ]

unfoldable pub take_messages : List Message → AdminThread → AdminThread
unfolding index_after handle_message
take_messages [] t = t
take_messages (m ∷ ms) t = take_messages ms (record t {
  server = handle_message m.id m.peer t.index m.noted m.now t.server;
  index = index_after m t.index t.server.peers;
})

module _ (byte : ℤ → ℕ) (ip_none : IpAddress) where
  unfoldable pub serve_list : List (List ℕ) → Visit → Visit
  unfolding listing
  serve_list parts v = elim (list_page byte ip_none parts) [
    | none ↦ v
    | some r ↦ answer (listed (listing ip_none r v.server.peers)) v
  ]

  unfoldable pub serve_command : List (List ℕ) → Visit → Option Visit
  unfolding command_page
  serve_command parts v =
      if is_command (page_of parts)
      then given (command_page byte ip_none parts v.server)
          (λ r. some (answer (carried_out r.1) (record v { server = r.0 })))
      else some v

  -- The tests of the names, one after another.
  unfoldable pub serve_page : List (List ℕ) → Visit → Option Visit
  unfolding serve_list serve_command serve_servers serve_redirect
  serve_page parts v =
      given (serve_command parts (serve_list parts v))
        λ w. some (serve_redirect (serve_servers parts w))

  -- The character behind "GET " is not looked at; it is taken to be there.
  unfoldable pub serve_line : List ℕ → Visit → Option Visit
  unfolding split serve_page
  serve_line line v =
      if starts (codes "GET ") line then serve_page (split (drop 5 line)) v else some v

  -- The lines of a client, up to an empty one.
  unfoldable pub serve_lines : List (List ℕ) → Visit → Option Visit
  unfolding serve_line
  serve_lines [] v = some v
  serve_lines ([] ∷ ls) v = some v
  serve_lines ((c ∷ cs) ∷ ls) v = given (serve_line (c ∷ cs) v) λ w. serve_lines ls w

  unfoldable pub serve_client : Option (List (List ℕ)) → AdminThread → Option AdminThread
  unfolding serve_lines
  serve_client none t = some t
  serve_client (some lines) t =
      given (serve_lines lines (record { server = t.server; redirects = true; answers = [] }))
        λ w. some (record t { server = w.server; answers = t.answers ++ w.answers ∷ [] })

  unfoldable pub turn : Turn → AdminThread → Option AdminThread
  unfolding take_messages serve_client
  turn r t = serve_client r.client (take_messages r.messages t)

  -- `while( !finish )`.
  unfoldable pub execute : List Turn → AdminThread → Option AdminThread
  unfolding turn stop_http_admin
  execute [] t = some t
  execute (r ∷ rs) t =
      let s = if r.stopped then record t { server = stop_http_admin t.server } else t in
      if s.server.finish then some s else given (turn r s) λ u. execute rs u
