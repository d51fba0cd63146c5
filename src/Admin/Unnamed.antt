-- ===== src/Admin/Unnamed.antt =====
-- Requests for the pages kick, ban and ban_all that name no port (src/AdminHTTPServer.cpp).
use relb.Prelude.{
  ℕ, ◌≡◌, refl, ◌∙◌, Bool, true, false, not, ◌||◌, Option, none, some, is_some, List, [], ◌∷◌,
  if◌then◌else◌, if_cases, codes, starts, same_text, drop,
}
use relb.Prelude.Int.{ℤ}
use relb.Address.{IpAddress}
use relb.Admin.State.{AdminServer, kick, ban, ban_all}
use relb.Admin.Request.{split}
use relb.Admin.Pages.{
  is_command, NamedClient, unnamed, named_part, named_client, run_command, command_page,
  command_request,
}

-- Whether a part of the request names a port.
abbrev pub names_port : List (List ℕ) → Bool
names_port [] = false
names_port (s ∷ ss) = starts (codes "src_port=") s || names_port ss

-- What a request has to name: the page comes first.
abbrev pub is_complete : List (List ℕ) → Bool
is_complete [] = true
is_complete (page ∷ ss) = not (is_command page) || names_port ss

or_swap : (x y z : Bool) → (x || y) || z ≡ y || (x || z)
or_swap true true z = refl
or_swap true false z = refl
or_swap false y z = refl

or_false : (x : Bool) → x ≡ x || false
or_false true = refl
or_false false = refl

set_port :
    (s : List ℕ) (c : NamedClient) (b : Bool)
    → is_some (if b then record c { src_port = some (drop 9 s) } else c).src_port
      ≡ b || is_some c.src_port
set_port s c true = refl
set_port s c false = refl

named_part-port :
    (s : List ℕ) (c : NamedClient)
    → is_some (named_part s c).src_port ≡ starts (codes "src_port=") s || is_some c.src_port
unfolding named_part
named_part-port s c =
    if_cases
      (λ (d : NamedClient).
        is_some
          (if starts (codes "src_port=") s
            then record d { src_port = some (drop 9 s) }
            else d).src_port
        ≡ starts (codes "src_port=") s || is_some c.src_port)
      (starts (codes "src_ip=") s) (set_port s _ (starts (codes "src_port=") s))
      (set_port s c (starts (codes "src_port=") s))

named_client-port :
    (ss : List (List ℕ)) (c : NamedClient)
    → is_some (named_client ss c).src_port ≡ is_some c.src_port || names_port ss
unfolding named_client
named_client-port [] c = or_false (is_some c.src_port)
named_client-port (s ∷ ss) c =
    named_client-port ss (named_part s c)
    ∙ rw (named_part-port s c)
        (or_swap (starts (codes "src_port=") s) (is_some c.src_port) (names_port ss))

-- One of three pages, or another.
ask :
    (p q r found : Bool) (x y z w : Option (AdminServer × Bool))
    → is_some x ≡ found
    → is_some y ≡ found
    → is_some z ≡ found
    → is_some w ≡ true
    → is_some (if p then x else if q then y else if r then z else w) ≡ not (p || (q || r)) || found
ask true q r found x y z w e f g h = e
ask false true r found x y z w e f g h = f
ask false false true found x y z w e f g h = g
ask false false false found x y z w e f g h = h

request_if :
    (b found : Bool) (x w : Option (AdminServer × Bool))
    → is_some x ≡ found
    → is_some w ≡ true
    → is_some (if b then x else w) ≡ not b || found
request_if true found x w e f = e
request_if false found x w e f = f

module _ (byte : ℤ → ℕ) (ip_none : IpAddress) where
  run_command-port :
      (f : IpAddress → ℕ → AdminServer → AdminServer × Bool) (ip p : Option (List ℕ))
      (a : AdminServer)
      → is_some (run_command byte ip_none f ip p a) ≡ is_some p
  unfolding run_command
  run_command-port f ip none a = refl
  run_command-port f ip (some t) a = refl

  pub command_page_complete :
      (ss : List (List ℕ)) (a : AdminServer)
      → is_some (command_page byte ip_none ss a) ≡ is_complete ss
  unfolding command_page
  command_page_complete [] a = refl
  command_page_complete (page ∷ ss) a =
      let c = named_client ss unnamed in
      let runs = λ (f : IpAddress → ℕ → AdminServer → AdminServer × Bool).
        run_command-port f c.src_ip c.src_port a ∙ named_client-port ss unnamed in
      ask (same_text page (codes "ban")) (same_text page (codes "kick"))
        (same_text page (codes "ban_all")) (names_port ss) _ _ _ (some (a, false)) (runs ban)
        (runs kick) (runs ban_all) refl

  -- A request is carried out, whichever page it asks for, except that one for kick, ban or ban_all
  -- with no part that begins with "src_port=" reads a null pointer; a missing address is no fault.
  pub command_request_complete :
      (line : List ℕ) (a : AdminServer)
      → is_some (command_request byte ip_none line a)
        ≡ not (starts (codes "GET ") line) || is_complete (split (drop 5 line))
  unfolding command_request
  command_request_complete line a =
      request_if (starts (codes "GET ") line) (is_complete (split (drop 5 line))) _
        (some (a, false)) (command_page_complete (split (drop 5 line)) a) refl
