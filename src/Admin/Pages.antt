-- ===== src/Admin/Pages.antt =====
-- The pages kick, ban and ban_all, as `AdminHTTPServer::execute` (src/AdminHTTPServer.cpp) finds the
-- client that a request names.
use relb.Prelude.{
  ℕ, Bool, false, Option, none, some, List, [], ◌∷◌, ◌++◌, if◌then◌else◌, ◌||◌, codes, starts,
  same_text, drop,
}
use relb.Prelude.Int.{ℤ}
use relb.Address.{IpAddress}
use relb.Parse.{atoi, char_to_ipaddress}
use relb.Config.Endpoint.{to_port}
use relb.Admin.State.{AdminServer, kick, ban, ban_all}
use relb.Admin.Request.{split}

-- The texts behind the names of the parameters, `none` where the pointer stays NULL.
pub record NamedClient : Type 0 where
  pub src_ip : Option (List ℕ)
  pub src_port : Option (List ℕ)

unfoldable pub named_part : List ℕ → NamedClient → NamedClient
named_part s c =
    let d : NamedClient =
      if starts (codes "src_ip=") s then record c { src_ip = some (drop 7 s) } else c in
    if starts (codes "src_port=") s then record d { src_port = some (drop 9 s) } else d

unfoldable pub named_client : List (List ℕ) → NamedClient → NamedClient
unfolding named_part
named_client [] c = c
named_client (s ∷ ss) c = named_client ss (named_part s c)

abbrev pub unnamed : NamedClient
unnamed = record { src_ip = none; src_port = none }

abbrev pub is_command : List ℕ → Bool
is_command page =
    same_text page (codes "ban")
    || (same_text page (codes "kick") || same_text page (codes "ban_all"))

module _ (byte : ℤ → ℕ) (ip_none : IpAddress) where
  -- The address may be missing, the port may not: `atoi` of NULL has no result.
  unfoldable pub run_command :
      (IpAddress → ℕ → AdminServer → AdminServer × Bool)
      → Option (List ℕ)
      → Option (List ℕ)
      → AdminServer
      → Option (AdminServer × Bool)
  unfolding char_to_ipaddress atoi
  run_command f ip none a = none
  run_command f ip (some text) a =
      some (f (char_to_ipaddress byte ip_none ip) (to_port (atoi text)) a)

  unfoldable pub command_page : List (List ℕ) → AdminServer → Option (AdminServer × Bool)
  unfolding named_client run_command kick ban ban_all
  command_page [] a = some (a, false)
  command_page (page ∷ ss) a =
      let c = named_client ss unnamed in
      if same_text page (codes "ban")
      then run_command ban c.src_ip c.src_port a
      else if same_text page (codes "kick")
      then run_command kick c.src_ip c.src_port a
      else if same_text page (codes "ban_all")
      then run_command ban_all c.src_ip c.src_port a
      else some (a, false)

  -- The line of a request; other pages change nothing.
  unfoldable pub command_request : List ℕ → AdminServer → Option (AdminServer × Bool)
  unfolding split command_page
  command_request line a =
      if starts (codes "GET ") line then command_page (split (drop 5 line)) a else some (a, false)

-- The link of a row to one of the pages, without the quotes.
unfoldable pub command_link : (IpAddress → List ℕ) → (ℕ → List ℕ) → List ℕ → IpAddress → ℕ → List ℕ
command_link show_ip show_number page ip port =
    page ++ (codes "?src_ip=" ++ (show_ip ip ++ (codes "&src_port=" ++ show_number port)))
