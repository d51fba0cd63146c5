-- ===== src/Admin/Request.antt =====
-- The parameters of the page `list`, as `AdminHTTPServer::execute` (src/AdminHTTPServer.cpp) reads them
-- from the line of a request.
use relb.Prelude.{
  ℕ, ◌-◌, Bool, true, false, ◌||◌, Option, none, some, List, [], ◌∷◌, ◌++◌, ◌==◌, if◌then◌else◌,
  codes, starts, same_text, drop,
}
use relb.Prelude.Int.{ℤ, pos, negsuc, pos_part, ltb_ℤ}
use relb.Address.{IpAddress}
use relb.Parse.{atoi, char_to_ipaddress}
use relb.Config.Endpoint.{to_port}
use relb.Admin.Listing.{Request}

abbrev pub ends_parameter : ℕ → Bool
ends_parameter c = c == 32 || (c == b'&' || c == b'?')

-- The texts between the characters that are set to 0.
abbrev pub begin_part : ℕ → List (List ℕ) → List (List ℕ)
begin_part c [] = (c ∷ []) ∷ []
begin_part c (s ∷ ss) = (c ∷ s) ∷ ss

unfoldable pub split : List ℕ → List (List ℕ)
split [] = [] ∷ []
split (c ∷ cs) = let more = split cs in if ends_parameter c then [] ∷ more else begin_part c more

-- The bits of an `int`.
abbrev pub to_word : ℤ → ℕ
to_word (pos n) = n
to_word (negsuc n) = 4294967295 - n

abbrev pub sort_named : List ℕ → ℕ → ℕ
sort_named text other =
    if same_text text (codes "creat")
    then 5
    else if same_text text (codes "mod")
    then 4
    else if same_text text (codes "stts")
    then 3
    else if same_text text (codes "dst")
    then 2
    else if same_text text (codes "src")
    then 1
    else other

unfoldable pub sort_of : List ℕ → ℕ → ℕ
unfolding atoi
sort_of text other =
    let n = atoi text in if ltb_ℤ (pos 0) n then pos_part n else sort_named text other

module _ (byte : ℤ → ℕ) (ip_none : IpAddress) where
  -- One parameter. No two of the names begin one another.
  unfoldable pub parameter : List ℕ → Request → Request
  unfolding char_to_ipaddress atoi sort_of
  parameter s r =
      if starts (codes "src_ip=") s
      then record r { src_filter = char_to_ipaddress byte ip_none (some (drop 7 s)) }
      else if starts (codes "src_port=") s
      then record r { src_port = to_port (atoi (drop 9 s)) }
      else if starts (codes "dst_ip=") s
      then record r { dst_filter = char_to_ipaddress byte ip_none (some (drop 7 s)) }
      else if starts (codes "dst_port=") s
      then record r { dst_port = to_port (atoi (drop 9 s)) }
      else if starts (codes "status=") s
      then record r { status_filter = to_word (atoi (drop 7 s)) }
      else if starts (codes "sort_by=") s
      then record r { sort_by = sort_of (drop 8 s) r.sort_by }
      else if starts (codes "sort_asc=false") s
      then record r { ascending = false }
      else r

  unfoldable pub parameters : List (List ℕ) → Request → Request
  unfolding parameter
  parameters [] r = r
  parameters (s ∷ ss) r = parameters ss (parameter s r)

  abbrev pub all_connections : Request
  all_connections = record {
    src_filter = ip_none;
    dst_filter = ip_none;
    src_port = 0;
    dst_port = 0;
    status_filter = 0;
    sort_by = 1;
    ascending = true;
  }

  -- A page, whose name comes first.
  abbrev pub list_page : List (List ℕ) → Option Request
  list_page [] = none
  list_page (page ∷ ss) =
      if same_text page (codes "list") then some (parameters ss all_connections) else none

  -- The line of a request, if it asks for the page `list`. The character behind "GET " is not looked
  -- at; it is taken to be there.
  unfoldable pub list_request : List ℕ → Option Request
  unfolding split parameters
  list_request line = if starts (codes "GET ") line then list_page (split (drop 5 line)) else none

-- The link to the connections of a server, on the page `servers`, without the quotes.
unfoldable pub server_link : (IpAddress → List ℕ) → (ℕ → List ℕ) → IpAddress → ℕ → List ℕ
server_link show_ip show_number ip port =
    codes "list?dst_ip=" ++ (show_ip ip ++ (codes "&dst_port=" ++ show_number port))
