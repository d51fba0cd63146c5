-- ===== src/Admin/TurnExamples.antt =====
-- A turn of the administration's loop, and one request, on concrete states.
use relb.Prelude.{ℕ, ◌≡◌, refl, true, false, some, List, [], ◌∷◌, ◌++◌, codes, drop}
use relb.ServerList.State.{new}
use relb.Admin.Mirror.{Mirrors}
use relb.Admin.Request.{split}
use relb.Admin.Unnamed.{is_complete}
use relb.Admin.Serve.{AdminThread, Visit, Turn, execute, take_messages, turn, page_of, serve_line}
use relb.Admin.Answers.{OnePage, Reply, is_page, serve_line_once}
use relb.Admin.Unchanged.{Reads}
use relb.Admin.Running.{Shift, turns_of, process_shifts, execute-Mirrors}
use relb.Admin.Turns.{Placed, AllCanServe, Report, process_all, messages_of, posts_of, turn-Mirrors}
use relb.Admin.Examples.{
  no_ip, alice, connection, sessions, shown, octet, shown-Mirrors, found_first, shown_first,
}

abbrev idle : AdminThread
idle = record { server = shown; index = 0; answers = [] }

-- The connection of alice is over.
abbrev over : Report
over = record {
  id = 16;
  place = 0;
  session = connection 1 11 alice;
  copy = connection 11 1 alice;
  noted = 300;
  now = 301;
  copy_noted = 302;
  copy_now = 303;
}

abbrev browser : List (List ℕ)
browser =
    codes "GET /list?src_ip=10.0.0.7&sort_by=mod HTTP/1.1"
    ∷ codes "Host: shop"
    ∷ codes "GET /kick?src_ip=10.0.0.7&src_port=5000 HTTP/1.1"
    ∷ codes "GET /favicon HTTP/1.1"
    ∷ []

splits_list :
    is_complete (split (drop 5 (codes "GET /list?src_ip=10.0.0.7&sort_by=mod HTTP/1.1"))) ≡ true
unfolding split
splits_list = refl

splits_kick :
    is_complete (split (drop 5 (codes "GET /kick?src_ip=10.0.0.7&src_port=5000 HTTP/1.1"))) ≡ true
unfolding split
splits_kick = refl

splits_other : is_complete (split (drop 5 (codes "GET /favicon HTTP/1.1"))) ≡ true
unfolding split
splits_other = refl

over-Placed : Placed over sessions idle.server
unfolding new
over-Placed = record {
  report = refl;
  known = found_first;
  session = refl;
  copied = shown_first;
  fresh = refl;
  twin = refl;
  byte = refl;
}

browser_served : AllCanServe (some browser)
browser_served = (λ e. splits_list, (λ e. cc e, (λ e. splits_kick, (λ e. splits_other, tt))))

turn-Mirrors_example :
    ((process_all (over ∷ []) sessions).admin_posts
      ≡ sessions.admin_posts ++ posts_of (messages_of (over ∷ [])))
    × (u : AdminThread) × (turn octet no_ip
          (record { stopped = false; messages = messages_of (over ∷ []); client = some browser })
          idle
        ≡ some u)
    × Mirrors (process_all (over ∷ []) sessions) u.server
    × Reads (take_messages (messages_of (over ∷ [])) idle).server u.server
unfolding new
turn-Mirrors_example =
    turn-Mirrors octet no_ip (over ∷ []) (some browser) false sessions idle shown-Mirrors refl
      (over-Placed, tt) browser_served

abbrev arrived : Visit
arrived = record { server = shown; redirects = true; answers = [] }

serve_line_once_example :
    (w : Visit) × (serve_line octet no_ip (codes "GET /favicon HTTP/1.1") arrived ≡ some w)
    × OnePage (is_page (page_of (split (drop 5 (codes "GET /favicon HTTP/1.1"))))) arrived w
    × Reply octet no_ip (split (drop 5 (codes "GET /favicon HTTP/1.1"))) arrived w
serve_line_once_example =
    serve_line_once octet no_ip (codes "GET /favicon HTTP/1.1") arrived refl splits_other

abbrev last_turn : Turn
last_turn = record { stopped = true; messages = []; client = some browser }

abbrev first_shift : Shift
first_shift = record { reports = over ∷ []; client = some browser }

execute-Mirrors_example :
    (u : AdminThread) × (execute octet no_ip (turns_of (first_shift ∷ []) (last_turn ∷ [])) idle
      ≡ some u)
    × (u.server.finish ≡ true)
    × Mirrors (process_shifts (first_shift ∷ []) sessions) u.server
unfolding new
execute-Mirrors_example =
    execute-Mirrors octet no_ip (first_shift ∷ []) last_turn [] sessions idle refl refl
      shown-Mirrors refl ((over-Placed, tt), browser_served, λ u e. tt)
