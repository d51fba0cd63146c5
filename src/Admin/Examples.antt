-- ===== src/Admin/Examples.antt =====
-- A list of servers and an administration that know the same two connections.
use relb.Prelude.{
  ℕ, ◌-◌, ◌%◌, ◌≡◌, refl, true, false, some, [], ◌∷◌, ◌++◌, codes, starts, drop, is_some, not, ◌||◌,
  delete_at, update_at, arith,
}
use mathlib.Core.List.{Perm}
use relb.Prelude.Int.{ℤ, pos, negsuc}
use relb.Address.{IpAddress, IsIp}
use relb.Status.{peer_connection_kicked, peer_connection_deleted}
use relb.ServerList.State.{ServerInfo, PeerInfo, ServerList, new}
use relb.ServerList.Messages.{find_peer, server_at, process_message}
use relb.Config.Decimal.{write_number}
use relb.Admin.State.{AdminServer, twin_of, kick, ban, ban_all}
use relb.Admin.Listing.{Request, row_of, listing}
use relb.Admin.Order.{InOrder, IsRow}
use relb.Admin.Sorted.{chosen, IsOrdered, listing-IsOrdered}
use relb.Admin.Messages.{handle_message}
use relb.Admin.Mirror.{Mirrors, IsTwin}
use relb.Admin.Request.{split, list_request}
use relb.Admin.Links.{write_ip}
use relb.Admin.Pages.{command_request, command_link}
use relb.Admin.Unnamed.{is_complete, command_request_complete}
use relb.Admin.Headings.{duration, sort_link}
use relb.Admin.Sorting.{list_request-sort_link}
use relb.Admin.Commanded.{request_for, command_request-command_link}
use relb.Admin.Commands.{kick-closes, ban-forgets}

abbrev pub no_ip : IpAddress
no_ip = record { a = 255; b = 255; c = 255; d = 255 }

abbrev pub alice : IpAddress
alice = record { a = 10; b = 0; c = 0; d = 7 }

abbrev bob : IpAddress
bob = record { a = 10; b = 0; c = 0; d = 5 }

abbrev shop : IpAddress
shop = record { a = 192; b = 168; c = 0; d = 2 }

-- A connection at an address of its own, with its twin's address.
abbrev pub connection : ℕ → ℕ → IpAddress → PeerInfo
connection address twin client = record {
  address = address;
  src_ip = client;
  src_port = 5000;
  dst_ip = shop;
  dst_port = 80;
  status = 4;
  parallel = some twin;
  manager = some 9;
  created = 100;
  modified = 200;
  ban_this = false;
  ban_all = false;
}

abbrev counts : ServerInfo
counts = record {
  host_name = "";
  ip = shop;
  port = 80;
  disconnected = 0;
  finished = 0;
  connected = 2;
  connecting = 0;
  weight = pos 1;
  max_connections = pos 0;
  last_connection_failed = false;
  last_connection_attempt = 0;
}

abbrev pub sessions : ServerList
sessions = record (new 50) {
  servers = counts ∷ [];
  peers = connection 1 11 alice ∷ connection 2 12 bob ∷ [];
  parallel_list = true;
}

abbrev pub shown : AdminServer
shown = record {
  finish = false;
  peers = connection 11 1 alice ∷ connection 12 2 bob ∷ [];
  servers = counts ∷ [];
  parallel_list = true;
  posted = [];
  bind_port = 8182;
  bind_ip = shop;
}

abbrev by_source : Request
by_source = record {
  src_filter = no_ip;
  dst_filter = shop;
  src_port = 0;
  dst_port = 80;
  status_filter = 4;
  sort_by = 1;
  ascending = true;
}

connection-IsRow :
    (client : IpAddress)
    → IsIp client
    → (address twin : ℕ) → IsRow (row_of (connection address twin client))
connection-IsRow client v address twin = record {
  src = v;
  src_port = ground arith;
  dst = record {
    fits_a = ground arith;
    fits_b = ground arith;
    fits_c = ground arith;
    fits_d = ground arith;
  };
  dst_port = ground arith;
}

alice-IsIp : IsIp alice
alice-IsIp = record {
  fits_a = ground arith;
  fits_b = ground arith;
  fits_c = ground arith;
  fits_d = ground arith;
}

bob-IsIp : IsIp bob
bob-IsIp = record {
  fits_a = ground arith;
  fits_b = ground arith;
  fits_c = ground arith;
  fits_d = ground arith;
}

listing-IsOrdered_example :
    Perm (listing no_ip by_source shown.peers) (chosen no_ip by_source shown.peers)
    × IsOrdered (InOrder 1 true) (listing no_ip by_source shown.peers)
listing-IsOrdered_example =
    listing-IsOrdered no_ip by_source shown.peers
      (connection-IsRow alice alice-IsIp 11 1, (connection-IsRow bob bob-IsIp 12 2, tt))
      (ground arith)

pub shown-Mirrors : Mirrors sessions shown
shown-Mirrors =
    let same : (address twin address' twin' : ℕ) (client : IpAddress)
        → IsTwin (connection address twin client) (connection address' twin' client) =
      λ address twin address' twin' client. record {
        src = refl;
        dst = refl;
        dst_port = refl;
        status = refl;
      } in
    record {
      peers = (same 1 11 11 1 alice, (same 2 12 12 2 bob, tt));
      servers = (
        record {
          ip = refl;
          port = refl;
          connecting = refl;
          connected = refl;
          finished = refl;
          disconnected = refl;
          failed = refl;
        },
        tt,
      );
    }

pub found_first : find_peer 1 0 sessions.peers ≡ some 0
unfolding find_peer
found_first = refl

pub shown_first : find_peer 11 0 shown.peers ≡ some 0
unfolding find_peer
shown_first = refl

twin_found : twin_of alice 5000 shown.peers ≡ some 1
unfolding twin_of
twin_found = refl

served_at : server_at shop 80 0 shown.servers ≡ some 0
unfolding server_at
served_at = refl

-- Alice's connection is the first, and no connection comes from another port of hers.
kick-closes_example :
    (kick alice 5000 shown
      ≡ (record shown { posted = [] ++ (peer_connection_kicked, 1) ∷ [] }, true))
    × (process_message peer_connection_kicked 1 300 301 sessions
        ≡ record sessions { close_requests = [] ++ (9, some 1) ∷ [] })
    × (kick alice 5001 shown ≡ (shown, false))
unfolding new
kick-closes_example =
    kick-closes shown sessions alice 5000 [] (connection 12 2 bob ∷ []) (connection 11 1 alice)
      (connection 1 11 alice) 0 9 300 301 alice 5001 refl refl tt refl refl refl found_first refl
      refl (λ s e. absurd (omega (arith, e)), (λ s e. absurd (omega (arith, e)), tt))

ban-forgets_example :
    ((ban alice 5000 shown).0.posted ≡ [] ++ (peer_connection_deleted, 1) ∷ [])
    × (process_message peer_connection_deleted 1 300 301 sessions ≡ record sessions {
      peers =
          update_at
            (λ r. record r { status = peer_connection_deleted; modified = 300 })
            0
            sessions.peers;
      admin_posts = [] ++ (peer_connection_deleted, 11) ∷ [];
    })
    × (handle_message peer_connection_deleted (connection 11 1 alice) 0 302 303 shown
        ≡ record shown {
          peers = delete_at 0 shown.peers;
          servers = update_at (λ r. record r { connected = r.connected - 1 }) 0 shown.servers;
        })
unfolding new
ban-forgets_example =
    ban-forgets shown sessions alice 5000 (connection 1 11 alice) (connection 11 1 alice) 0 0 0 0
      300 301 302 303 refl twin_found found_first refl refl refl shown_first refl served_at

abbrev pub octet : ℤ → ℕ
octet (pos n) = n % 256
octet (negsuc n) = 255 - n % 256

command_request-command_link_example :
    (command_request octet no_ip
        (request_for (command_link write_ip write_number (codes "kick") alice 5000))
        shown
      ≡ some (kick alice 5000 shown))
    × (command_request octet no_ip
          (request_for (command_link write_ip write_number (codes "ban") alice 5000))
          shown
        ≡ some (ban alice 5000 shown))
    × (command_request octet no_ip
          (request_for (command_link write_ip write_number (codes "ban_all") alice 5000))
          shown
        ≡ some (ban_all alice 5000 shown))
command_request-command_link_example =
    command_request-command_link octet no_ip (λ n h. omega arith) write_ip write_number alice 5000
      shown (λ i. refl) (λ n. refl)
      (record {
        fits_a = omega arith;
        fits_b = omega arith;
        fits_c = omega arith;
        fits_d = omega arith;
      })
      (omega arith)

command_request_complete_example :
    is_some (command_request octet no_ip (codes "GET /kick?src_ip=10.0.0.7 HTTP/1.1") shown)
    ≡ not (starts (codes "GET ") (codes "GET /kick?src_ip=10.0.0.7 HTTP/1.1"))
      || is_complete (split (drop 5 (codes "GET /kick?src_ip=10.0.0.7 HTTP/1.1")))
command_request_complete_example =
    command_request_complete octet no_ip (codes "GET /kick?src_ip=10.0.0.7 HTTP/1.1") shown

-- A page of the connections from one address and port, at one server.
abbrev asked : Request
asked = record {
  src_filter = alice;
  dst_filter = shop;
  src_port = 5000;
  dst_port = 0;
  status_filter = 0;
  sort_by = 1;
  ascending = true;
}

list_request-sort_link_example :
    list_request octet no_ip
      (request_for (sort_link write_ip write_number write_number no_ip duration false asked))
    ≡ some (record {
      src_filter = alice;
      dst_filter = shop;
      src_port = 0;
      dst_port = 5000;
      status_filter = 0;
      sort_by = 4;
      ascending = false;
    })
list_request-sort_link_example =
    list_request-sort_link octet no_ip (λ n h. omega arith) write_ip write_number write_number
      duration false asked (λ i. refl) (λ n. refl)
      (record {
        fits_a = omega arith;
        fits_b = omega arith;
        fits_c = omega arith;
        fits_d = omega arith;
      })
      (record {
        fits_a = omega arith;
        fits_b = omega arith;
        fits_c = omega arith;
        fits_d = omega arith;
      })
      (omega arith) (omega arith) refl
