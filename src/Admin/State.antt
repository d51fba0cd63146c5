-- ===== src/Admin/State.antt =====
-- The state of `AdminHTTPServer` (src/AdminHTTPServer.h), its setup, and what the pages kick, ban and
-- ban_all do (src/AdminHTTPServer.cpp).
use relb.Prelude.{
  ℕ, Bool, true, false, ◌&&◌, Option, none, some, List, [], ◌∷◌, ◌++◌, ◌==◌, if◌then◌else◌,
}
use relb.Prelude.Int.{ℤ}
use relb.Address.{IpAddress, same_ip}
use relb.Status.{peer_connection_kicked}
use relb.ServerList.State.{ServerInfo, PeerInfo}
use Prim.Native.String.{String}

-- `parallel_list` tells whether there is a list to post to, and `posted` is what was posted there.
pub record AdminServer : Type 0 where
  pub finish : Bool
  pub peers : List PeerInfo
  pub servers : List ServerInfo
  pub parallel_list : Bool
  pub posted : List (ℕ × ℕ)
  pub bind_port : ℕ
  pub bind_ip : IpAddress

unfoldable pub start_http_admin : ℕ → IpAddress → AdminServer → AdminServer
start_http_admin port ip a = record a { bind_port = port; bind_ip = ip }

unfoldable pub stop_http_admin : AdminServer → AdminServer
stop_http_admin a = record a { finish = true }

unfoldable pub set_parallel_list : Bool → AdminServer → AdminServer
set_parallel_list present a = record a { parallel_list = present }

unfoldable pub clean_servers_list : AdminServer → AdminServer
clean_servers_list a = record a { servers = [] }

unfoldable pub add_server :
    Option String → IpAddress → ℕ → ℤ → ℤ → ℕ → AdminServer → AdminServer × Bool
add_server host ip port weight max_connections now a =
    let info : ServerInfo = record {
      host_name = (elim host [ none ↦ "" | some name ↦ name ]);
      ip = ip;
      port = port;
      disconnected = 0;
      finished = 0;
      connected = 0;
      connecting = 0;
      weight = weight;
      max_connections = max_connections;
      last_connection_failed = false;
      last_connection_attempt = now;
    } in
    (record a { servers = a.servers ++ info ∷ [] }, true)

-- STATUS_PEER_CONNECTION_BAN_THIS and STATUS_PEER_CONNECTION_BAN_ALL.
abbrev pub ban_this : ℕ
ban_this = 128

abbrev pub ban_all_of : ℕ
ban_all_of = 129

-- The twin of the first connection from this address and port that has one.
unfoldable pub twin_of : IpAddress → ℕ → List PeerInfo → Option ℕ
twin_of ip port [] = none
twin_of ip port (p ∷ ps) =
    let more = twin_of ip port ps in
    let found : Option ℕ = elim p.parallel [ none ↦ more | some twin ↦ some twin ] in
    if same_ip p.src_ip ip && p.src_port == port then found else more

abbrev pub post_twin : ℕ → Option ℕ → AdminServer → AdminServer × Bool
post_twin id none a = (a, false)
post_twin id (some twin) a = (record a { posted = a.posted ++ (id, twin) ∷ [] }, true)

-- The common part of the three pages, which differ in the message; the result is `success`.
unfoldable pub command : ℕ → IpAddress → ℕ → AdminServer → AdminServer × Bool
unfolding twin_of
command id ip port a =
    if a.parallel_list then post_twin id (twin_of ip port a.peers) a else (a, false)

unfoldable pub kick : IpAddress → ℕ → AdminServer → AdminServer × Bool
unfolding command
kick = command peer_connection_kicked

unfoldable pub ban : IpAddress → ℕ → AdminServer → AdminServer × Bool
unfolding command
ban = command ban_this

unfoldable pub ban_all : IpAddress → ℕ → AdminServer → AdminServer × Bool
unfolding command
ban_all = command ban_all_of
