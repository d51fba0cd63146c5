-- ===== src/Config/Servers.antt =====
-- The tags server:, retryserver: and conperthread: of `processConfigLine` (src/AppConfig.cpp).
use relb.Prelude.{
  ℕ, Bool, ◌&&◌, ◌||◌, Option, none, some, List, [], ◌∷◌, ◌++◌, ◌==◌, if◌then◌else◌, skip_while,
  word, after_word, past, same_text, is_blank,
}
use relb.Prelude.Int.{ℤ, pos, leb_ℤ}
use relb.Address.{same_ip}
use relb.Parse.{atoi}
use relb.Config.State.{DstConf, AppConfig, Network, on_last}
use relb.Config.Endpoint.{to_port, ends_host}

abbrev pub ends_number : ℕ → Bool
ends_number c = c == b',' || c == 32

-- Behind the name and one character: the port, then the weight and the limit. One character of the
-- port is passed before the end of the number is looked for.
unfoldable pub server_of : Network → List ℕ → List ℕ → DstConf
unfolding atoi
server_of n name numbers =
    let ip = n.host name in
    let weight = past (after_word ends_number (past numbers)) in
    let limit = past (after_word ends_number weight) in
    record {
      host_name = (if same_text name (n.show ip) then [] else name);
      dst_ip = ip;
      dst_port = to_port (atoi numbers);
      weight = atoi weight;
      max_connections = atoi limit;
    }

-- A server whose address is not known, or whose port is 0, is refused.
unfoldable pub add_server : Network → List ℕ → List ℕ → AppConfig → AppConfig
unfolding server_of on_last
add_server n name numbers c =
    let s = server_of n name numbers in
    if same_ip s.dst_ip n.ip_none || s.dst_port == 0
    then c
    else record c { bind = on_last (λ b. record b { dst = b.dst ++ s ∷ [] }) c.bind }

-- What stands behind the name. `none`: the name ends the line, and the character behind the final 0 is
-- read.
unfoldable pub server_named : Network → List ℕ → AppConfig → List ℕ → Option AppConfig
unfolding add_server
server_named n name c [] = none
server_named n name c (_ ∷ numbers) = some (add_server n name numbers c)

unfoldable pub server_line : Network → List ℕ → AppConfig → Option AppConfig
unfolding server_named
server_line n line c =
    let text = skip_while is_blank line in
    server_named n (word ends_host text) c (after_word ends_host text)

-- A number that is 0, or not there, stands for the default.
abbrev pub or_default : ℤ → ℕ → ℤ
or_default x n = if leb_ℤ x (pos 0) && leb_ℤ (pos 0) x then pos n else x

unfoldable pub retry_line : List ℕ → AppConfig → AppConfig
unfolding atoi
retry_line text c = record c {
  minimum_server_reconnection_time = or_default (atoi (skip_while is_blank text)) 30;
}

unfoldable pub threads_line : List ℕ → AppConfig → AppConfig
unfolding atoi
threads_line text c = record c {
  connections_per_thread = or_default (atoi (skip_while is_blank text)) 16;
}
