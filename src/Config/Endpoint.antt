-- ===== src/Config/Endpoint.antt =====
-- The tags bind:, alsobind: and admin: of `processConfigLine` (src/AppConfig.cpp): an address, which
-- may be left out, and a port.
use relb.Prelude.{
  ℕ, ◌-◌, ◌%◌, Bool, true, ◌||◌, List, [], ◌∷◌, ◌++◌, ◌==◌, if◌then◌else◌, skip_while, word,
  after_word, is_blank,
}
use relb.Prelude.Int.{ℤ, pos, negsuc}
use relb.Address.{IpAddress, same_ip}
use relb.Parse.{atoi}
use relb.Config.State.{BindAddress, BindConf, AppConfig, Network, on_last}

-- An `unsigned short` keeps the low 16 bits.
abbrev pub to_port : ℤ → ℕ
to_port (pos n) = n % 65536
to_port (negsuc n) = 65535 - n % 65536

abbrev pub ends_host : ℕ → Bool
ends_host c = c == b',' || c == b':'

-- What is read at the text, and behind the name that it may begin with. A name that is not found
-- stands for every address.
unfoldable pub endpoint_at : Network → IpAddress → List ℕ → List ℕ → BindAddress
unfolding atoi
endpoint_at n other text [] = record { src_ip = other; src_port = to_port (atoi text) }
endpoint_at n other text (c ∷ cs) =
    let found = n.host (word ends_host text) in
    if c == b':'
    then record {
      src_ip = (if same_ip found n.ip_none then n.ip_any else found);
      src_port = to_port (atoi cs);
    }
    else record { src_ip = other; src_port = to_port (atoi text) }

unfoldable pub endpoint : Network → IpAddress → List ℕ → BindAddress
unfolding endpoint_at
endpoint n other line =
    let text = skip_while is_blank line in endpoint_at n other text (after_word ends_host text)

-- A port 0 is refused. The first address opens a new part of the configuration.
unfoldable pub bind_line : Network → List ℕ → AppConfig → AppConfig
unfolding endpoint
bind_line n text c =
    let a = endpoint n n.ip_any text in
    let part : BindConf = record { address = a ∷ []; dst = []; tasks = []; filter = [] } in
    if a.src_port == 0 then c else record c { bind = c.bind ++ part ∷ [] }

-- A further address of the last part.
unfoldable pub alsobind_line : Network → List ℕ → AppConfig → AppConfig
unfolding endpoint on_last
alsobind_line n text c =
    let a = endpoint n n.ip_any text in
    if a.src_port == 0
    then c
    else record c { bind = on_last (λ b. record b { address = b.address ++ a ∷ [] }) c.bind }

unfoldable pub admin_line : Network → List ℕ → AppConfig → AppConfig
unfolding endpoint
admin_line n text c =
    let a = endpoint n (record { a = 127; b = 0; c = 0; d = 1 }) text in
    if a.src_port == 0 then c else record c {
      http_admin_ip = a.src_ip;
      http_admin_port = a.src_port;
      http_admin_enabled = true;
    }
