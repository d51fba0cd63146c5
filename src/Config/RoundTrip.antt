-- ===== src/Config/RoundTrip.antt =====
-- A part of a configuration in writing (src/AppConfig.cpp): an address and its servers.
use relb.Prelude.{
  ℕ, suc, ◌%◌, ◌<◌, ◌≡◌, ◌≢◌, refl, ap, sym, ◌∙◌, false, none, some, List, [], ◌∷◌, ◌++◌,
  append_assoc, append-nil, ◌==◌, if◌then◌else◌, arith, codes, Free, begins, is_blank, word-append,
  after_word-append, skip_while-begins, All,
}
use mathlib.Core.List.{map}
use relb.Address.{same_ip}
use relb.Config.State.{BindAddress, DstConf, BindConf, AppConfig, Network, Calendar, on_last}
use relb.Config.Endpoint.{to_port, ends_host, endpoint_at, endpoint, bind_line}
use relb.Config.Lines.{is_comment, binds, others, process_config_line, process_lines}
use relb.Config.Decimal.{write_number, atoi-end}
use relb.Config.Written.{
  Written, write_server, meant, IsWritten, with_servers, begins-append, process_config_line-written,
}

on_last-cons :
    (f : BindConf → BindConf) (b c : BindConf) (bs : List BindConf) (g : BindConf → BindConf)
    → on_last f (b ∷ on_last g (c ∷ bs)) ≡ b ∷ on_last f (on_last g (c ∷ bs))
unfolding on_last
on_last-cons f b c [] g = refl
on_last-cons f b c (d ∷ bs) g = refl

abbrev adding : List DstConf → BindConf → BindConf
adding ss b = record b { dst = b.dst ++ ss }

on_last-adding :
    (rs ss : List DstConf) (bs : List BindConf)
    → on_last (adding ss) (on_last (adding rs) bs) ≡ on_last (adding (rs ++ ss)) bs
unfolding on_last
on_last-adding rs ss [] = refl
on_last-adding rs ss (b ∷ []) = ap (λ d. record b { dst = d } ∷ []) (append_assoc b.dst rs ss)
on_last-adding rs ss (b ∷ c ∷ bs) =
    on_last-cons (adding ss) b c bs (adding rs) ∙ ap (◌∷◌ b) (on_last-adding rs ss (c ∷ bs))

on_last-adding_nil : (bs : List BindConf) → on_last (adding []) bs ≡ bs
unfolding on_last
on_last-adding_nil [] = refl
on_last-adding_nil (b ∷ []) = ap (λ d. record b { dst = d } ∷ []) (append-nil b.dst)
on_last-adding_nil (b ∷ c ∷ bs) = ap (◌∷◌ b) (on_last-adding_nil (c ∷ bs))

on_last-snoc :
    (f : BindConf → BindConf) (bs : List BindConf) (b : BindConf)
    → on_last f (bs ++ b ∷ []) ≡ bs ++ f b ∷ []
unfolding on_last
on_last-snoc f [] b = refl
on_last-snoc f (c ∷ []) b = refl
on_last-snoc f (c ∷ d ∷ bs) b = ap (◌∷◌ c) (on_last-snoc f (d ∷ bs) b)

process_lines-step :
    (n : Network) (k : ℕ → Calendar) (i : ℕ) (l : List ℕ) (ls : List (List ℕ)) (c d : AppConfig)
    → process_config_line n (k i) l c ≡ some d
    → process_lines n k i (l ∷ ls) c ≡ process_lines n k (suc i) ls d
unfolding process_lines
process_lines-step n k i l ls c d e =
    ap (λ o. elim o [ none ↦ none | some f ↦ process_lines n k (suc i) ls f ]) e

servers-written :
    (n : Network) (k : ℕ → Calendar) (i : ℕ) (ws : List Written) (c : AppConfig)
    → All (IsWritten n) ws
    → process_lines n k i (map write_server ws) c ≡ some (with_servers (map (meant n) ws) c)
unfolding process_lines
servers-written n k i [] c v =
    ap (λ bs. some (record c { bind = bs })) (sym (on_last-adding_nil c.bind))
servers-written n k i (w ∷ ws) c v =
    process_lines-step n k i (write_server w) (map write_server ws) c _
      (process_config_line-written n (k i) w c v.0)
    ∙ (servers-written n k (suc i) ws (with_servers (meant n w ∷ []) c) v.1
        ∙ ap (λ bs. some (record c { bind = bs }))
            (on_last-adding (meant n w ∷ []) (map (meant n) ws) c.bind))

-- A part as a person writes it: the address to listen on, host:port, and the servers.
pub record WrittenPart : Type 0 where
  pub host : List ℕ
  pub port : ℕ
  pub servers : List Written

abbrev pub write_part : WrittenPart → List (List ℕ)
write_part p = (codes "bind:" ++ (p.host ++ 58 ∷ write_number p.port)) ∷ map write_server p.servers

abbrev meant_address : Network → WrittenPart → BindAddress
meant_address n p = record {
  src_ip = (if same_ip (n.host p.host) n.ip_none then n.ip_any else n.host p.host);
  src_port = p.port;
}

abbrev pub meant_part : Network → WrittenPart → BindConf
meant_part n p = record {
  address = meant_address n p ∷ [];
  dst = map (meant n) p.servers;
  tasks = [];
  filter = [];
}

pub record IsWrittenPart (n : Network) (p : WrittenPart) : Type 0 where
  pub plain : Free ends_host p.host
  pub solid : begins is_blank p.host ≡ false
  pub port : p.port ≢ 0
  pub fits : p.port < 65536
  pub servers : All (IsWritten n) p.servers

endpoint-written :
    (n : Network) (p : WrittenPart)
    → IsWrittenPart n p
    → endpoint n n.ip_any (p.host ++ 58 ∷ write_number p.port) ≡ meant_address n p
unfolding endpoint endpoint_at
endpoint-written n p v =
    let number = write_number p.port in
    let line = p.host ++ 58 ∷ number in
    let e =
      skip_while-begins is_blank line (begins-append is_blank p.host 58 number v.solid refl) in
    let f = word-append ends_host p.host 58 number v.plain refl in
    let g = after_word-append ends_host p.host 58 number v.plain refl in
    let port = ap to_port (atoi-end p.port) in
    let fits : p.port % 65536 ≡ p.port = let h = v.fits in omega arith in
    rw (e, g, f, port, fits) refl

abbrev opened : AppConfig → BindAddress → AppConfig
opened c a = if a.src_port == 0 then c else record c {
  bind = c.bind ++ record { address = a ∷ []; dst = []; tasks = []; filter = [] } ∷ [];
}

bind_line-written :
    (n : Network) (p : WrittenPart) (c : AppConfig)
    → IsWrittenPart n p
    → bind_line n (p.host ++ 58 ∷ write_number p.port) c
      ≡ record c { bind = c.bind ++ record (meant_part n p) { dst = [] } ∷ [] }
unfolding bind_line
bind_line-written n p c v =
    let port : p.port == 0 ≡ false = let h = v.port in ground (arith, h) in
    ap (opened c) (endpoint-written n p v) ∙ rw port refl

bind-written :
    (n : Network) (k : Calendar) (p : WrittenPart) (c : AppConfig)
    → IsWrittenPart n p
    → process_config_line n k (codes "bind:" ++ (p.host ++ 58 ∷ write_number p.port)) c
      ≡ some (record c { bind = c.bind ++ record (meant_part n p) { dst = [] } ∷ [] })
unfolding process_config_line is_comment binds others
bind-written n k p c v = ap some (bind_line-written n p c v)

-- What is written as a part of a configuration, an address and its servers, is read as exactly this
-- address and these servers, behind what was there: for a name of a host that begins with no blank and
-- has no comma and no colon in it, ports between 1 and 65535, servers whose host is known.
pub process_lines-written :
    (n : Network) (k : ℕ → Calendar) (i : ℕ) (p : WrittenPart) (c : AppConfig)
    → IsWrittenPart n p
    → process_lines n k i (write_part p) c
      ≡ some (record c { bind = c.bind ++ meant_part n p ∷ [] })
unfolding process_lines
process_lines-written n k i p c v =
    let start : BindConf = record (meant_part n p) { dst = [] } in
    let ss = map (meant n) p.servers in
    process_lines-step n k i (codes "bind:" ++ (p.host ++ 58 ∷ write_number p.port))
      (map write_server p.servers) c (record c { bind = c.bind ++ start ∷ [] })
      (bind-written n (k i) p c v)
    ∙ servers-written n k (suc i) p.servers (record c { bind = c.bind ++ start ∷ [] }) v.servers
    ∙ ap (λ bs. some (record c { bind = bs })) (on_last-snoc (adding ss) c.bind start)
