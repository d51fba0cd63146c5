-- ===== src/Config/Written.antt =====
-- Servers in writing, as the tag server: of `processConfigLine` (src/AppConfig.cpp) reads them.
use relb.Prelude.{
  ℕ, ◌%◌, ◌<◌, ◌≡◌, ◌≢◌, refl, ap, ◌∙◌, Bool, false, ◌||◌, some, List, [], ◌∷◌, ◌++◌, ◌==◌,
  if◌then◌else◌, arith, codes, Free, begins, after_word, past, is_blank, same_text, word-append,
  after_word-append, skip_while-begins,
}
use relb.Prelude.Int.{pos}
use relb.Address.{same_ip}
use relb.Config.State.{DstConf, AppConfig, Network, Calendar, on_last}
use relb.Config.Endpoint.{to_port, ends_host}
use relb.Config.Servers.{ends_number, server_of, add_server, server_named, server_line}
use relb.Config.Lines.{is_comment, binds, others, process_config_line}
use relb.Config.Decimal.{
  write_number, write_number-IsNumber, write_number-cons, atoi-comma, atoi-end, IsNumber-Free,
}

-- A server as a person writes it: host:port,weight,limit.
pub record Written : Type 0 where
  pub name : List ℕ
  pub port : ℕ
  pub weight : ℕ
  pub limit : ℕ

abbrev write_numbers : Written → List ℕ
write_numbers w = write_number w.port ++ 44 ∷ (write_number w.weight ++ 44 ∷ write_number w.limit)

abbrev pub write_server : Written → List ℕ
write_server w = codes "server:" ++ (w.name ++ 58 ∷ write_numbers w)

-- The entry that it stands for.
abbrev pub meant : Network → Written → DstConf
meant n w = record {
  host_name = (if same_text w.name (n.show (n.host w.name)) then [] else w.name);
  dst_ip = n.host w.name;
  dst_port = w.port;
  weight = pos w.weight;
  max_connections = pos w.limit;
}

-- A host that is known, whose name has no comma and no colon and does not begin with a blank, and a
-- port.
pub record IsWritten (n : Network) (w : Written) : Type 0 where
  pub plain : Free ends_host w.name
  pub solid : begins is_blank w.name ≡ false
  pub known : same_ip (n.host w.name) n.ip_none ≡ false
  pub port : w.port ≢ 0
  pub fits : w.port < 65536

-- Behind a number.
past-number :
    (m : ℕ) (rest : List ℕ)
    → past (after_word ends_number (past (write_number m ++ 44 ∷ rest))) ≡ rest
past-number m rest =
    let (d, ds, e, v) = write_number-cons m in
    rw e (ap past (after_word-append ends_number ds 44 rest (IsNumber-Free ds v) refl))

after-number :
    (m : ℕ) (rest : List ℕ) → past (after_word ends_number (write_number m ++ 44 ∷ rest)) ≡ rest
after-number m rest = ap past (
    after_word-append ends_number (write_number m) 44 rest
      (IsNumber-Free (write_number m) (write_number-IsNumber m)) refl)

pub begins-append :
    (test : ℕ → Bool) (s : List ℕ) (d : ℕ) (rest : List ℕ)
    → begins test s ≡ false
    → test d ≡ false
    → begins test (s ++ d ∷ rest) ≡ false
begins-append test [] d rest h e = e
begins-append test (c ∷ cs) d rest h e = h

server_of-meant :
    (n : Network) (w : Written) → IsWritten n w → server_of n w.name (write_numbers w) ≡ meant n w
unfolding server_of
server_of-meant n w v =
    let port =
      ap to_port (atoi-comma w.port (write_number w.weight ++ 44 ∷ write_number w.limit)) in
    let fits : w.port % 65536 ≡ w.port = let h = v.fits in omega arith in
    let e = past-number w.port (write_number w.weight ++ 44 ∷ write_number w.limit) in
    let f = after-number w.weight (write_number w.limit) in
    rw (port, fits, e, f, atoi-comma w.weight (write_number w.limit), atoi-end w.limit) refl

-- The entry at the end of the last part.
abbrev pub with_servers : List DstConf → AppConfig → AppConfig
with_servers ss c = record c { bind = on_last (λ b. record b { dst = b.dst ++ ss }) c.bind }

abbrev accept : Network → AppConfig → DstConf → AppConfig
accept n c s = if same_ip s.dst_ip n.ip_none || s.dst_port == 0 then c else with_servers (s ∷ []) c

add_server-meant :
    (n : Network) (w : Written) (c : AppConfig)
    → IsWritten n w
    → add_server n w.name (write_numbers w) c ≡ with_servers (meant n w ∷ []) c
unfolding add_server
add_server-meant n w c v =
    let port : w.port == 0 ≡ false = let h = v.port in ground (arith, h) in
    ap (accept n c) (server_of-meant n w v) ∙ rw (v.known, port) refl

server_line-written :
    (n : Network) (w : Written) (c : AppConfig)
    → IsWritten n w
    → server_line n (w.name ++ 58 ∷ write_numbers w) c ≡ some (with_servers (meant n w ∷ []) c)
unfolding server_line server_named
server_line-written n w c v =
    let line = w.name ++ 58 ∷ write_numbers w in
    let e =
      skip_while-begins is_blank line
        (begins-append is_blank w.name 58 (write_numbers w) v.solid refl) in
    let f = word-append ends_host w.name 58 (write_numbers w) v.plain refl in
    let g = after_word-append ends_host w.name 58 (write_numbers w) v.plain refl in
    rw (e, f, g) (ap some (add_server-meant n w c v))

pub process_config_line-written :
    (n : Network) (k : Calendar) (w : Written) (c : AppConfig)
    → IsWritten n w
    → process_config_line n k (write_server w) c ≡ some (with_servers (meant n w ∷ []) c)
unfolding process_config_line is_comment binds others
process_config_line-written n k w c v = rw (server_line-written n w c v) refl
