-- ===== src/Config/Lines.antt =====
-- `processConfigLine`, `loadFile`, `loadConfig` and `checkConfig` (src/AppConfig.cpp).
use relb.Prelude.{
  ℕ, suc, Bool, true, false, ◌&&◌, ◌||◌, Option, none, some, List, [], ◌∷◌, ◌==◌, length, take,
  if◌then◌else◌, starts, drop, codes,
}
use relb.Address.{IpAddress}
use relb.Config.State.{
  BindAddress, BindConf, AppConfig, Network, Calendar, set_default_values, set_file_path,
}
use relb.Config.Endpoint.{bind_line, alsobind_line, admin_line}
use relb.Config.Servers.{server_line, retry_line, threads_line}
use relb.Config.Rules.{filter_line}
use relb.Config.Tasks.{task_line}

unfoldable pub is_comment : List ℕ → Bool
is_comment [] = false
is_comment (c ∷ cs) = c == b'/' || (c == b';' || c == b'#')

-- The handler of one tag, in the sequence of tests.
abbrev pub on_tag : List ℕ → (List ℕ → AppConfig → AppConfig) → List ℕ → AppConfig → AppConfig
on_tag tag handler line c = if starts tag line then handler (drop (length tag) line) c else c

module _ (n : Network) (k : Calendar) where
  -- bind: and alsobind: share a branch, so that a line has at most one of them.
  unfoldable pub binds : List ℕ → AppConfig → AppConfig
  unfolding bind_line alsobind_line
  binds line c =
      if starts (codes "alsobind:") line
      then alsobind_line n (drop 9 line) c
      else on_tag (codes "bind:") (bind_line n) line c

  unfoldable pub others : List ℕ → AppConfig → AppConfig
  unfolding retry_line filter_line admin_line task_line threads_line
  others line c = on_tag (codes "conperthread:") threads_line line (
      on_tag (codes "task:") (task_line k) line (
        on_tag (codes "admin:") (admin_line n) line (
          on_tag (codes "filter:") (filter_line n) line
            (on_tag (codes "retryserver:") retry_line line c))))

  -- `none` is the fault of the tag server:.
  unfoldable pub process_config_line : List ℕ → AppConfig → Option AppConfig
  unfolding is_comment binds others server_line
  process_config_line line c =
      let bound = binds line c in
      let served =
        if starts (codes "server:") line then server_line n (drop 7 line) bound else some bound in
      if is_comment line
      then some c
      else elim served [ none ↦ none | some d ↦ some (others line d) ]

unfoldable pub process_lines :
    Network → (ℕ → Calendar) → ℕ → List (List ℕ) → AppConfig → Option AppConfig
unfolding process_config_line
process_lines n k i [] c = some c
process_lines n k i (l ∷ ls) c = elim (process_config_line n (k i) l c) [
  | none ↦ none
  | some d ↦ process_lines n k (suc i) ls d
]

-- `loadFile` on what the file system has at a path: the lines, or nothing that can be opened. At most
-- 4000 lines are read. The outer `none` is a fault.
abbrev pub all_read : Option AppConfig → Option (AppConfig × Bool)
all_read none = none
all_read (some d) = some (d, true)

unfoldable pub load_opened :
    Network → (ℕ → Calendar) → AppConfig → Option (List (List ℕ)) → Option (AppConfig × Bool)
unfolding set_default_values process_lines
load_opened n k c none = some (set_default_values n c, false)
load_opened n k c (some lines) = all_read (process_lines n k 0 (take 4000 lines) c)

unfoldable pub load_file :
    Network
    → (ℕ → Calendar)
    → (List ℕ → Option (List (List ℕ)))
    → AppConfig
    → Option (AppConfig × Bool)
unfolding set_default_values load_opened
load_file n k files c = load_opened n k (set_default_values n c) (files c.configfile)

-- The two tests of an address, by what the system answers.
abbrev pub can_bind : (IpAddress → Bool) → (IpAddress → ℕ → Bool) → IpAddress → ℕ → Bool
can_bind ip_free port_free ip port = ip_free ip && port_free ip port

module _ (ip_free : IpAddress → Bool) (port_free : IpAddress → ℕ → Bool) where
  unfoldable pub check_addresses : List BindAddress → Bool → Bool
  check_addresses [] val = val
  check_addresses (a ∷ rest) val =
      check_addresses rest (if can_bind ip_free port_free a.src_ip a.src_port then val else false)

  -- One round of the loop over the parts, and the loop, which ends at the first part that fails.
  unfoldable pub check_part : BindConf → Bool
  unfolding check_addresses
  check_part b =
      let addresses = if length b.address == 0 then false else check_addresses b.address true in
      if length b.dst == 0 then false else addresses

  unfoldable pub check_parts : List BindConf → Bool → Bool
  unfolding check_part
  check_parts [] val = val
  check_parts (b ∷ bs) val = let rest = check_parts bs (check_part b) in if val then rest else false

  unfoldable pub check_config : AppConfig → Bool
  unfolding check_parts
  check_config c =
      let admin =
        if c.http_admin_enabled
        then can_bind ip_free port_free c.http_admin_ip c.http_admin_port
        else true in
      check_parts c.bind (if length c.bind == 0 then false else admin)

-- `loadConfig`: the file that was set; or the one in the working path, then the one in /etc.
module _ (n : Network) (k : ℕ → Calendar) (files : List ℕ → Option (List (List ℕ))) where
  abbrev pub or_etc : Option (AppConfig × Bool) → Option (AppConfig × Bool)
  or_etc none = none
  or_etc (some (d, true)) = some (d, true)
  or_etc (some (d, false)) = load_file n k files (set_file_path (codes "/etc/relb.conf") d)

  abbrev pub load_default : AppConfig → Option (AppConfig × Bool)
  load_default c = or_etc (load_file n k files (set_file_path (codes "relb.conf") c))

  module _ (ip_free : IpAddress → Bool) (port_free : IpAddress → ℕ → Bool) where
    abbrev pub checked : Option (AppConfig × Bool) → Option (AppConfig × Bool)
    checked none = none
    checked (some (c, loaded)) =
        some (c, if loaded then check_config ip_free port_free c else false)

    unfoldable pub load_config : AppConfig → Option (AppConfig × Bool)
    unfolding load_file check_config
    load_config c =
        checked (if length c.configfile == 0 then load_default c else load_file n k files c)
