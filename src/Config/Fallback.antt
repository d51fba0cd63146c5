-- ===== src/Config/Fallback.antt =====
-- Where `loadConfig` (src/AppConfig.cpp) looks for a configuration, and when it accepts one.
use relb.Prelude.{
  ℕ, Bool, true, false, not, ◌&&◌, ◌||◌, Option, none, some, is_some, List, [], ◌∷◌, ◌≡◌, refl, ap,
  sym, ◌∙◌, take, codes, if◌then◌else◌, length, ◌==◌, arith,
}
use relb.Address.{IpAddress}
use relb.Config.State.{
  BindAddress, BindConf, AppConfig, Network, Calendar, set_default_values, set_file_path,
}
use relb.Config.Lines.{
  can_bind, check_addresses, check_part, check_parts, check_config, process_lines, all_read,
  checked, or_etc, load_opened, load_file, load_default, load_config,
}

abbrev pub all {ℓ} : {A : Type ℓ} → (A → Bool) → List A → Bool
all test [] = true
all test (x ∷ xs) = test x && all test xs

module _ (ip_free : IpAddress → Bool) (port_free : IpAddress → ℕ → Bool) where
  abbrev pub is_free : BindAddress → Bool
  is_free a = ip_free a.src_ip && port_free a.src_ip a.src_port

  -- A part that can be served.
  abbrev pub is_usable : BindConf → Bool
  is_usable b = all is_free b.address && (not (length b.address == 0) && not (length b.dst == 0))

  addresses_lem :
      (rest : List BindAddress) (v : Bool)
      → check_addresses ip_free port_free rest v ≡ v && all is_free rest
  unfolding check_addresses
  addresses_lem [] true = refl
  addresses_lem [] false = refl
  addresses_lem (a ∷ rest) v = ground (arith, addresses_lem rest v, addresses_lem rest false)

  part_lem : (b : BindConf) → check_part ip_free port_free b ≡ is_usable b
  unfolding check_part
  part_lem b = ground (arith, addresses_lem b.address true)

  parts_lem :
      (bs : List BindConf) (v : Bool) → check_parts ip_free port_free bs v ≡ v && all is_usable bs
  unfolding check_parts
  parts_lem [] true = refl
  parts_lem [] false = refl
  parts_lem (b ∷ bs) true =
      ground (arith, part_lem b, parts_lem bs (check_part ip_free port_free b))
  parts_lem (b ∷ bs) false = refl

  -- A configuration is accepted exactly if there is a part, each part has an address and a server and
  -- all its addresses can be bound, and the address of the administration can, if that is enabled.
  pub check_config-accepts :
      (c : AppConfig)
      → check_config ip_free port_free c
        ≡ (not c.http_admin_enabled || can_bind ip_free port_free c.http_admin_ip c.http_admin_port)
          && (not (length c.bind == 0) && all is_usable c.bind)
  unfolding check_config
  check_config-accepts c = ground (arith, parts_lem c.bind true, parts_lem c.bind false)

abbrev pub working_path : List ℕ
working_path = codes "relb.conf"

abbrev pub default_path : List ℕ
default_path = codes "/etc/relb.conf"

module _ (n : Network) (k : ℕ → Calendar) (files : List ℕ → Option (List (List ℕ))) where
  or_etc-all_read : (o : Option AppConfig) → or_etc n k files (all_read o) ≡ all_read o
  or_etc-all_read none = refl
  or_etc-all_read (some d) = refl

  or_etc-opened :
      (c : AppConfig) (file : Option (List (List ℕ)))
      → or_etc n k files
          (load_opened n k (set_default_values n (set_file_path working_path c)) file)
        ≡ (if is_some file
            then load_opened n k (set_default_values n (set_file_path working_path c)) file
            else load_file n k files (set_file_path default_path c))
  unfolding load_opened load_file set_default_values set_file_path
  or_etc-opened c none = refl
  or_etc-opened c (some lines) =
      or_etc-all_read (
        process_lines n k 0 (take 4000 lines) (set_default_values n (set_file_path working_path c)))

  load_if :
      (b : Bool) (p q : List ℕ) (c : AppConfig)
      → (if b
          then load_file n k files (set_file_path p c)
          else load_file n k files (set_file_path q c))
        ≡ load_file n k files (set_file_path (if b then p else q) c)
  load_if true p q c = refl
  load_if false p q c = refl

  load_default_lem :
      (c : AppConfig)
      → load_default n k files c
        ≡ load_file n k files
            (set_file_path (if is_some (files working_path) then working_path else default_path) c)
  unfolding load_file set_file_path
  load_default_lem c =
      or_etc-opened c (files working_path)
      ∙ load_if (is_some (files working_path)) working_path default_path c

  module _ (ip_free : IpAddress → Bool) (port_free : IpAddress → ℕ → Bool) where
    load_config-default :
        (c : AppConfig)
        → c.configfile ≡ []
        → load_config n k files ip_free port_free c
          ≡ checked n k files ip_free port_free (load_default n k files c)
    unfolding load_config
    load_config-default c h = rw h refl

    load_config-set :
        (b : Bool) (c : AppConfig)
        → load_config n k files ip_free port_free
            (set_file_path (if b then working_path else default_path) c)
          ≡ checked n k files ip_free port_free
              (load_file n k files (set_file_path (if b then working_path else default_path) c))
    unfolding load_config set_file_path
    load_config-set true c = refl
    load_config-set false c = refl

    -- Without a path that was set, the file in the working path is loaded if it can be opened, and the
    -- one in /etc if not.
    load_config-fallback :
        (c : AppConfig)
        → c.configfile ≡ []
        → load_config n k files ip_free port_free c
          ≡ load_config n k files ip_free port_free (
              set_file_path (if is_some (files working_path) then working_path else default_path) c)
    load_config-fallback c h =
        load_config-default c h
        ∙ ap (checked n k files ip_free port_free) (load_default_lem c)
        ∙ sym (load_config-set (is_some (files working_path)) c)
