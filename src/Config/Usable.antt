-- ===== src/Config/Usable.antt =====
-- A configuration that the program can work with (src/AppConfig.h), and what its changes keep of it.
use relb.Prelude.{
  ℕ, ◌+◌, ◌<◌, ◌≡◌, ◌≢◌, refl, Bool, true, false, ◌||◌, skip_while, after_word, is_blank, List, [],
  ◌∷◌, ◌==◌, if◌then◌else◌, if_cases, arith, All, length,
}
use relb.Prelude.Int.{ℤ, pos, negsuc, pos_part, neg_part, ltb_ℤ}
use relb.Address.{IpAddress, same_ip}
use relb.Filters.{FilterInfo}
use relb.Parse.{atoi}
use relb.Config.State.{BindAddress, DstConf, TaskConf, BindConf, AppConfig, Network, on_last}
use relb.Config.Endpoint.{ends_host, endpoint_at, endpoint, to_port}
use relb.Config.Servers.{or_default}

-- A port that can be bound.
abbrev pub IsPort : ℕ → Type 0
IsPort p = (p ≢ 0) × (p < 65536)

abbrev pub IsNonzero : ℤ → Type 0
IsNonzero x = pos_part x + neg_part x ≢ 0

module _ (n : Network) where
  abbrev pub IsKnown : IpAddress → Type 0
  IsKnown ip = same_ip ip n.ip_none ≡ false

  abbrev pub IsAddress : BindAddress → Type 0
  IsAddress a = IsPort a.src_port

  abbrev pub IsServer : DstConf → Type 0
  IsServer s = IsKnown s.dst_ip × IsPort s.dst_port

  abbrev pub IsRule : FilterInfo → Type 0
  IsRule f = IsKnown f.src_ip × IsKnown f.dst_ip

  -- A task that runs at no fixed times has a positive interval.
  abbrev pub IsTask : TaskConf → Type 0
  IsTask t = t.fixed_time || ltb_ℤ (pos 0) t.run_interval_seconds ≡ true

  pub record IsPart (b : BindConf) : Type 0 where
    pub listens : length b.address ≢ 0
    pub addresses : All IsAddress b.address
    pub servers : All IsServer b.dst
    pub tasks : All IsTask b.tasks
    pub rules : All IsRule b.filter

  -- 0 is no number of seconds to wait, and no number of connections.
  pub record IsConfig (c : AppConfig) : Type 0 where
    pub parts : All IsPart c.bind
    pub admin : IsPort c.http_admin_port
    pub retry : IsNonzero c.minimum_server_reconnection_time
    pub threads : IsNonzero c.connections_per_thread

  pub to_port-lt : (x : ℤ) → to_port x < 65536
  to_port-lt (pos m) = ground arith
  to_port-lt (negsuc m) = ground arith

  endpoint_at-lt :
      (other : IpAddress) (text rest : List ℕ) → (endpoint_at n other text rest).src_port < 65536
  unfolding endpoint_at
  endpoint_at-lt other text [] = to_port-lt (atoi text)
  endpoint_at-lt other text (c ∷ cs) =
      if_cases {A = BindAddress} (λ a. a.src_port < 65536) (c == b':') (to_port-lt (atoi cs))
        (to_port-lt (atoi text))

  pub endpoint-lt : (other : IpAddress) (line : List ℕ) → (endpoint n other line).src_port < 65536
  unfolding endpoint
  endpoint-lt other line =
      let text = skip_while is_blank line in endpoint_at-lt other text (after_word ends_host text)

  on_last-All :
      (f : BindConf → BindConf) (bs : List BindConf)
      → ((b : BindConf) → IsPart b → IsPart (f b))
      → All IsPart bs
      → All IsPart (on_last f bs)
  unfolding on_last
  on_last-All f [] h v = tt
  on_last-All f (b ∷ []) h v = (h b v.0, tt)
  on_last-All f (b ∷ c ∷ bs) h v = (v.0, on_last-All f (c ∷ bs) h v.1)

  -- A change of the last part.
  pub change_last :
      (f : BindConf → BindConf) (c : AppConfig)
      → ((b : BindConf) → IsPart b → IsPart (f b))
      → IsConfig c
      → IsConfig (record c { bind = on_last f c.bind })
  change_last f c h v = record {
    parts = on_last-All f c.bind h v.parts;
    admin = v.admin;
    retry = v.retry;
    threads = v.threads;
  }

  pub or_default-IsNonzero : (x : ℤ) (m : ℕ) → m ≢ 0 → IsNonzero (or_default x m)
  or_default-IsNonzero (pos x) m h = ground (arith, h)
  or_default-IsNonzero (negsuc x) m h = ground (arith, h)

  -- A guard that leaves the configuration as it is.
  pub unless :
      (b : Bool) {c d : AppConfig}
      → IsConfig c
      → (b ≡ false → IsConfig d)
      → IsConfig (if b then c else d)
  unless true v f = v
  unless false v f = f refl
