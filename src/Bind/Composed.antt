-- ===== src/Bind/Composed.antt =====
-- From the configuration file to the object that listens: `loadConfig` (src/AppConfig.cpp) and the part
-- of `main` (src/main.cpp) behind it.
use relb.Prelude.{
  ℕ, ◌≡◌, ◌≢◌, refl, sym, ◌∙◌, Bool, true, Option, some, List, [], ◌∷◌, List-cases, inl, inr,
  length, arith,
}
use relb.Address.{IpAddress}
use relb.Config.State.{BindConf, AppConfig, Network, Calendar}
use relb.Config.Lines.{check_config, load_config}
use relb.Config.Fallback.{is_usable, check_config-accepts}
use relb.Config.Kept.{IfSome-elim}
use relb.Config.Start.{IsAtStart, IsAccepted, load_config-IsAccepted}
use relb.Bind.State.{Services, Bind}
use relb.Bind.Main.{configure}
use relb.Bind.Filled.{filled, bind_of, configure-filled}

module _ (ip_free : IpAddress → Bool) (port_free : IpAddress → ℕ → Bool) where
  -- What the check says of the first part.
  first_part :
      (c : AppConfig)
      → check_config ip_free port_free c ≡ true
      → (p : BindConf) × (ps : List BindConf) × (c.bind ≡ p ∷ ps) × (p.address ≢ []) × (p.dst ≢ [])
  first_part c h =
      let accepts = sym (check_config-accepts ip_free port_free c) ∙ h in
      elim (List-cases c.bind) [
        | inl e ↦ absurd (ground (arith, e, accepts))
        | inr (p, ps, e) ↦
            let usable : is_usable ip_free port_free p ≡ true = ground (arith, e, accepts) in
            (
              p,
              ps,
              e,
              (λ z. let l : length p.address ≡ 0 = rw z refl in ground (arith, l, usable)),
              (λ z. let l : length p.dst ≡ 0 = rw z refl in ground (arith, l, usable)),
            )
      ]

  -- When the configuration is loaded and accepted, the loops of `main` fill the object that listens
  -- without a fault with exactly its first part, and it listens.
  pub configure-load_config :
      {S A : Type 0} (n : Network) (k : ℕ → Calendar) (files : List ℕ → Option (List (List ℕ)))
      (o : Services S A) (c d : AppConfig) (memory : Bind S A)
      → IsAtStart c
      → load_config n k files ip_free port_free c ≡ some (d, true)
      → (p : BindConf) × (ps : List BindConf) × (d.bind ≡ p ∷ ps)
        × (bind_of n o (configure n o d memory) ≡ some (filled n o d p memory))
  configure-load_config n k files o c d memory v h =
      let (start, checks) =
        IfSome-elim (IsAccepted n k files ip_free port_free)
          (load_config n k files ip_free port_free c) (d, true) h
          (load_config-IsAccepted n k files ip_free port_free c v) in
      let (p, ps, e, a, s) = first_part d (checks refl) in
      (p, ps, e, configure-filled n o d p ps memory e start.0 start.1 a s)
