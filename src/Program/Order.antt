-- ===== src/Program/Order.antt =====
-- What the arguments of the program do (`main` of src/main.cpp).
use relb.Prelude.{
  given, ℕ, ◌≡◌, refl, ap, Bool, true, false, Option, none, some, List, [], ◌∷◌, ◌++◌, ◌∙◌, ◌==◌,
  Free, codes,
}
use relb.Address.{IpAddress}
use relb.Config.State.{AppConfig, Network, Calendar, BindConf, set_file_path}
use relb.Config.Lines.{load_config}
use relb.Config.Start.{IsAtStart}
use relb.Bind.State.{Services, Bind}
use relb.Bind.Main.{configure}
use relb.Bind.Filled.{filled, bind_of}
use relb.Bind.Composed.{configure-load_config}
use relb.Bind.Execute.{stop_listening}
use relb.Program.Arguments.{read_arguments}
use relb.Program.Run.{Ending, served, wait_for_x, finish_main, start_main, main}

-- What stands behind the path of the configuration is not read, so that "console" counts before it
-- only; the path is taken in both cases.
pub read_arguments-configfile :
    (c : AppConfig) (path : List ℕ) (rest : List (List ℕ))
    → let late = read_arguments c (codes "configfile" ∷ path ∷ rest) in
      let early = read_arguments c (codes "console" ∷ codes "configfile" ∷ path ∷ rest) in
      (late.console ≡ false)
      × (late.should_exit ≡ false)
      × (late.config ≡ set_file_path path c)
      × (early.console ≡ true)
      × (early.should_exit ≡ false)
      × (early.config ≡ set_file_path path c)
unfolding read_arguments
read_arguments-configfile c path [] = (refl, refl, refl, refl, refl, refl)
read_arguments-configfile c path (r ∷ rest) = (refl, refl, refl, refl, refl, refl)

wait_for_x-append :
    (before left : List ℕ)
    → Free (λ c. c == b'x') before
    → wait_for_x (before ++ b'x' ∷ left) ≡ some left
unfolding wait_for_x
wait_for_x-append [] left v = refl
wait_for_x-append (c ∷ before) left (h, v) = rw h (wait_for_x-append before left v)

wait_for_x-none : (keys : List ℕ) → Free (λ c. c == b'x') keys → wait_for_x keys ≡ none
unfolding wait_for_x
wait_for_x-none [] v = refl
wait_for_x-none (c ∷ keys) (h, v) = rw h (wait_for_x-none keys v)

module _ {S A : Type 0} (n : Network) (k : ℕ → Calendar) (files : List ℕ → Option (List (List ℕ)))
    (ip_free : IpAddress → Bool) (port_free : IpAddress → ℕ → Bool) (o : Services S A) where
  given-bind_of :
      {T : Type 0} (m : Option (AppConfig × Bind S A)) (b : Bind S A) (f : Bind S A → Option T)
      → bind_of n o m ≡ some b
      → given m (λ (e, c). f c) ≡ f b
  given-bind_of none b f h = cc
  given-bind_of (some (e, c)) b f h = ap f (cc h)

  -- When the configuration is loaded and accepted, the program fills the object that listens with
  -- its first part, starts it, and at its end destroys it, which tells its thread to end. Without
  -- "console" it does so at once and reads no key. With it, it ends behind the first 'x' and reads
  -- no key after it, and does not end while there is none.
  pub main-ends :
      (config d : AppConfig) (words loud : List (List ℕ)) (before left : List ℕ) (memory : Bind S A)
      → (read_arguments config words).should_exit ≡ false
      → (read_arguments config words).console ≡ false
      → (read_arguments config loud).should_exit ≡ false
      → (read_arguments config loud).console ≡ true
      → (read_arguments config loud).config ≡ (read_arguments config words).config
      → IsAtStart (read_arguments config words).config
      → load_config n k files ip_free port_free (read_arguments config words).config
        ≡ some (d, true)
      → Free (λ c. c == b'x') before
      → let run = main n k files ip_free port_free o config in
        let keys = before ++ b'x' ∷ left in
        (p : BindConf) × (ps : List BindConf) × (d.bind ≡ p ∷ ps)
        × (run words keys memory ≡ some (served (stop_listening (filled n o d p memory)) keys))
        × (run loud keys memory ≡ some (served (stop_listening (filled n o d p memory)) left))
        × (run loud before memory ≡ none)
  unfolding main start_main finish_main
  main-ends config d words loud before left memory goes quiet goes' console same at_start loaded v =
      let (p, ps, e, f) =
        configure-load_config ip_free port_free n k files o (read_arguments config words).config d
          memory at_start loaded in
      let step = λ (g : Bind S A → Option (Ending S A)).
        given-bind_of (configure n o d memory) (filled n o d p memory) g f in
      (
        p,
        ps,
        e,
        rw (goes, loaded, quiet) (step _),
        rw (goes', same, loaded, console) (step _ ∙ rw (wait_for_x-append before left v) refl),
        rw (goes', same, loaded, console) (step _ ∙ rw (wait_for_x-none before v) refl),
      )
