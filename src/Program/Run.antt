-- ===== src/Program/Run.antt =====
-- `main` (src/main.cpp), without the parts for Windows and without what it prints.
use relb.Prelude.{
  given, ℕ, Bool, true, false, Option, none, some, List, [], ◌∷◌, ◌==◌, if◌then◌else◌,
}
use relb.Address.{IpAddress}
use relb.Config.State.{AppConfig, Network, Calendar}
use relb.Config.Lines.{load_config}
use relb.Bind.State.{Services, Bind}
use relb.Bind.Main.{configure}
use relb.Bind.Execute.{stop_listening}
use relb.Program.Arguments.{read_arguments}

-- How the program ends: behind its arguments, without a configuration, or after the object that listens
-- was destroyed, with the keys that were not read.
pub data Ending (S A : Type 0) : Type 0 where
  exited : Ending S A
  not_loaded : Ending S A
  served : Bind S A → List ℕ → Ending S A

-- The keys behind the first 'x'; `none` while there is none.
unfoldable pub wait_for_x : List ℕ → Option (List ℕ)
wait_for_x [] = none
wait_for_x (c ∷ cs) = let more = wait_for_x cs in if c == b'x' then some cs else more

-- In the console the program waits for a key; else it goes on at once. The destructor of `Bind` stops its
-- thread.
unfoldable pub finish_main : {S A : Type 0} → Bool → List ℕ → Bind S A → Option (Ending S A)
unfolding wait_for_x stop_listening
finish_main console keys b =
    if console
    then given (wait_for_x keys) (λ left. some (served (stop_listening b) left))
    else some (served (stop_listening b) keys)

module _ {S A : Type 0} (n : Network) (k : ℕ → Calendar) (files : List ℕ → Option (List (List ℕ)))
    (ip_free : IpAddress → Bool) (port_free : IpAddress → ℕ → Bool) (o : Services S A) where
  unfoldable pub start_main : Bool → List ℕ → Bind S A → AppConfig × Bool → Option (Ending S A)
  unfolding configure finish_main
  start_main console keys memory (d, false) = some not_loaded
  start_main console keys memory (d, true) =
      given (configure n o d memory) λ (e, b). finish_main console keys b

  -- `none` is a fault, or no end.
  unfoldable pub main : AppConfig → List (List ℕ) → List ℕ → Bind S A → Option (Ending S A)
  unfolding read_arguments load_config start_main
  main config words keys memory =
      let a = read_arguments config words in
      if a.should_exit
      then some exited
      else given (load_config n k files ip_free port_free a.config)
          (start_main a.console keys memory)
