-- ===== src/Program/Examples.antt =====
-- Runs of the program.
use relb.Prelude.{none, ◌≡◌, refl, true, false, some, List, [], ◌∷◌, codes}
use relb.Config.State.{BindConf, set_file_path}
use relb.Config.Examples.{lan, epoch, files, free, unprivileged, found, loaded}
use relb.Bind.Filled.{filled}
use relb.Bind.Execute.{stop_listening}
use relb.Bind.Examples.{noting, blank, accepted}
use relb.Program.Arguments.{read_arguments}
use relb.Program.Run.{served, main}
use relb.Program.Order.{read_arguments-configfile, main-ends}

read_arguments-configfile_example :
    let late = read_arguments found (codes "configfile" ∷ codes "a" ∷ codes "console" ∷ []) in
    let early =
      read_arguments found
        (codes "console" ∷ codes "configfile" ∷ codes "a" ∷ codes "console" ∷ []) in
    (late.console ≡ false)
    × (late.should_exit ≡ false)
    × (late.config ≡ set_file_path (codes "a") found)
    × (early.console ≡ true)
    × (early.should_exit ≡ false)
    × (early.config ≡ set_file_path (codes "a") found)
read_arguments-configfile_example =
    read_arguments-configfile found (codes "a") (codes "console" ∷ [])

main-ends_example :
    let run = main lan (λ i. epoch) files free unprivileged noting found in
    (p : BindConf) × (ps : List BindConf) × (loaded.bind ≡ p ∷ ps)
    × (run [] (codes "qxy") blank
        ≡ some (served (stop_listening (filled lan noting loaded p blank)) (codes "qxy")))
    × (run (codes "console" ∷ []) (codes "qxy") blank
        ≡ some (served (stop_listening (filled lan noting loaded p blank)) (codes "y")))
    × (run (codes "console" ∷ []) (codes "q") blank ≡ none)
main-ends_example =
    main-ends lan (λ i. epoch) files free unprivileged noting found loaded [] (codes "console" ∷ [])
      (codes "q") (codes "y") blank (unfold read_arguments in refl) (unfold read_arguments in refl)
      (unfold read_arguments in refl) (unfold read_arguments in refl)
      (unfold read_arguments in refl) (unfold read_arguments in (refl, refl))
      (unfold read_arguments in accepted) (refl, tt)
