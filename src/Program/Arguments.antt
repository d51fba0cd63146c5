-- ===== src/Program/Arguments.antt =====
-- The arguments of the program (`main` of src/main.cpp, without the parts for Windows).
use relb.Prelude.{ℕ, Bool, true, false, List, [], ◌∷◌, if◌then◌else◌, codes, same_text}
use relb.Config.State.{AppConfig, set_file_path}

-- The argument at `curr_arg` and those behind it, and the variables that the arguments set.
pub record Arguments : Type 0 where
  pub current : List ℕ
  pub behind : List (List ℕ)
  pub should_exit : Bool
  pub console : Bool
  pub config : AppConfig

-- `if( curr_arg + 1 < argc ) curr_arg++`.
unfoldable pub advance : Arguments → Arguments
advance a = elim a.behind [ [] ↦ a | b ∷ bs ↦ record a { current = b; behind = bs } ]

-- An argument that ends the program: to install or remove the service, which only prints a text here,
-- and to show the licence.
unfoldable pub exit_at : List ℕ → Arguments → Arguments
unfolding advance
exit_at word a = if same_text a.current word then record (advance a) { should_exit = true } else a

unfoldable pub console_at : Arguments → Arguments
unfolding advance
console_at a =
    if same_text a.current (codes "console") then record (advance a) { console = true } else a

-- The path stands behind its word.
unfoldable pub take_path : Arguments → Arguments
unfolding advance set_file_path
take_path a = elim a.behind [
  | [] ↦ a
  | path ∷ rest ↦
      advance (record a { current = path; behind = rest; config = set_file_path path a.config })
]

unfoldable pub path_at : Arguments → Arguments
unfolding take_path
path_at a = if same_text a.current (codes "configfile") then take_path a else a

-- `config` is the object that the constructor made.
unfoldable pub read_arguments : AppConfig → List (List ℕ) → Arguments
unfolding exit_at console_at path_at
read_arguments config [] = record {
  current = [];
  behind = [];
  should_exit = false;
  console = false;
  config = config;
}
read_arguments config (word ∷ words) = path_at (
    exit_at (codes "license") (
      console_at (
        exit_at (codes "installservice") (
          exit_at (codes "uninstallservice") (record {
            current = word;
            behind = words;
            should_exit = false;
            console = false;
            config = config;
          })))))
