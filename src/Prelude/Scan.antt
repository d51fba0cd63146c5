-- ===== src/Prelude/Scan.antt =====
-- The scans of Prelude/Text over a text that is made of a word and what stands behind it.
use Prim.Native.Nat.{ℕ}
use mathlib.Core.Path.{◌≡◌, refl}
use mathlib.Core.Bool.{Bool, true, false}
use mathlib.Core.List.{List, [], ◌∷◌, ◌++◌}
use native.Mathlib.Omega.{arith}
use relb.Prelude.Text.{word, after_word, skip_while, Free}

-- The first character.
abbrev pub begins : (ℕ → Bool) → List ℕ → Bool
begins test [] = false
begins test (c ∷ cs) = test c

module _ (stop : ℕ → Bool) where
  pub word-append :
      (w : List ℕ) (d : ℕ) (rest : List ℕ)
      → Free stop w
      → stop d ≡ true
      → word stop (w ++ d ∷ rest) ≡ w
  word-append [] d rest f h = ground (arith, h)
  word-append (c ∷ cs) d rest f h = ground (arith, f.0, word-append cs d rest f.1 h)

  pub after_word-append :
      (w : List ℕ) (d : ℕ) (rest : List ℕ)
      → Free stop w
      → stop d ≡ true
      → after_word stop (w ++ d ∷ rest) ≡ d ∷ rest
  after_word-append [] d rest f h = ground (arith, h)
  after_word-append (c ∷ cs) d rest f h = ground (arith, f.0, after_word-append cs d rest f.1 h)

pub skip_while-begins :
    (test : ℕ → Bool) (s : List ℕ) → begins test s ≡ false → skip_while test s ≡ s
skip_while-begins test [] h = refl
skip_while-begins test (c ∷ cs) h = ground (arith, h)
