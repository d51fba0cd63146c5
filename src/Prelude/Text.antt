-- ===== src/Prelude/Text.antt =====
-- Text as the list of its characters' codes, without the final 0, and the scans over it that the
-- program's parsers share: a pointer into a text is the rest of the text.
use Prim.Native.Nat.{ℕ, zero, suc}
use Prim.Native.Char.{code}
use Prim.Native.String.{String}
use mathlib.Core.Path.{◌≡◌}
use mathlib.Core.Bool.{Bool, true, false, ◌&&◌, ◌||◌}
use mathlib.Core.List.{List, [], ◌∷◌}
use relb.Prelude.Tests.{◌==◌, if◌then◌else◌}

abbrev pub codes : String → List ℕ
codes String.[] = []
codes (String.◌∷◌ c s) = code c ∷ codes s

-- `strncmp( s, tag, strlen( tag ) ) == 0`.
abbrev pub starts : List ℕ → List ℕ → Bool
starts [] s = true
starts (t ∷ ts) [] = false
starts (t ∷ ts) (c ∷ cs) = c == t && starts ts cs

-- `strcmp( s, t ) == 0`.
abbrev pub same_text : List ℕ → List ℕ → Bool
same_text [] [] = true
same_text (x ∷ xs) (y ∷ ys) = x == y && same_text xs ys
same_text _ _ = false

abbrev pub drop : ℕ → List ℕ → List ℕ
drop zero s = s
drop (suc n) [] = []
drop (suc n) (c ∷ cs) = drop n cs

-- `while( test( *s ) ) s++`.
abbrev pub skip_while : (ℕ → Bool) → List ℕ → List ℕ
skip_while test [] = []
skip_while test (c ∷ cs) = let more = skip_while test cs in if test c then more else c ∷ cs

-- The text up to a character that ends it, or up to the end.
abbrev pub word : (ℕ → Bool) → List ℕ → List ℕ
word stop [] = []
word stop (c ∷ cs) = let more = c ∷ word stop cs in if stop c then [] else more

-- What is left behind that text.
abbrev pub after_word : (ℕ → Bool) → List ℕ → List ℕ
after_word stop [] = []
after_word stop (c ∷ cs) = let more = after_word stop cs in if stop c then c ∷ cs else more

-- `if( *s ) s++`.
abbrev pub past : List ℕ → List ℕ
past [] = []
past (c ∷ cs) = cs

abbrev pub is_blank : ℕ → Bool
is_blank c = c == 32 || c == 9

abbrev pub is_space : ℕ → Bool
is_space c = c == 32

-- None of the characters ends a word.
abbrev pub Free : (ℕ → Bool) → List ℕ → Type 0
Free stop [] = Unit {0}
Free stop (c ∷ cs) = (stop c ≡ false) × Free stop cs
