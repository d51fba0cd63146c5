-- ===== src/Parse.antt =====
-- Addresses in writing: `char_to_ipaddress` of src/utiles.cpp. A string is the list of its characters'
-- codes, without the final 0.
use relb.Prelude.{
  ℕ, zero, suc, ◌+◌, ◌-◌, ◌*◌, ◌<◌, ◌≡◌, refl, Bool, true, ◌&&◌, ◌||◌, Option, none, some, List, [],
  ◌∷◌, ◌++◌, append-nil, ap, sym, ◌∙◌, get_elem?, ◌==◌, leb, if◌then◌else◌, arith,
}
use relb.Prelude.Int.{ℤ, pos, sub_ℕ}
use relb.Address.{IpAddress}

abbrev pub is_digit : ℕ → Bool
is_digit c = leb 48 c && leb c 57

-- `atoi` of the C library: white space, a sign, and the digits up to another character. The numbers
-- are taken to be in range.
unfoldable pub read_digits : ℕ → List ℕ → ℕ
read_digits n [] = n
read_digits n (c ∷ cs) =
    let more = read_digits (n * 10 + (c - 48)) cs in if is_digit c then more else n

unfoldable pub read_signed : List ℕ → ℤ
unfolding read_digits
read_signed [] = pos 0
read_signed (c ∷ cs) =
    if c == 45
    then sub_ℕ 0 (read_digits 0 cs)
    else if c == 43
    then pos (read_digits 0 cs)
    else pos (read_digits 0 (c ∷ cs))

unfoldable pub atoi : List ℕ → ℤ
unfolding read_signed
atoi [] = pos 0
atoi (c ∷ cs) =
    let more = atoi cs in if c == 32 || (leb 9 c && leb c 13) then more else read_signed (c ∷ cs)

-- The loop: the number behind each point, as long as places are left.
unfoldable pub parts : ℕ → List ℕ → List ℤ
unfolding atoi
parts zero cs = []
parts (suc n) [] = []
parts (suc n) (c ∷ cs) =
    let found = atoi cs ∷ parts n cs in
    let skipped = parts (suc n) cs in if c == 46 then found else skipped

-- A place that is not read stays 0.
abbrev pub part : List ℤ → ℕ → ℤ
part xs i = elim (get_elem? xs i) [ none ↦ pos 0 | some x ↦ x ]

-- `byte` is what the constructor of `ipaddress` makes of an `int`, and `ipnone` a constant (ptypes).
unfoldable pub char_to_ipaddress : (ℤ → ℕ) → IpAddress → Option (List ℕ) → IpAddress
unfolding parts atoi
char_to_ipaddress byte ipnone none = ipnone
char_to_ipaddress byte ipnone (some cs) = record {
  a = byte (atoi cs);
  b = byte (part (parts 3 cs) 0);
  c = byte (part (parts 3 cs) 1);
  d = byte (part (parts 3 cs) 2);
}

-- Digits only.
abbrev pub IsNumber : List ℕ → Type 0
IsNumber [] = Unit {0}
IsNumber (c ∷ cs) = (is_digit c ≡ true) × IsNumber cs

-- Their value, in the decimal system, when they follow the number `n`.
abbrev pub decimal : ℕ → List ℕ → ℕ
decimal n [] = n
decimal n (c ∷ cs) = decimal (n * 10 + (c - 48)) cs

-- Nothing in front of which a number goes on.
pub record IsEnd (rest : List ℕ) : Type 0 where
  pub stops : (n : ℕ) → read_digits n rest ≡ n
  pub empty : atoi rest ≡ pos 0

point-IsEnd : (cs : List ℕ) → IsEnd (46 ∷ cs)
point-IsEnd cs = unfold read_digits atoi read_signed in record { stops = λ n. refl; empty = refl }

pub nil-IsEnd : IsEnd []
nil-IsEnd = unfold read_digits atoi in record { stops = λ n. refl; empty = refl }

read_digits-decimal :
    (n : ℕ) (ds rest : List ℕ)
    → IsNumber ds
    → IsEnd rest
    → read_digits n (ds ++ rest) ≡ decimal n ds
unfolding read_digits
read_digits-decimal n [] rest v e = e.stops n
read_digits-decimal n (c ∷ ds) rest v e =
    ground (arith, v.0, read_digits-decimal (n * 10 + (c - 48)) ds rest v.1 e)

pub atoi-decimal :
    (ds rest : List ℕ) → IsNumber ds → IsEnd rest → atoi (ds ++ rest) ≡ pos (decimal 0 ds)
unfolding atoi read_signed
atoi-decimal [] rest v e = e.empty
atoi-decimal (c ∷ ds) rest v e = ground (arith, v.0, read_digits-decimal 0 (c ∷ ds) rest v e)

parts-number :
    (n : ℕ) (ds rest : List ℕ) → IsNumber ds → parts (suc n) (ds ++ rest) ≡ parts (suc n) rest
unfolding parts
parts-number n [] rest v = refl
parts-number n (c ∷ ds) rest v = ground (arith, v.0, parts-number n ds rest v.1)

parts-point :
    (n : ℕ) (ds rest : List ℕ)
    → IsNumber ds
    → IsEnd rest
    → parts (suc n) (46 ∷ ds ++ rest) ≡ pos (decimal 0 ds) ∷ parts n (ds ++ rest)
unfolding parts
parts-point n ds rest v e = ground (arith, atoi-decimal ds rest v e)

module _ (ws xs ys zs : List ℕ) (v : IsNumber ws) (w : IsNumber xs) (x : IsNumber ys)
    (y : IsNumber zs) where
  -- Four numbers with points between them.
  abbrev dotted : List ℕ
  dotted = ws ++ 46 ∷ (xs ++ 46 ∷ (ys ++ 46 ∷ zs))

  parts-dotted : parts 3 dotted ≡ pos (decimal 0 xs) ∷ pos (decimal 0 ys) ∷ pos (decimal 0 zs) ∷ []
  unfolding parts
  parts-dotted =
      let last : parts 1 (46 ∷ zs) ≡ pos (decimal 0 zs) ∷ [] =
        ap (λ r. parts 1 (46 ∷ r)) (sym (append-nil zs)) ∙ parts-point 0 zs [] y nil-IsEnd in
      parts-number 2 ws (46 ∷ (xs ++ 46 ∷ (ys ++ 46 ∷ zs))) v
      ∙ parts-point 2 xs (46 ∷ (ys ++ 46 ∷ zs)) w (point-IsEnd (ys ++ 46 ∷ zs))
      ∙ ap (◌∷◌ (pos (decimal 0 xs))) (
          parts-number 1 xs (46 ∷ (ys ++ 46 ∷ zs)) w
          ∙ parts-point 1 ys (46 ∷ zs) x (point-IsEnd zs)
          ∙ ap (◌∷◌ (pos (decimal 0 ys))) (parts-number 0 ys (46 ∷ zs) x ∙ last))

  -- Four numbers of decimal digits with points between them, each below 256, are read as the address
  -- of these four numbers, when the constructor of addresses keeps the numbers below 256.
  pub char_to_ipaddress-decimal :
      (byte : ℤ → ℕ) (ipnone : IpAddress)
      → ((n : ℕ) → n < 256 → byte (pos n) ≡ n)
      → decimal 0 ws < 256
      → decimal 0 xs < 256
      → decimal 0 ys < 256
      → decimal 0 zs < 256
      → char_to_ipaddress byte ipnone (some (ws ++ 46 ∷ (xs ++ 46 ∷ (ys ++ 46 ∷ zs))))
        ≡ record { a = decimal 0 ws; b = decimal 0 xs; c = decimal 0 ys; d = decimal 0 zs }
  unfolding char_to_ipaddress
  char_to_ipaddress-decimal byte ipnone keep h k l m = ground (
    arith,
    parts-dotted,
    atoi-decimal ws (46 ∷ (xs ++ 46 ∷ (ys ++ 46 ∷ zs))) v
        (point-IsEnd (xs ++ 46 ∷ (ys ++ 46 ∷ zs))),
    keep (decimal 0 ws) h,
    keep (decimal 0 xs) k,
    keep (decimal 0 ys) l,
    keep (decimal 0 zs) m,
  )
