-- ===== src/Config/Rules.antt =====
-- The tag filter: of `processConfigLine` (src/AppConfig.cpp).
use relb.Prelude.{
  ℕ, ◌+◌, Bool, true, not, ◌&&◌, ◌||◌, List, [], ◌∷◌, ◌++◌, length, ◌==◌, ltb, if◌then◌else◌,
  skip_while, word, after_word, past, starts, codes, is_blank,
}
use Prim.Native.Nat.{◌^◌}
use relb.Prelude.Int.{ℤ, pos, pos_part, sub_ℕ, ltb_ℤ, ◌-ℤ◌}
use relb.Address.{IpAddress, same_ip}
use relb.Filters.{FilterInfo}
use relb.Parse.{atoi}
use relb.Config.State.{AppConfig, Network, on_last}

-- The octet of a mask whose first bit is the one behind `low` others: `mask_number > low + 7`, then
-- `mask_number < low + 1`, which the first octet does not test.
abbrev pub mask_octet : ℤ → ℕ → ℤ
mask_octet m low =
    if ltb_ℤ (pos (low + 7)) m
    then pos 255
    else if not (low == 0) && ltb_ℤ m (pos (low + 1))
    then pos 0
    else sub_ℕ 256 (2 ^ pos_part (pos (low + 8) -ℤ m))

unfoldable pub netmask : Network → ℤ → IpAddress
netmask n m = record {
  a = n.octet (mask_octet m 0);
  b = n.octet (mask_octet m 8);
  c = n.octet (mask_octet m 16);
  d = n.octet (mask_octet m 24);
}

-- More than two characters are an address, fewer the number of bits.
unfoldable pub mask_of : Network → (ℕ → Bool) → List ℕ → IpAddress
unfolding netmask atoi
mask_of n stop text =
    let written = word stop text in
    if ltb 2 (length written) then n.host written else netmask n (atoi text)

abbrev pub ends_part : ℕ → Bool
ends_part c = c == b'/' || c == 32

-- Denied only by the word "deny" behind the second mask.
abbrev pub is_allowed : List ℕ → Bool
is_allowed [] = true
is_allowed (c ∷ cs) = not (starts (codes "deny") cs)

unfoldable pub rule_of : Network → List ℕ → FilterInfo
unfolding mask_of
rule_of n line =
    let src = skip_while is_blank line in
    let src_mask = past (after_word ends_part src) in
    let dst = past (after_word ends_part src_mask) in
    let dst_mask = past (after_word ends_part dst) in
    record {
      src_ip = n.host (word ends_part src);
      src_mask = mask_of n ends_part src_mask;
      dst_ip = n.host (word ends_part dst);
      dst_mask = mask_of n is_blank dst_mask;
      allow = is_allowed (after_word is_blank dst_mask);
    }

unfoldable pub filter_line : Network → List ℕ → AppConfig → AppConfig
unfolding rule_of on_last
filter_line n line c =
    let f = rule_of n line in
    if same_ip f.src_ip n.ip_none || same_ip f.dst_ip n.ip_none
    then c
    else record c { bind = on_last (λ b. record b { filter = b.filter ++ f ∷ [] }) c.bind }
