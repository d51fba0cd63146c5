-- ===== src/Filters.antt =====
-- The filter rules and `ServerList::isServerAllowed` (src/ServerList.cpp).
use relb.Prelude.{
  ◌≡◌, refl, ap, inl, inr, Bool-cases, Bool, true, false, ◌&&◌, List, [], ◌∷◌, ◌++◌, if◌then◌else◌,
  arith,
}
use relb.Address.{IpAddress, same_ip, masked_ip}

pub record FilterInfo : Type 0 where
  pub src_ip : IpAddress
  pub src_mask : IpAddress
  pub dst_ip : IpAddress
  pub dst_mask : IpAddress
  pub allow : Bool

-- Client and server lie in the rule's two networks.
unfoldable pub matches : FilterInfo → IpAddress → IpAddress → Bool
unfolding masked_ip
matches f server client =
    same_ip (masked_ip client f.src_mask) (masked_ip f.src_ip f.src_mask)
    && same_ip (masked_ip server f.dst_mask) (masked_ip f.dst_ip f.dst_mask)

-- The loop stops at the first rule that matches; with none the server is allowed.
unfoldable pub is_server_allowed : List FilterInfo → IpAddress → IpAddress → Bool
is_server_allowed [] server client = true
is_server_allowed (f ∷ fs) server client =
    if matches f server client then f.allow else is_server_allowed fs server client

-- None of the rules speaks of this pair.
abbrev pub NoMatch : List FilterInfo → IpAddress → IpAddress → Type 0
NoMatch [] server client = Unit {0}
NoMatch (f ∷ fs) server client = (matches f server client ≡ false) × NoMatch fs server client

-- The first rule that matches decides, whatever rules follow it.
first_match_decides :
    (before after : List FilterInfo) (f : FilterInfo) (server client : IpAddress)
    → NoMatch before server client
    → matches f server client ≡ true
    → is_server_allowed (before ++ f ∷ after) server client ≡ f.allow
unfolding is_server_allowed
first_match_decides [] after f server client n m = rw m
first_match_decides (g ∷ before) after f server client n m =
    rw (n.0) (first_match_decides before after f server client n.1 m)

-- A server is denied only by a rule: some rule matches, none before it does, and it denies.
pub denied_by_rule :
    (fs : List FilterInfo) (server client : IpAddress)
    → is_server_allowed fs server client ≡ false
    → (before : List FilterInfo) × (f : FilterInfo) × (after : List FilterInfo) × (fs
        ≡ before ++ f ∷ after)
      × NoMatch before server client
      × (matches f server client ≡ true)
      × (f.allow ≡ false)
unfolding is_server_allowed
denied_by_rule [] server client h = cc
denied_by_rule (f ∷ fs) server client h = elim (Bool-cases (matches f server client)) [
  | inl m ↦ ([], f, fs, refl, tt, m, ground arith)
  | inr n ↦
      let (before, g, after, e, none_of, m, deny) =
        denied_by_rule fs server client (ground arith) in
      (f ∷ before, g, after, ap (◌∷◌ f) e, (n, none_of), m, deny)
]
