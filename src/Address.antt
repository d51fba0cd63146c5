-- ===== src/Address.antt =====
-- IPv4 addresses: `ipaddress` is four octets (ptypes), with the functions of src/utiles.cpp.
use relb.Prelude.{
  ℕ, ◌+◌, ◌*◌, ◌<◌, ◌≡◌, Bool, true, false, ◌&&◌, bit_and, ltb, ◌==◌, if◌then◌else◌, arith, List,
  [], ◌∷◌,
}

pub record IpAddress : Type 0 where
  pub a : ℕ
  pub b : ℕ
  pub c : ℕ
  pub d : ℕ

-- `ipaddress ==` compares all octets.
abbrev pub same_ip : IpAddress → IpAddress → Bool
same_ip p q = p.a == q.a && (p.b == q.b && (p.c == q.c && p.d == q.d))

pub same_ip_refl : (p : IpAddress) → same_ip p p ≡ true
same_ip_refl p = ground arith

pub same_ip_iff : (p q : IpAddress) → same_ip p q ≡ true → p ≡ q
same_ip_iff p q h = ground arith

unfoldable pub masked_ip : IpAddress → IpAddress → IpAddress
masked_ip ip mask = record {
  a = bit_and ip.a mask.a;
  b = bit_and ip.b mask.b;
  c = bit_and ip.c mask.c;
  d = bit_and ip.d mask.d;
}

-- The loop of `ip_less_than` over the octets that are left, as pairs.
less_loop : List (ℕ × ℕ) → Bool
less_loop [] = false
less_loop ((x, y) ∷ rest) =
    let more = less_loop rest in if ltb y x then false else if ltb x y then true else more

unfoldable pub ip_less_than : IpAddress → IpAddress → Bool
unfolding less_loop
ip_less_than p q = less_loop ((p.a, q.a) ∷ (p.b, q.b) ∷ (p.c, q.c) ∷ (p.d, q.d) ∷ [])

-- The address as one number, the first octet the highest.
abbrev pub value : IpAddress → ℕ
value p = ((p.a * 256 + p.b) * 256 + p.c) * 256 + p.d

pub record IsIp (p : IpAddress) : Type 0 where
  pub fits_a : p.a < 256
  pub fits_b : p.b < 256
  pub fits_c : p.c < 256
  pub fits_d : p.d < 256

-- On addresses whose octets are below 256, `ip_less_than` is the order of the 32-bit numbers that
-- the addresses stand for.
pub ip_less_than-value :
    (p q : IpAddress) → IsIp p → IsIp q → ip_less_than p q ≡ ltb (value p) (value q)
unfolding ip_less_than
ip_less_than-value p q v w = ground arith
