-- ===== src/Bindable.antt =====
-- The tests whether an address can be bound: `check_ip_bindable` and `check_ip_port_bindable` of
-- src/utiles.cpp. What the system calls return is an argument.
use relb.Prelude.{ℕ, Bool, true, false, not, ◌==◌, if◌then◌else◌}
use relb.Prelude.Int.{ℤ, pos, negsuc, ltb_ℤ}
use relb.Address.{IpAddress}

-- The results of `socket`, `setsockopt`, `bind` and `listen` for an address and a port.
pub record Calls : Type 0 where
  pub socket : IpAddress → ℕ → ℤ
  pub reuse : IpAddress → ℕ → ℤ
  pub bind : IpAddress → ℕ → ℤ
  pub listen : IpAddress → ℕ → ℤ

abbrev pub is_zero : ℤ → Bool
is_zero (pos n) = n == 0
is_zero (negsuc n) = false

-- All calls are made, whatever those before have returned.
unfoldable pub check_ip_port_bindable : Calls → IpAddress → ℕ → Bool
check_ip_port_bindable calls ip port =
    let created = if ltb_ℤ (calls.socket ip port) (pos 0) then false else true in
    let reusable = if not (is_zero (calls.reuse ip port)) then false else created in
    let bound = if not (is_zero (calls.bind ip port)) then false else reusable in
    if not (is_zero (calls.listen ip port)) then false else bound

-- With port 0, for which the system chooses one.
unfoldable pub check_ip_bindable : Calls → IpAddress → Bool
check_ip_bindable calls ip =
    let created = if ltb_ℤ (calls.socket ip 0) (pos 0) then false else true in
    let reusable = if not (is_zero (calls.reuse ip 0)) then false else created in
    let bound = if not (is_zero (calls.bind ip 0)) then false else reusable in
    if not (is_zero (calls.listen ip 0)) then false else bound
