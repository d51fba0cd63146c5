-- ===== src/Examples.antt =====
-- Concrete addresses, rules and status codes, on which the theorems about them apply.
use relb.Prelude.{true, false}
use relb.Address.{IpAddress}
use relb.Filters.{FilterInfo}

abbrev client : IpAddress
client = record { a = 10; b = 0; c = 0; d = 7 }

abbrev server : IpAddress
server = record { a = 192; b = 168; c = 1; d = 2 }

abbrev any : IpAddress
any = record { a = 0; b = 0; c = 0; d = 0 }

-- Nobody from 10.0.0.0/8 may use any server.
abbrev deny_ten : FilterInfo
deny_ten = record {
  src_ip = record { a = 10; b = 0; c = 0; d = 0 };
  src_mask = record { a = 255; b = 0; c = 0; d = 0 };
  dst_ip = any;
  dst_mask = any;
  allow = false;
}

-- Clients of 172.0.0.0/8 may.
abbrev allow_other : FilterInfo
allow_other = record {
  src_ip = record { a = 172; b = 0; c = 0; d = 0 };
  src_mask = record { a = 255; b = 0; c = 0; d = 0 };
  dst_ip = any;
  dst_mask = any;
  allow = true;
}
