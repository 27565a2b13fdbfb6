-- ===== src/Access/Examples.antt =====
-- Runs of the checks, and the theorem on address ranges at a concrete one.
use fedi.Base.{codes_eq, ◌≡◌, refl, true, false, ◌&&◌, ◌==◌, [], ◌∷◌, arith}
use fedi.Access.{
  codes, is_valid_username, IpAddr, v4, v6, single, cidr, RelayAccess, ip_in_cidr, is_ip_allowed,
  constant_time_eq,
}
use fedi.Access.Cidr.{width, network, ip_in_cidr-eq}

username_dash : is_valid_username (codes "ann-b_2") ≡ true
unfolding is_valid_username
username_dash = refl

username_upper : is_valid_username (codes "Ann") ≡ false
unfolding is_valid_username
username_upper = refl

tokens_differ : constant_time_eq (codes "secret") (codes "secreT") ≡ false
unfolding constant_time_eq
tokens_differ = refl

tokens_same : constant_time_eq (codes "secret") (codes "secret") ≡ true
unfolding constant_time_eq
tokens_same = refl

-- 10.1.2.3, and the range 10.0.0.0/8.
abbrev private_addr : IpAddr
private_addr = v4 167838211

abbrev private_base : IpAddr
private_base = v4 167772160

abbrev access : RelayAccess
access = record { ip_denylist = single private_addr ∷ []; ip_allowlist = cidr private_base 8 ∷ [] }

-- The denylist comes first.
denied_first : is_ip_allowed access private_addr ≡ false
unfolding is_ip_allowed
denied_first = refl

range_allowed : is_ip_allowed access (v4 167772165) ≡ true
unfolding is_ip_allowed
range_allowed = refl

-- A base with bits after the prefix stands for its whole range, and the prefix 0 for all addresses.
prefix_zero : ip_in_cidr (v6 1) (v6 77) 0 ≡ true
unfolding ip_in_cidr
prefix_zero = refl

ip_in_cidr-eq_example :
    ip_in_cidr private_addr private_base 8
    ≡ width private_addr == width private_base && network 8 private_addr == network 8 private_base
ip_in_cidr-eq_example = ip_in_cidr-eq private_addr private_base 8 (omega arith) (omega arith)
