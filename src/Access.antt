-- ===== src/Access.antt =====
-- The relay's checks of names, tokens and addresses, crates/fedi3_relay/src/main.rs. A text is the
-- list of its code points or of its bytes, an address its number.
pub mod Bits
pub mod Cidr
pub mod Tokens
mod Examples
pub use fedi.Text.{codes}
use Prim.Native.Nat.{bit_and, bit_or, bit_xor}
use fedi.Base.{
  ℕ, ◌-◌, ◌*◌, ◌%◌, ◌^◌, min, length, Bool, true, false, not, ◌&&◌, ◌||◌, List, [], ◌∷◌, ltb, leb,
  ◌==◌, if◌then◌else◌, any, sum_by,
}

-- `char::len_utf8`.
abbrev pub len_utf8 : ℕ → ℕ
len_utf8 c = if ltb c 128 then 1 else (if ltb c 2048 then 2 else (if ltb c 65536 then 3 else 4))

abbrev pub is_username_char : ℕ → Bool
is_username_char c = leb 97 c && leb c 122 || (leb 48 c && leb c 57) || c == 95 || c == 45

unfoldable pub is_valid_username : List ℕ → Bool
is_valid_username user =
    let size = sum_by len_utf8 user in
    if size == 0 || ltb 64 size then false else not (any (λ c. not (is_username_char c)) user)

-- `IpAddr`, as `u32::from` and `u128::from` number it.
pub data IpAddr : Type 0 where
  v4 v6 : ℕ → IpAddr

pub data IpRule : Type 0 where
  single : IpAddr → IpRule
  cidr : IpAddr → ℕ → IpRule

pub record RelayAccess : Type 0 where
  pub ip_denylist : List IpRule
  pub ip_allowlist : List IpRule

abbrev pub addr_eq : IpAddr → IpAddr → Bool
addr_eq (v4 a) (v4 b) = a == b
addr_eq (v4 a) (v6 b) = false
addr_eq (v6 a) (v4 b) = false
addr_eq (v6 a) (v6 b) = a == b

-- `u32::MAX << (32 - prefix)`, and 0 for the prefix 0.
abbrev pub mask_v4 : (prefix : ℕ) → ℕ
mask_v4 prefix = if prefix == 0 then 0 else 4294967295 * 2 ^ (32 - prefix) % 4294967296

abbrev pub mask_v6 : (prefix : ℕ) → ℕ
mask_v6 prefix = if prefix == 0 then 0 else (2 ^ 128 - 1) * 2 ^ (128 - prefix) % 2 ^ 128

unfoldable pub ip_in_cidr : (ip base : IpAddr) (prefix : ℕ) → Bool
ip_in_cidr (v4 ip) (v4 base) prefix =
    let mask = mask_v4 (min prefix 32) in bit_and ip mask == bit_and base mask
ip_in_cidr (v6 ip) (v6 base) prefix =
    let mask = mask_v6 (min prefix 128) in bit_and ip mask == bit_and base mask
ip_in_cidr (v4 ip) (v6 base) prefix = false
ip_in_cidr (v6 ip) (v4 base) prefix = false

unfoldable pub matches : IpAddr → IpRule → Bool
unfolding ip_in_cidr
matches ip (single addr) = addr_eq addr ip
matches ip (cidr addr prefix) = ip_in_cidr ip addr prefix

unfoldable pub ip_in_rules : List IpRule → IpAddr → Bool
unfolding matches
ip_in_rules rules ip = any (matches ip) rules

abbrev pub no_rules : List IpRule → Bool
no_rules [] = true
no_rules (r ∷ rules) = false

unfoldable pub is_ip_allowed : RelayAccess → IpAddr → Bool
unfolding ip_in_rules
is_ip_allowed cfg ip =
    if ip_in_rules cfg.ip_denylist ip
    then false
    else not (not (no_rules cfg.ip_allowlist) && not (ip_in_rules cfg.ip_allowlist ip))

-- The loop over the pairs of bytes.
unfoldable pub diff_of : List ℕ → List ℕ → (diff : ℕ) → ℕ
diff_of [] b diff = diff
diff_of (x ∷ a) [] diff = diff
diff_of (x ∷ a) (y ∷ b) diff = diff_of a b (bit_or diff (bit_xor x y))

unfoldable pub constant_time_eq : (expected candidate : List ℕ) → Bool
unfolding diff_of
constant_time_eq a b = if not (length a == length b) then false else diff_of a b 0 == 0
