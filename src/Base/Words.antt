-- ===== src/Base/Words.antt =====
-- Saturating arithmetic of the machine integers that the program uses.
use Prim.Native.Nat.{ℕ, ◌+◌, ◌*◌, ◌%◌, min}

abbrev pub u32_max : ℕ
u32_max = 4294967295

abbrev pub u64_max : ℕ
u64_max = 18446744073709551615

abbrev pub i64_max : ℕ
i64_max = 9223372036854775807

-- `saturating_add` and `saturating_mul` at each width. `saturating_sub` of unsigned values is the
-- truncated `-` of the natural numbers.
abbrev pub sat_add_u32 : ℕ → ℕ → ℕ
sat_add_u32 a b = min (a + b) u32_max

abbrev pub sat_add_u64 : ℕ → ℕ → ℕ
sat_add_u64 a b = min (a + b) u64_max

abbrev pub sat_mul_u64 : ℕ → ℕ → ℕ
sat_mul_u64 a b = min (a * b) u64_max

abbrev pub sat_add_i64 : ℕ → ℕ → ℕ
sat_add_i64 a b = min (a + b) i64_max

abbrev pub sat_mul_i64 : ℕ → ℕ → ℕ
sat_mul_i64 a b = min (a * b) i64_max

-- `AtomicU64::fetch_add` wraps.
abbrev pub wrap_add_u64 : ℕ → ℕ → ℕ
wrap_add_u64 a b = (a + b) % 18446744073709551616
