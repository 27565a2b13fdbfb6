-- ===== src/NetMetrics/Averages.antt =====
-- The moving averages of crates/fedi3_core/src/net_metrics.rs.
use fedi.Base.{ℕ, ◌+◌, ◌*◌, ◌≤◌, ◌<◌, min, max, List, [], ◌∷◌, arith, u64_max, All}
use fedi.NetMetrics.{ema}

-- A sample moves the average to a value between the old average and the sample, where both are
-- set, and the sum 7 * prev + ms fits in 64 bits.
pub ema_between :
    (prev ms : ℕ)
    → 0 < prev
    → 0 < ms
    → prev * 7 + ms ≤ u64_max
    → (min prev ms ≤ ema prev ms) × (ema prev ms ≤ max prev ms)
unfolding ema
ema_between prev ms hp hm h = ground arith

ema-step :
    (lo hi prev ms : ℕ)
    → 0 < lo
    → hi * 8 ≤ u64_max
    → lo ≤ prev
    → prev ≤ hi
    → lo ≤ ms
    → ms ≤ hi
    → (lo ≤ ema prev ms) × (ema prev ms ≤ hi)
unfolding ema
ema-step lo hi prev ms h0 h8 a b c d = ground arith

-- The average after a series of samples.
abbrev pub ema_all : ℕ → List ℕ → ℕ
ema_all prev [] = prev
ema_all prev (ms ∷ samples) = ema_all (ema prev ms) samples

-- From an average within a band, the moving average stays within the band over any series of
-- samples in the band, if the lower end is positive and 8 times the upper end fits in 64 bits.
ema_all_between :
    (lo hi prev : ℕ) (samples : List ℕ)
    → 0 < lo
    → hi * 8 ≤ u64_max
    → (lo ≤ prev) × (prev ≤ hi)
    → All (λ ms. (lo ≤ ms) × (ms ≤ hi)) samples
    → (lo ≤ ema_all prev samples) × (ema_all prev samples ≤ hi)
ema_all_between lo hi prev [] h0 h8 p s = p
ema_all_between lo hi prev (ms ∷ samples) h0 h8 p s =
    ema_all_between lo hi (ema prev ms) samples h0 h8
      (ema-step lo hi prev ms h0 h8 p.0 p.1 s.0.0 s.0.1) s.1
