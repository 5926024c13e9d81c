-- ===== src/Routing/SeqNo.antt =====
-- Sequence numbers of 32 bits, and which of two is the newer one.
use fp_jaringan_nirkabel.Base.{ℕ, ◌+◌, ◌-◌, ◌%◌, ◌^◌, ◌<◌, ◌&&◌, ◌≡◌, ltb, Bool, true, false, arith}

-- `int32_t(a) - int32_t(b) > 0`, where the difference wraps around as it does in two's complement:
-- it is positive exactly if `a` is fewer than 2^31 steps ahead.
unfoldable pub is_newer : ℕ → ℕ → Bool
is_newer a b = let ahead = (a + 2 ^ 32 - b) % 2 ^ 32 in ltb 0 ahead && ltb ahead (2 ^ 31)

-- The number some steps ahead of another is the newer one, over the wrap-around too, and the other
-- is not newer than it, as long as there are fewer than 2^31 steps.
pub is_newer-ahead :
    (a k : ℕ)
    → a < 2 ^ 32
    → 0 < k
    → k < 2 ^ 31
    → (is_newer ((a + k) % 2 ^ 32) a ≡ true) × (is_newer a ((a + k) % 2 ^ 32) ≡ false)
unfolding is_newer
is_newer-ahead a k ha hk hk' = ground arith

pub is_newer_asym : (a b : ℕ) → a < 2 ^ 32 → b < 2 ^ 32 → is_newer a b ≡ true → is_newer b a ≡ false
unfolding is_newer
is_newer_asym a b ha hb h = ground arith

pub is_newer_irrefl : (a : ℕ) → is_newer a a ≡ false
unfolding is_newer
is_newer_irrefl a = ground arith
