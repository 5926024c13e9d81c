-- ===== src/Packet/Flags.antt =====
-- Single bits of the headers' flag bytes: `m_flags |= (1 << k)`, `m_flags &= ~(1 << k)` and
-- `m_flags & (1 << k)`, for a flag byte below 256.
use Prim.Native.Nat.{bit_and, bit_or}
use fp_jaringan_nirkabel.Base.{
  ℕ, zero, suc, ◌-◌, ◌^◌, ◌<◌, ◌==◌, ◌&&◌, not, ltb, ◌≡◌, refl, Bool, true, false, arith,
  if◌then◌else◌,
}

unfoldable pub set_flag : ℕ → Bool → ℕ → ℕ
set_flag k f flags = if f then bit_or flags (2 ^ k) else bit_and flags (255 - 2 ^ k)

unfoldable pub get_flag : ℕ → ℕ → Bool
get_flag k flags = not (bit_and flags (2 ^ k) == 0)

-- A test of the numbers under a bound, one after the other.
passes : (ℕ → Bool) → ℕ → Bool
passes test zero = true
passes test (suc bound) = if test bound then passes test bound else false

passes_at : (test : ℕ → Bool) (bound i : ℕ) → i < bound → passes test bound ≡ true → test i ≡ true
unfolding passes
passes_at test zero i below ok = absurd (omega arith)
passes_at test (suc bound) i below ok = ground (arith, passes_at test bound i)

abbrev agree : Bool → Bool → Bool
agree true b = b
agree false b = not b

-- The write of bit `k` seen at bit `j`.
abbrev is_right : Bool → ℕ → ℕ → ℕ → Bool
is_right f k j x =
    ltb (set_flag k f x) 256
    && agree (get_flag j (set_flag k f x)) (if k == j then f else get_flag j x)

abbrev table : Bool → Bool
table f = passes (λ k. passes (λ j. passes (λ x. is_right f k j x) 256) 8) 8

table-true : table true ≡ true
unfolding passes set_flag get_flag
table-true = refl

table-false : table false ≡ true
unfolding passes set_flag get_flag
table-false = refl

table_all : (f : Bool) → table f ≡ true
table_all true = table-true
table_all false = table-false

is_right_all : (f : Bool) (k j x : ℕ) → k < 8 → j < 8 → x < 256 → is_right f k j x ≡ true
is_right_all f k j x hk hj hx =
    let bytes_pass =
      passes_at (λ k. passes (λ j. passes (λ x. is_right f k j x) 256) 8) 8 k hk (table_all f) in
    let byte_passes = passes_at (λ j. passes (λ x. is_right f k j x) 256) 8 j hj bytes_pass in
    passes_at (λ x. is_right f k j x) 256 x hx byte_passes

-- A write of one flag of a byte sets that flag, leaves the other seven, and gives a byte.
pub get_flag-set_flag :
    (f : Bool) (k j x : ℕ)
    → k < 8
    → j < 8
    → x < 256
    → (get_flag j (set_flag k f x) ≡ (if k == j then f else get_flag j x)) × (set_flag k f x < 256)
get_flag-set_flag f k j x hk hj hx = ground (arith, is_right_all f k j x hk hj hx)
