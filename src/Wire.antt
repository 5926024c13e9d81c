-- ===== src/Wire.antt =====
-- ns-3's `Buffer::Iterator` and the conversions of `Time`, which the message headers use. A value of
-- `B` stands for the bytes from an iterator on: what is written first stands in front.
use fp_jaringan_nirkabel.Base.{
  ℕ, ◌+◌, ◌-◌, ◌%◌, ◌^◌, ◌<◌, ◌≡◌, arith, Option, none, some, ◌==◌, if◌then◌else◌, ℤ, pos, negsuc,
}
use fp_jaringan_nirkabel.Net.{Time}

pub record Wire (B : Type 0) : Type 0 where
  pub write_u8 : ℕ → B → B
  pub write_hton_u32 : ℕ → B → B
  pub write_to : ℕ → B → B
  pub read_u8 : B → Option (ℕ × B)
  pub read_ntoh_u32 : B → Option (ℕ × B)
  pub read_from : B → Option (ℕ × B)
  -- The number of bytes from the iterator to the buffer's end.
  pub size : B → ℕ

-- The documented behaviour: a read gives what was written, and a value takes one byte or four.
pub record WireLaws {B : Type 0} (w : Wire B) : Type 0 where
  pub read-write_u8 : (x : ℕ) (b : B) → x < 2 ^ 8 → w.read_u8 (w.write_u8 x b) ≡ some (x, b)
  pub read-write_u32 :
      (x : ℕ) (b : B) → x < 2 ^ 32 → w.read_ntoh_u32 (w.write_hton_u32 x b) ≡ some (x, b)
  pub read-write_to : (x : ℕ) (b : B) → x < 2 ^ 32 → w.read_from (w.write_to x b) ≡ some (x, b)
  pub size-write_u8 : (x : ℕ) (b : B) → w.size (w.write_u8 x b) ≡ w.size b + 1
  pub size-write_u32 : (x : ℕ) (b : B) → w.size (w.write_hton_u32 x b) ≡ w.size b + 4
  pub size-write_to : (x : ℕ) (b : B) → w.size (w.write_to x b) ≡ w.size b + 4

-- `MilliSeconds` and `Time::GetMilliSeconds`.
pub record Milliseconds : Type 0 where
  pub milliseconds : ℕ → Time
  pub get_milliseconds : Time → ℤ

-- A signed number as `uint32_t`.
unfoldable pub to_u32 : ℤ → ℕ
to_u32 (pos n) = n % 2 ^ 32
to_u32 (negsuc n) = 2 ^ 32 - 1 - n % 2 ^ 32

-- The distance that a read covered, which an assertion wants to be the serialized size.
abbrev pub asserted : ℕ → ℕ → Option ℕ
asserted expected distance = if distance == expected then some distance else none

pub asserted_lem : (n : ℕ) (d : ℕ) → d ≡ n → asserted n d ≡ some n
asserted_lem n d h = ground arith
