-- ===== src/Packet/Rerr.antt =====
-- `RerrHeader`: the report of destinations that are not reachable any more.
use fp_jaringan_nirkabel.Base.{
  ℕ, zero, suc, ◌+◌, ◌-◌, ◌*◌, ◌%◌, ◌^◌, ◌==◌, ◌&&◌, ltb, Bool, true, false, Option, none, some, [],
  ◌∷◌, length, if◌then◌else◌, ◌>>=◌,
}
use fp_jaringan_nirkabel.AddressMap.{AddressMap, find, insert}
use fp_jaringan_nirkabel.Wire.{Wire, asserted}
use fp_jaringan_nirkabel.Packet.Flags.{set_flag, get_flag}

pub record RerrHeader : Type 0 where
  pub flag : ℕ
  pub reserved : ℕ
  pub unreachable : AddressMap ℕ

unfoldable pub new_header : RerrHeader
new_header = record { flag = 0; reserved = 0; unreachable = [] }

-- `(uint8_t)m_unreachableDstSeqNo.size()`
unfoldable pub get_dest_count : RerrHeader → ℕ
get_dest_count h = length h.unreachable % 2 ^ 8

unfoldable pub get_serialized_size : RerrHeader → ℕ
unfolding get_dest_count
get_serialized_size h = 3 + 8 * get_dest_count h

module _ {B : Type 0} (w : Wire B) where
  open w use {write_u8, write_hton_u32, write_to, read_u8, read_ntoh_u32, read_from, size}

  unfoldable pub write_destinations : AddressMap ℕ → B → B
  write_destinations [] rest = rest
  write_destinations ((dst, seq_no) ∷ us) rest =
      write_to dst (write_hton_u32 seq_no (write_destinations us rest))

  unfoldable pub serialize : RerrHeader → B → B
  unfolding write_destinations get_dest_count
  serialize h rest =
      write_u8 h.flag
        (write_u8 h.reserved (write_u8 (get_dest_count h) (write_destinations h.unreachable rest)))

  -- The loop over the rounds that are left; the map keeps the first number for an address.
  unfoldable pub read_destinations : ℕ → AddressMap ℕ → B → Option (AddressMap ℕ × B)
  read_destinations zero us i = some (us, i)
  read_destinations (suc k) us i = do
    (address, i1) ← read_from i
    (seq_no, i2) ← read_ntoh_u32 i1
    read_destinations k (insert address seq_no us) i2

  -- The header, the number of bytes read, and the bytes behind.
  unfoldable pub deserialize : B → Option (RerrHeader × ℕ × B)
  unfolding read_destinations get_serialized_size
  deserialize start = do
    (flag, i1) ← read_u8 start
    (reserved, i2) ← read_u8 i1
    (dest, i3) ← read_u8 i2
    (us, i4) ← read_destinations dest [] i3
    let h : RerrHeader = record { flag = flag; reserved = reserved; unreachable = us }
    dist ← asserted (get_serialized_size h) (size start - size i4)
    some (h, dist, i4)

unfoldable pub set_no_delete : Bool → RerrHeader → RerrHeader
unfolding set_flag
set_no_delete f h = record h { flag = set_flag 0 f h.flag }

unfoldable pub get_no_delete : RerrHeader → Bool
unfolding get_flag
get_no_delete h = get_flag 0 h.flag

-- `none` is the failed assertion of a build with assertions.
unfoldable pub add_un_destination : ℕ → ℕ → RerrHeader → Option (RerrHeader × Bool)
unfolding find insert get_dest_count
add_un_destination dst seq_no h = elim (find dst h.unreachable) [
  | some there ↦ some (h, true)
  | none ↦
      if ltb (get_dest_count h) 255
      then some (record h { unreachable = insert dst seq_no h.unreachable }, true)
      else none
]

unfoldable pub take_first : AddressMap ℕ → Option ((ℕ × ℕ) × AddressMap ℕ)
take_first [] = none
take_first (u ∷ us) = some (u, us)

-- The first destination and the header without it; `none` where the C++ code returns false.
unfoldable pub remove_un_destination : RerrHeader → Option ((ℕ × ℕ) × RerrHeader)
unfolding take_first
remove_un_destination h = do
  (un, us) ← take_first h.unreachable
  some (un, record h { unreachable = us })

unfoldable pub clear : RerrHeader → RerrHeader
clear h = record { flag = 0; reserved = 0; unreachable = [] }

-- The loop of `operator==`, whose iterators stand at `a` and `b` with `k` rounds left. Past an end,
-- which the code does not reach with equal counts below 256, the lists count as different.
unfoldable pub same_destinations : ℕ → AddressMap ℕ → AddressMap ℕ → Bool
same_destinations zero a b = true
same_destinations (suc k) ((d, s) ∷ a) ((e, t) ∷ b) = d == e && s == t && same_destinations k a b
same_destinations (suc k) _ _ = false

unfoldable pub is_equal : RerrHeader → RerrHeader → Bool
unfolding same_destinations get_dest_count
is_equal a b =
    a.flag == b.flag
    && a.reserved == b.reserved
    && get_dest_count a == get_dest_count b
    && same_destinations (get_dest_count a) a.unreachable b.unreachable
