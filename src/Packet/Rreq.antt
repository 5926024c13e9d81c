-- ===== src/Packet/Rreq.antt =====
-- `RreqHeader`: a route request.
use fp_jaringan_nirkabel.Base.{ℕ, ◌-◌, ◌==◌, ◌&&◌, Bool, Option, some, ◌>>=◌}
use fp_jaringan_nirkabel.Wire.{Wire, asserted}
use fp_jaringan_nirkabel.Packet.Flags.{set_flag, get_flag}

pub record RreqHeader : Type 0 where
  pub flags : ℕ
  pub reserved : ℕ
  pub hop_count : ℕ
  pub request_id : ℕ
  pub dst : ℕ
  pub dst_seq_no : ℕ
  pub origin : ℕ
  pub origin_seq_no : ℕ

abbrev pub get_serialized_size : ℕ
get_serialized_size = 23

module _ {B : Type 0} (w : Wire B) where
  open w use {write_u8, write_hton_u32, write_to, read_u8, read_ntoh_u32, read_from, size}

  unfoldable pub serialize : RreqHeader → B → B
  serialize h rest = write_u8 h.flags (
      write_u8 h.reserved (
        write_u8 h.hop_count (
          write_hton_u32 h.request_id (
            write_to h.dst (
              write_hton_u32 h.dst_seq_no
                (write_to h.origin (write_hton_u32 h.origin_seq_no rest)))))))

  -- The header, the number of bytes read, and the bytes behind.
  unfoldable pub deserialize : B → Option (RreqHeader × ℕ × B)
  deserialize start = do
    (flags, i1) ← read_u8 start
    (reserved, i2) ← read_u8 i1
    (hop_count, i3) ← read_u8 i2
    (request_id, i4) ← read_ntoh_u32 i3
    (dst, i5) ← read_from i4
    (dst_seq_no, i6) ← read_ntoh_u32 i5
    (origin, i7) ← read_from i6
    (origin_seq_no, i8) ← read_ntoh_u32 i7
    dist ← asserted get_serialized_size (size start - size i8)
    some (
      record {
        flags = flags;
        reserved = reserved;
        hop_count = hop_count;
        request_id = request_id;
        dst = dst;
        dst_seq_no = dst_seq_no;
        origin = origin;
        origin_seq_no = origin_seq_no;
      },
      dist,
      i8,
    )

unfoldable pub set_gratuitous_rrep : Bool → RreqHeader → RreqHeader
unfolding set_flag
set_gratuitous_rrep f h = record h { flags = set_flag 5 f h.flags }

unfoldable pub get_gratuitous_rrep : RreqHeader → Bool
unfolding get_flag
get_gratuitous_rrep h = get_flag 5 h.flags

unfoldable pub set_destination_only : Bool → RreqHeader → RreqHeader
unfolding set_flag
set_destination_only f h = record h { flags = set_flag 4 f h.flags }

unfoldable pub get_destination_only : RreqHeader → Bool
unfolding get_flag
get_destination_only h = get_flag 4 h.flags

unfoldable pub set_unknown_seqno : Bool → RreqHeader → RreqHeader
unfolding set_flag
set_unknown_seqno f h = record h { flags = set_flag 3 f h.flags }

unfoldable pub get_unknown_seqno : RreqHeader → Bool
unfolding get_flag
get_unknown_seqno h = get_flag 3 h.flags

unfoldable pub is_equal : RreqHeader → RreqHeader → Bool
is_equal a b =
    a.flags == b.flags
    && a.reserved == b.reserved
    && a.hop_count == b.hop_count
    && a.request_id == b.request_id
    && a.dst == b.dst
    && a.dst_seq_no == b.dst_seq_no
    && a.origin == b.origin
    && a.origin_seq_no == b.origin_seq_no
