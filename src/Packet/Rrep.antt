-- ===== src/Packet/Rrep.antt =====
-- `RrepHeader`: a route reply, and the hello message that has its form.
use fp_jaringan_nirkabel.Base.{ℕ, ◌-◌, ◌==◌, ◌&&◌, Bool, Option, some, ◌>>=◌}
use fp_jaringan_nirkabel.Net.{Time}
use fp_jaringan_nirkabel.Wire.{Wire, asserted, Milliseconds, to_u32}
use fp_jaringan_nirkabel.Packet.Flags.{set_flag, get_flag}

pub record RrepHeader : Type 0 where
  pub flags : ℕ
  pub prefix_size : ℕ
  pub hop_count : ℕ
  pub dst : ℕ
  pub dst_seq_no : ℕ
  pub origin : ℕ
  pub life_time : ℕ

abbrev pub get_serialized_size : ℕ
get_serialized_size = 19

module _ {B : Type 0} (w : Wire B) where
  open w use {write_u8, write_hton_u32, write_to, read_u8, read_ntoh_u32, read_from, size}

  unfoldable pub serialize : RrepHeader → B → B
  serialize h rest = write_u8 h.flags (
      write_u8 h.prefix_size (
        write_u8 h.hop_count (
          write_to h.dst
            (write_hton_u32 h.dst_seq_no (write_to h.origin (write_hton_u32 h.life_time rest))))))

  -- The header, the number of bytes read, and the bytes behind.
  unfoldable pub deserialize : B → Option (RrepHeader × ℕ × B)
  deserialize start = do
    (flags, i1) ← read_u8 start
    (prefix_size, i2) ← read_u8 i1
    (hop_count, i3) ← read_u8 i2
    (dst, i4) ← read_from i3
    (dst_seq_no, i5) ← read_ntoh_u32 i4
    (origin, i6) ← read_from i5
    (life_time, i7) ← read_ntoh_u32 i6
    dist ← asserted get_serialized_size (size start - size i7)
    some (
      record {
        flags = flags;
        prefix_size = prefix_size;
        hop_count = hop_count;
        dst = dst;
        dst_seq_no = dst_seq_no;
        origin = origin;
        life_time = life_time;
      },
      dist,
      i7,
    )

module _ (t : Milliseconds) where
  open t use {milliseconds, get_milliseconds}

  unfoldable pub new_header : ℕ → ℕ → ℕ → ℕ → ℕ → Time → RrepHeader
  unfolding to_u32
  new_header prefix_size hop_count dst dst_seq_no origin life_time = record {
    flags = 0;
    prefix_size = prefix_size;
    hop_count = hop_count;
    dst = dst;
    dst_seq_no = dst_seq_no;
    origin = origin;
    life_time = to_u32 (get_milliseconds life_time);
  }

  unfoldable pub set_life_time : Time → RrepHeader → RrepHeader
  unfolding to_u32
  set_life_time lt h = record h { life_time = to_u32 (get_milliseconds lt) }

  unfoldable pub get_life_time : RrepHeader → Time
  get_life_time h = milliseconds h.life_time

  unfoldable pub set_hello : ℕ → ℕ → Time → RrepHeader → RrepHeader
  unfolding to_u32
  set_hello origin src_seq_no life_time h = record {
    flags = 0;
    prefix_size = 0;
    hop_count = 0;
    dst = origin;
    dst_seq_no = src_seq_no;
    origin = origin;
    life_time = to_u32 (get_milliseconds life_time);
  }

unfoldable pub set_ack_required : Bool → RrepHeader → RrepHeader
unfolding set_flag
set_ack_required f h = record h { flags = set_flag 6 f h.flags }

unfoldable pub get_ack_required : RrepHeader → Bool
unfolding get_flag
get_ack_required h = get_flag 6 h.flags

unfoldable pub set_prefix_size : ℕ → RrepHeader → RrepHeader
set_prefix_size sz h = record h { prefix_size = sz }

unfoldable pub is_equal : RrepHeader → RrepHeader → Bool
is_equal a b =
    a.flags == b.flags
    && a.prefix_size == b.prefix_size
    && a.hop_count == b.hop_count
    && a.dst == b.dst
    && a.dst_seq_no == b.dst_seq_no
    && a.origin == b.origin
    && a.life_time == b.life_time
