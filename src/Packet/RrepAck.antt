-- ===== src/Packet/RrepAck.antt =====
-- `RrepAckHeader`: the acknowledgment of a reply.
use fp_jaringan_nirkabel.Base.{ℕ, ◌-◌, ◌==◌, Bool, Option, some, ◌>>=◌}
use fp_jaringan_nirkabel.Wire.{Wire, asserted}

pub record RrepAckHeader : Type 0 where
  pub reserved : ℕ

unfoldable pub new_header : RrepAckHeader
new_header = record { reserved = 0 }

abbrev pub get_serialized_size : ℕ
get_serialized_size = 1

module _ {B : Type 0} (w : Wire B) where
  unfoldable pub serialize : RrepAckHeader → B → B
  serialize h rest = w.write_u8 h.reserved rest

  unfoldable pub deserialize : B → Option (RrepAckHeader × ℕ × B)
  deserialize start = do
    (reserved, i) ← w.read_u8 start
    dist ← asserted get_serialized_size (w.size start - w.size i)
    some (record { reserved = reserved }, dist, i)

unfoldable pub is_equal : RrepAckHeader → RrepAckHeader → Bool
is_equal a b = a.reserved == b.reserved
