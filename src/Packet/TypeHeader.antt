-- ===== src/Packet/TypeHeader.antt =====
-- `MessageType` and `TypeHeader`.
use fp_jaringan_nirkabel.Base.{
  ℕ, ◌-◌, ◌==◌, ◌&&◌, Bool, true, false, Option, some, if◌then◌else◌, ◌>>=◌,
}
use fp_jaringan_nirkabel.Wire.{Wire, asserted}

pub data MessageType : Type 0 where
  rreq rrep rerr rrep_ack : MessageType

unfoldable pub code : MessageType → ℕ
code rreq = 1
code rrep = 2
code rerr = 3
code rrep_ack = 4

pub record TypeHeader : Type 0 where
  pub type : MessageType
  pub valid : Bool

unfoldable pub header : MessageType → TypeHeader
header t = record { type = t; valid = true }

-- The `switch` of `Deserialize`, which keeps the old type where the byte is none of the four.
unfoldable pub decode : TypeHeader → ℕ → TypeHeader
decode h type =
    if type == 1
    then record { type = rreq; valid = true }
    else if type == 2
    then record { type = rrep; valid = true }
    else if type == 3
    then record { type = rerr; valid = true }
    else if type == 4
    then record { type = rrep_ack; valid = true }
    else record h { valid = false }

unfoldable pub is_equal : TypeHeader → TypeHeader → Bool
unfolding code
is_equal a b = code a.type == code b.type && agree a.valid b.valid
  where
    agree : Bool → Bool → Bool
    agree true y = y
    agree false true = false
    agree false false = true

abbrev pub get_serialized_size : ℕ
get_serialized_size = 1

module _ {B : Type 0} (w : Wire B) where
  unfoldable pub serialize : TypeHeader → B → B
  unfolding code
  serialize h rest = w.write_u8 (code h.type) rest

  -- The header, the number of bytes read, and the bytes behind.
  unfoldable pub deserialize : TypeHeader → B → Option (TypeHeader × ℕ × B)
  unfolding decode
  deserialize h start = do
    (type, i) ← w.read_u8 start
    dist ← asserted get_serialized_size (w.size start - w.size i)
    some (decode h type, dist, i)
