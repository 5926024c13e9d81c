-- ===== src/Packet/Tests.antt =====
-- Headers on a wire of bytes, the most significant first.
use fp_jaringan_nirkabel.Base.{
  ℕ, ◌+◌, ◌*◌, ◌/◌, ◌%◌, ◌^◌, ◌<◌, ◌≤◌, ◌==◌, ◌≡◌, ◌≢◌, ◌↔◌, refl, ap, true, false, Option, none,
  some, List, [], ◌∷◌, length, arith, if◌then◌else◌, OnSome, Returns,
}
use fp_jaringan_nirkabel.AddressMap.{find, Above, IsSorted}
use fp_jaringan_nirkabel.Wire.{Wire, WireLaws}
use fp_jaringan_nirkabel.Packet.TypeHeader as Type_header
use fp_jaringan_nirkabel.Packet.TypeHeader.{
  TypeHeader, MessageType, rreq, rrep, rerr, rrep_ack, code, header,
}
use fp_jaringan_nirkabel.Packet.Rreq as Rreq
use fp_jaringan_nirkabel.Packet.Rreq.{RreqHeader}
use fp_jaringan_nirkabel.Packet.Rrep as Rrep
use fp_jaringan_nirkabel.Packet.Rrep.{RrepHeader}
use fp_jaringan_nirkabel.Packet.RrepAck as RrepAck
use fp_jaringan_nirkabel.Packet.RrepAck.{RrepAckHeader}
use fp_jaringan_nirkabel.Packet.Rerr as Rerr
use fp_jaringan_nirkabel.Packet.Rerr.{
  RerrHeader, add_un_destination, remove_un_destination, is_equal,
}
use fp_jaringan_nirkabel.Packet.Flags.{get_flag, set_flag, get_flag-set_flag}
use fp_jaringan_nirkabel.Packet.RoundTrip.{
  rreq_round_trip, rrep_round_trip, rrep_ack_round_trip, type_round_trip, unknown_type_lem,
  rerr_round_trip,
}
use fp_jaringan_nirkabel.Packet.Unreachable.{
  or_else, add_un_destination_lem, remove_un_destination_lem, is_equal_iff,
}

abbrev put8 : ℕ → List ℕ → List ℕ
put8 x b = x % 2 ^ 8 ∷ b

abbrev get8 : List ℕ → Option (ℕ × List ℕ)
get8 [] = none
get8 (x ∷ b) = some (x, b)

abbrev put32 : ℕ → List ℕ → List ℕ
put32 x b = x / 2 ^ 24 ∷ x / 2 ^ 16 % 2 ^ 8 ∷ x / 2 ^ 8 % 2 ^ 8 ∷ x % 2 ^ 8 ∷ b

abbrev get32 : List ℕ → Option (ℕ × List ℕ)
get32 (x3 ∷ x2 ∷ x1 ∷ x0 ∷ b) = some (x3 * 2 ^ 24 + x2 * 2 ^ 16 + x1 * 2 ^ 8 + x0, b)
get32 _ = none

abbrev bytes : Wire (List ℕ)
bytes = record {
  write_u8 = put8;
  write_hton_u32 = put32;
  write_to = put32;
  read_u8 = get8;
  read_ntoh_u32 = get32;
  read_from = get32;
  size = length;
}

get8-put8 : (x : ℕ) (b : List ℕ) → x < 2 ^ 8 → get8 (put8 x b) ≡ some (x, b)
get8-put8 x b h = ap (λ y. some (y, b)) (omega arith)

get32-put32 : (x : ℕ) (b : List ℕ) → x < 2 ^ 32 → get32 (put32 x b) ≡ some (x, b)
get32-put32 x b h = ap (λ y. some (y, b)) (omega arith)

bytes_laws : WireLaws bytes
bytes_laws = record {
  read-write_u8 = get8-put8;
  read-write_u32 = get32-put32;
  read-write_to = get32-put32;
  size-write_u8 = λ x b. omega arith;
  size-write_u32 = λ x b. omega arith;
  size-write_to = λ x b. omega arith;
}

abbrev request : RreqHeader
request = record {
  flags = 8;
  reserved = 0;
  hop_count = 2;
  request_id = 70000;
  dst = 167772163;
  dst_seq_no = 5;
  origin = 167772161;
  origin_seq_no = 4294967295;
}

request-bytes :
    Rreq.serialize bytes request []
    ≡ 8 ∷ 0 ∷ 2 ∷ 0 ∷ 1 ∷ 17 ∷ 112 ∷ 10 ∷ 0 ∷ 0 ∷ 3 ∷ 0 ∷ 0 ∷ 0 ∷ 5 ∷ 10 ∷ 0 ∷ 0 ∷ 1 ∷ 255 ∷ 255
      ∷ 255 ∷ 255 ∷ []
unfolding Rreq.serialize
request-bytes = refl

rreq_round_trip_example :
    Rreq.deserialize bytes (Rreq.serialize bytes request (9 ∷ []))
    ≡ some (request, Rreq.get_serialized_size, 9 ∷ [])
rreq_round_trip_example = rreq_round_trip bytes bytes_laws request (9 ∷ []) (ground arith)

abbrev reply : RrepHeader
reply = record {
  flags = 64;
  prefix_size = 0;
  hop_count = 1;
  dst = 167772163;
  dst_seq_no = 5;
  origin = 167772161;
  life_time = 6000;
}

rrep_round_trip_example :
    Rrep.deserialize bytes (Rrep.serialize bytes reply (9 ∷ []))
    ≡ some (reply, Rrep.get_serialized_size, 9 ∷ [])
rrep_round_trip_example = rrep_round_trip bytes bytes_laws reply (9 ∷ []) (ground arith)

rrep_ack_back :
    RrepAck.deserialize bytes (RrepAck.serialize bytes record { reserved = 3 } [])
    ≡ some (record { reserved = 3 }, RrepAck.get_serialized_size, [])
rrep_ack_back = rrep_ack_round_trip bytes bytes_laws record { reserved = 3 } [] (ground arith)

abbrev invalid : TypeHeader
invalid = record { type = rreq; valid = false }

type_byte_back :
    Type_header.deserialize bytes invalid (Type_header.serialize bytes (header rerr) [])
    ≡ some (header (header rerr).type, Type_header.get_serialized_size, [])
type_byte_back = type_round_trip bytes bytes_laws (header rerr) invalid []

code-ne-5 : (t : MessageType) → code t ≢ 5
unfolding code
code-ne-5 rreq = omega arith
code-ne-5 rrep = omega arith
code-ne-5 rerr = omega arith
code-ne-5 rrep_ack = omega arith

no_such_type :
    Type_header.deserialize bytes (header rrep) (put8 5 [])
    ≡ some (record (header rrep) { valid = false }, Type_header.get_serialized_size, [])
no_such_type = unknown_type_lem bytes bytes_laws (header rrep) 5 [] (omega arith) code-ne-5

abbrev broken : RerrHeader
broken = record { flag = 0; reserved = 0; unreachable = (3, 8) ∷ (7, 2) ∷ [] }

rerr_round_trip_example :
    Rerr.deserialize bytes (Rerr.serialize bytes broken (9 ∷ []))
    ≡ some (broken, Rerr.get_serialized_size broken, 9 ∷ [])
rerr_round_trip_example = rerr_round_trip bytes bytes_laws broken (9 ∷ []) (ground arith)

add_un_destination_lem_example :
    ((add_un_destination 5 1 broken ≡ none)
      ↔ ((length broken.unreachable ≡ 255) × (find 5 broken.unreachable ≡ none)))
    × OnSome (add_un_destination 5 1 broken) (λ r.
      (r.1 ≡ true)
      × IsSorted r.0.unreachable
      × (length r.0.unreachable ≤ 255)
      × (find 7 r.0.unreachable
          ≡ or_else (find 7 broken.unreachable) (if 5 == 7 then some 1 else none)))
add_un_destination_lem_example = add_un_destination_lem 5 1 7 broken (omega arith) (ground arith)

least_removed : Returns (remove_un_destination broken) (λ r.
    Above r.0.0 r.1.unreachable
    × (find 7 broken.unreachable ≡ (if r.0.0 == 7 then some r.0.1 else find 7 r.1.unreachable)))
least_removed = remove_un_destination_lem 7 broken (ground arith) (λ e. ground arith)

is_equal_iff_example : (is_equal broken broken ≡ true) ↔ (broken ≡ broken)
is_equal_iff_example = is_equal_iff broken broken (omega arith) (omega arith)

one_flag_set :
    (get_flag 3 (set_flag 5 true 9) ≡ (if 5 == 3 then true else get_flag 3 9))
    × (set_flag 5 true 9 < 256)
one_flag_set = get_flag-set_flag true 5 3 9 (omega arith) (omega arith) (omega arith)
