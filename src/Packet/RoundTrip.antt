-- ===== src/Packet/RoundTrip.antt =====
-- Each header is read back from its own bytes.
use mathlib.Core.List.{append-nil, append_assoc}
use fp_jaringan_nirkabel.Base.{
  ℕ, ◌+◌, ◌-◌, ◌*◌, ◌%◌, ◌^◌, ◌<◌, ◌≡◌, ◌≢◌, refl, sym, false, some, arith, ap, ◌∙◌, [], ◌∷◌, ◌++◌,
  length, All,
}
use fp_jaringan_nirkabel.AddressMap.{AddressMap, Above, IsSorted}
use fp_jaringan_nirkabel.AddressMap.Laws.{insert-append, Above-step, Above-IsSorted}
use fp_jaringan_nirkabel.Wire.{Wire, WireLaws, asserted_lem}
use fp_jaringan_nirkabel.Packet.TypeHeader as Type_header
use fp_jaringan_nirkabel.Packet.TypeHeader.{
  MessageType, TypeHeader, rreq, rrep, rerr, rrep_ack, code, decode, header,
}
use fp_jaringan_nirkabel.Packet.Rreq as Rreq
use fp_jaringan_nirkabel.Packet.Rreq.{RreqHeader}
use fp_jaringan_nirkabel.Packet.Rrep as Rrep
use fp_jaringan_nirkabel.Packet.Rrep.{RrepHeader}
use fp_jaringan_nirkabel.Packet.RrepAck as RrepAck
use fp_jaringan_nirkabel.Packet.RrepAck.{RrepAckHeader}
use fp_jaringan_nirkabel.Packet.Rerr as Rerr
use fp_jaringan_nirkabel.Packet.Rerr.{RerrHeader}

-- The fields hold numbers of their C++ types.
abbrev pub IsRreq : RreqHeader → Type 0
IsRreq h =
    (h.flags < 2 ^ 8)
    × (h.reserved < 2 ^ 8)
    × (h.hop_count < 2 ^ 8)
    × (h.request_id < 2 ^ 32)
    × (h.dst < 2 ^ 32)
    × (h.dst_seq_no < 2 ^ 32)
    × (h.origin < 2 ^ 32)
    × (h.origin_seq_no < 2 ^ 32)

abbrev pub IsRrep : RrepHeader → Type 0
IsRrep h =
    (h.flags < 2 ^ 8)
    × (h.prefix_size < 2 ^ 8)
    × (h.hop_count < 2 ^ 8)
    × (h.dst < 2 ^ 32)
    × (h.dst_seq_no < 2 ^ 32)
    × (h.origin < 2 ^ 32)
    × (h.life_time < 2 ^ 32)

-- Besides, the destinations ascend and are few enough for the count's byte.
abbrev pub IsRerr : RerrHeader → Type 0
IsRerr h =
    (h.flag < 2 ^ 8)
    × (h.reserved < 2 ^ 8)
    × (length h.unreachable < 2 ^ 8)
    × IsSorted h.unreachable
    × All (λ u. (u.0 < 2 ^ 32) × (u.1 < 2 ^ 32)) h.unreachable

decode-code : (t : MessageType) (old : TypeHeader) → decode old (code t) ≡ header t
unfolding code decode header
decode-code rreq old = refl
decode-code rrep old = refl
decode-code rerr old = refl
decode-code rrep_ack old = refl

code-bound : (t : MessageType) → code t < 2 ^ 8
unfolding code
code-bound rreq = omega arith
code-bound rrep = omega arith
code-bound rerr = omega arith
code-bound rrep_ack = omega arith

module _ {B : Type 0} (w : Wire B) (laws : WireLaws w) where
  open laws use {
    read-write_u8, read-write_u32, read-write_to, size-write_u8, size-write_u32, size-write_to,
  }

  size_lem : (n : ℕ) (a b : B) → w.size a ≡ w.size b + n → w.size a - w.size b ≡ n
  size_lem n a b h = omega (arith, h)

  rreq_size : (h : RreqHeader) (rest : B) → w.size (Rreq.serialize w h rest) ≡ w.size rest + 23
  unfolding Rreq.serialize
  rreq_size h rest = grind (arith, size-write_u8, size-write_u32, size-write_to)

  -- A request whose fields fit their C++ types is read back from its bytes as it was, with 23 bytes
  -- taken and what stands behind them left.
  pub rreq_round_trip :
      (h : RreqHeader) (rest : B)
      → IsRreq h
      → Rreq.deserialize w (Rreq.serialize w h rest) ≡ some (h, Rreq.get_serialized_size, rest)
  unfolding Rreq.serialize Rreq.deserialize
  rreq_round_trip h rest (b1, b2, b3, b4, b5, b6, b7, b8) = rw (read-write_u8 h.flags _ b1) (
      rw (read-write_u8 h.reserved _ b2) (
        rw (read-write_u8 h.hop_count _ b3) (
          rw (read-write_u32 h.request_id _ b4) (
            rw (read-write_to h.dst _ b5) (
              rw (read-write_u32 h.dst_seq_no _ b6) (
                rw (read-write_to h.origin _ b7) (
                  rw (read-write_u32 h.origin_seq_no _ b8)
                    (rw (asserted_lem 23 _ (size_lem 23 _ rest (rreq_size h rest))) refl))))))))

  rrep_size : (h : RrepHeader) (rest : B) → w.size (Rrep.serialize w h rest) ≡ w.size rest + 19
  unfolding Rrep.serialize
  rrep_size h rest = grind (arith, size-write_u8, size-write_u32, size-write_to)

  -- A reply whose fields fit their C++ types is read back from its bytes as it was, with 19 bytes
  -- taken and what stands behind them left.
  pub rrep_round_trip :
      (h : RrepHeader) (rest : B)
      → IsRrep h
      → Rrep.deserialize w (Rrep.serialize w h rest) ≡ some (h, Rrep.get_serialized_size, rest)
  unfolding Rrep.serialize Rrep.deserialize
  rrep_round_trip h rest (b1, b2, b3, b4, b5, b6, b7) = rw (read-write_u8 h.flags _ b1) (
      rw (read-write_u8 h.prefix_size _ b2) (
        rw (read-write_u8 h.hop_count _ b3) (
          rw (read-write_to h.dst _ b4) (
            rw (read-write_u32 h.dst_seq_no _ b5) (
              rw (read-write_to h.origin _ b6) (
                rw (read-write_u32 h.life_time _ b7)
                  (rw (asserted_lem 19 _ (size_lem 19 _ rest (rrep_size h rest))) refl)))))))

  -- An acknowledgment is read back from its byte.
  pub rrep_ack_round_trip :
      (h : RrepAckHeader) (rest : B)
      → h.reserved < 2 ^ 8
      → RrepAck.deserialize w (RrepAck.serialize w h rest)
        ≡ some (h, RrepAck.get_serialized_size, rest)
  unfolding RrepAck.serialize RrepAck.deserialize
  rrep_ack_round_trip h rest b =
      rw (read-write_u8 h.reserved rest b)
        (rw (asserted_lem 1 _ (size_lem 1 _ rest (size-write_u8 h.reserved rest))) refl)

  -- The type byte of a header is read back as its type and counts as valid, whatever the header
  -- held that is read into.
  pub type_round_trip :
      (h old : TypeHeader) (rest : B)
      → Type_header.deserialize w old (Type_header.serialize w h rest)
        ≡ some (header h.type, Type_header.get_serialized_size, rest)
  unfolding Type_header.serialize Type_header.deserialize
  type_round_trip h old rest = rw (read-write_u8 (code h.type) rest (code-bound h.type)) (
      rw (decode-code h.type old)
        (rw (asserted_lem 1 _ (size_lem 1 _ rest (size-write_u8 (code h.type) rest))) refl))

  decode-unknown :
      (old : TypeHeader) (x : ℕ)
      → ((t : MessageType) → code t ≢ x)
      → decode old x ≡ record old { valid = false }
  unfolding code decode
  decode-unknown old x unknown =
      ground (arith, unknown rreq, unknown rrep, unknown rerr, unknown rrep_ack)

  -- A byte that is the code of no message type makes the header invalid, which keeps its old type.
  pub unknown_type_lem :
      (old : TypeHeader) (x : ℕ) (rest : B)
      → x < 2 ^ 8
      → ((t : MessageType) → code t ≢ x)
      → Type_header.deserialize w old (w.write_u8 x rest)
        ≡ some (record old { valid = false }, Type_header.get_serialized_size, rest)
  unfolding Type_header.deserialize
  unknown_type_lem old x rest b unknown = rw (read-write_u8 x rest b) (
      rw (decode-unknown old x unknown)
        (rw (asserted_lem 1 _ (size_lem 1 _ rest (size-write_u8 x rest))) refl))

  destinations_round_trip :
      (us acc : AddressMap ℕ) (rest : B)
      → IsSorted us
      → All (λ u. (u.0 < 2 ^ 32) × (u.1 < 2 ^ 32)) us
      → All (λ e. Above e.0 us) acc
      → Rerr.read_destinations w (length us) acc (Rerr.write_destinations w us rest)
        ≡ some (acc ++ us, rest)
  unfolding Rerr.write_destinations Rerr.read_destinations
  destinations_round_trip [] acc rest s b a = ap (λ us. some (us, rest)) (sym (append-nil acc))
  destinations_round_trip ((k, s) ∷ us) acc rest sorted ((bk, bs), b) a =
      let (l, _, r) = Above-step k s acc us sorted a in
      rw (read-write_to k _ bk) (
        rw (read-write_u32 s _ bs) (
          rw (insert-append k s acc l) (
            destinations_round_trip us (acc ++ (k, s) ∷ []) rest (Above-IsSorted k us sorted) b r
            ∙ ap (λ us. some (us, rest)) (append_assoc acc ((k, s) ∷ []) us))))

  destinations_size :
      (us : AddressMap ℕ) (rest : B)
      → w.size (Rerr.write_destinations w us rest) ≡ w.size rest + 8 * length us
  unfolding Rerr.write_destinations
  destinations_size [] rest = omega arith
  destinations_size ((k, s) ∷ us) rest =
      grind (arith, destinations_size us rest, size-write_u32, size-write_to)

  rerr_size :
      (h : RerrHeader) (rest : B)
      → length h.unreachable < 2 ^ 8
      → w.size (Rerr.serialize w h rest) ≡ w.size rest + Rerr.get_serialized_size h
  unfolding Rerr.serialize Rerr.get_serialized_size Rerr.get_dest_count
  rerr_size h rest b = grind (arith, destinations_size h.unreachable rest, size-write_u8)

  -- An error message whose fields fit their C++ types, with fewer than 256 destinations in order, is
  -- read back from its bytes as it was, and as many bytes are taken as its serialized size says.
  pub rerr_round_trip :
      (h : RerrHeader) (rest : B)
      → IsRerr h
      → Rerr.deserialize w (Rerr.serialize w h rest) ≡ some (h, Rerr.get_serialized_size h, rest)
  unfolding Rerr.serialize Rerr.deserialize Rerr.get_dest_count
  rerr_round_trip h rest (b1, b2, b3, sorted, b4) = rw (read-write_u8 h.flag _ b1) (
      rw (read-write_u8 h.reserved _ b2) (
        rw (read-write_u8 (length h.unreachable % 2 ^ 8) _ (omega arith)) (
          rw fits (
            rw (destinations_round_trip h.unreachable [] rest sorted b4 tt) (
              rw (asserted_lem _ _ (size_lem _ _ rest (rerr_size h rest b3)))
                (ap (λ n. some (h, 3 + 8 * n, rest)) fits))))))
    where
      fits : length h.unreachable % 2 ^ 8 ≡ length h.unreachable
      fits = omega arith
