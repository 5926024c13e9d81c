-- ===== src/Protocol/SeqNo.antt =====
-- The sequence number that a destination replies with.
use fp_jaringan_nirkabel.Base.{
  ℕ, ◌+◌, ◌%◌, ◌^◌, ◌<◌, ◌==◌, ◌≡◌, ◌||◌, false, true, arith, Bool-cases, inl, inr, refl, Bool, ap,
  sym, ◌∙◌, ==_iff,
}
use fp_jaringan_nirkabel.Packet.Rreq.{RreqHeader, get_unknown_seqno}
use fp_jaringan_nirkabel.Protocol.Requests.{is_current, reply_seq_no}

is_current_refl : (a : ℕ) → a < 2 ^ 32 → is_current a a ≡ true
unfolding is_current
is_current_refl a h = ground arith

or_true : (b : Bool) → b || true ≡ true
or_true true = refl
or_true false = refl

or_false : (b : Bool) → b || false ≡ b
or_false true = refl
or_false false = refl

-- For a request that knows a number, with 32-bit numbers, the destination's reply has one that is
-- at least as new exactly if the destination's own number was, or was one behind: a destination
-- that has fallen further behind replies with a number that is older than the requested one.
pub is_current-reply_seq_no :
    (seq_no : ℕ) (h : RreqHeader)
    → seq_no < 2 ^ 32
    → h.dst_seq_no < 2 ^ 32
    → get_unknown_seqno h ≡ false
    → is_current (reply_seq_no seq_no h) h.dst_seq_no
      ≡ (is_current seq_no h.dst_seq_no || h.dst_seq_no == (seq_no + 1) % 2 ^ 32)
unfolding reply_seq_no
is_current-reply_seq_no seq_no h s d known =
    elim (Bool-cases (h.dst_seq_no == (seq_no + 1) % 2 ^ 32)) [
      | inl next ↦
          rw (known, next)
            (ap (λ d. is_current ((seq_no + 1) % 2 ^ 32) d)
                ((==_iff h.dst_seq_no ((seq_no + 1) % 2 ^ 32)).0 next)
              ∙ is_current_refl ((seq_no + 1) % 2 ^ 32) (omega arith)
              ∙ sym (or_true (is_current seq_no h.dst_seq_no)))
      | inr other ↦ rw (known, other) (sym (or_false (is_current seq_no h.dst_seq_no)))
    ]
