-- ===== src/Routing/Freshness.antt =====
-- The reverse route of `RecvRequest` and the forward route of `RecvReply`, up to the part for the
-- request's originator, against the routes before.
use mathlib.Core.Option as Opt
use fp_jaringan_nirkabel.Base.{
  ℕ, ◌*◌, ◌^◌, ◌<◌, ◌≤◌, ◌&&◌, ◌≡◌, ◌∙◌, refl, ◌⊎◌, inl, inr, true, false, none, some, arith,
  Bool-cases, ==_refl, pos, ◌-ℤ◌, ◌*ℤ◌, ◌+ℤ◌, ◌≤ℤ◌, max_ℤ, +ℤ_parts, -ℤ_parts,
}
use fp_jaringan_nirkabel.AddressMap.{find}
use fp_jaringan_nirkabel.Net.{Time}
use fp_jaringan_nirkabel.Platform.{Platform}
use fp_jaringan_nirkabel.RouteEntry.{
  RoutingTableEntry, is_valid, is_in_search, set_rreq_cnt, set_life_time, get_life_time, set_hop,
  set_interface, set_output_device, set_next_hop, set_valid_seq_no, set_seq_no,
}
use fp_jaringan_nirkabel.RoutingTable.{RoutingTable, purge, lookup_route, add_route, update, stored}
use fp_jaringan_nirkabel.RoutingTable.Invariant.{IsValid, purge-IsValid}
use fp_jaringan_nirkabel.RoutingTable.Lookup.{find-purge, find-add_route, find-update}
use fp_jaringan_nirkabel.Routing.{
  Ipv4, accepts, newer_seq_no, reversed, update_reverse_route, update_forward_route,
}
use fp_jaringan_nirkabel.Routing.SeqNo.{is_newer, is_newer_asym, is_newer_irrefl}

module _ {D : Type 0} ⦃o : Platform D⦄ where
  pub find-added :
      (now : Time) (e : RoutingTableEntry) (t : RoutingTable D)
      → IsValid t
      → find e.route.destination (purge now t).routes ≡ none
      → find e.route.destination (add_route now e (purge now t)).0.routes ≡ some (stored e)
  unfolding Opt.bind Opt.or_else
  find-added now e t v new =
      (find-add_route now e e.route.destination (purge now t)).0
      ∙ rw (==_refl e.route.destination)
          (rw (find-purge now e.route.destination (purge now t) (purge-IsValid now t v), new) refl)

  pub find-updated :
      (e old : RoutingTableEntry) (t : RoutingTable D)
      → find e.route.destination t.routes ≡ some old
      → find e.route.destination (update e t).0.routes ≡ some (stored e)
  find-updated e old t there =
      (find-update e e.route.destination t).0 ∙ rw (==_refl e.route.destination, there) refl

-- Where the sequence number is the same, the route is no longer than before, or replaces a route
-- that was not valid.
abbrev pub NoWorse : RoutingTableEntry → RoutingTableEntry → Type 0
NoWorse old new =
    (is_newer new.seq_no old.seq_no ≡ true)
    ⊎ ((new.seq_no ≡ old.seq_no) × ((new.hops ≤ old.hops) ⊎ (is_valid old.flag ≡ false)))

accepts-NoWorse :
    (offered old : RoutingTableEntry)
    → old.valid_seq_no ≡ true
    → accepts offered.seq_no offered.hops old ≡ true
    → NoWorse old offered
unfolding accepts
accepts-NoWorse offered old known h = ground arith

NoWorse-stored : (old e : RoutingTableEntry) → NoWorse old e → NoWorse old (stored e)
unfolding stored is_in_search set_rreq_cnt
NoWorse-stored old e h = elim (Bool-cases (is_in_search e.flag)) [
  | inl search ↦ rw search h
  | inr other ↦ rw other h
]

seq_no-stored : (e : RoutingTableEntry) → (stored e).seq_no ≡ e.seq_no
unfolding stored set_rreq_cnt
seq_no-stored e = ground arith

NoWorse-newer :
    (old new : RoutingTableEntry)
    → old.seq_no < 2 ^ 32
    → new.seq_no < 2 ^ 32
    → NoWorse old new
    → is_newer old.seq_no new.seq_no ≡ false
NoWorse-newer old new b b' (inl newer) = is_newer_asym new.seq_no old.seq_no b' b newer
NoWorse-newer old new b b' (inr (same, _)) = rw same (is_newer_irrefl old.seq_no)

module _ {D : Type 0} ⦃o : Platform D⦄ where
  -- The forward route's tests in `RecvReply` never make a known route worse. If the purge leaves a
  -- route whose sequence number is valid, then after them there is one whose number is newer, or is
  -- the same on a route that is no longer or replaces one that is not valid; so the old number is
  -- not newer than the new one.
  pub update_forward_route-NoWorse :
      (now : Time) (offered old : RoutingTableEntry) (t : RoutingTable D)
      → find offered.route.destination (purge now t).routes ≡ some old
      → old.valid_seq_no ≡ true
      → old.seq_no < 2 ^ 32
      → offered.seq_no < 2 ^ 32
      → (new : RoutingTableEntry) × (find offered.route.destination
            (update_forward_route now offered t).routes
          ≡ some new)
        × NoWorse old new
        × (is_newer old.seq_no new.seq_no ≡ false)
  unfolding update_forward_route lookup_route
  update_forward_route-NoWorse now offered old t there known b b' =
      elim (Bool-cases (accepts offered.seq_no offered.hops old)) [
        | inl accepted ↦
            let better = NoWorse-stored old offered (accepts-NoWorse offered old known accepted) in
            rw (there, accepted, update_forward_route)
              ((
                stored offered,
                find-updated offered old (purge now t) there,
                better,
                NoWorse-newer old (stored offered) b (rw (seq_no-stored offered) b') better,
              ))
        | inr refused ↦
            let kept : NoWorse old old = inr (refl, inl (omega arith)) in
            rw (there, refused, update_forward_route)
              ((old, there, kept, NoWorse-newer old old b b kept))
      ]

  -- A reply for a destination that has no route after the purge leaves the announced route.
  pub find-update_forward_route :
      (now : Time) (offered : RoutingTableEntry) (t : RoutingTable D)
      → IsValid t
      → find offered.route.destination (purge now t).routes ≡ none
      → find offered.route.destination (update_forward_route now offered t).routes
        ≡ some (stored offered)
  unfolding update_forward_route lookup_route
  find-update_forward_route now offered t v new =
      rw (new, update_forward_route) (find-added now offered t v new)

-- What a request leaves of the reverse route before.
abbrev pub IsExtended : Time → Time → RoutingTableEntry → RoutingTableEntry → Type 0
IsExtended now lifetime old new =
    (old.life_time ≤ℤ new.life_time)
    × (now +ℤ lifetime ≤ℤ new.life_time)
    × ((old.valid_seq_no && is_newer old.seq_no new.seq_no) ≡ false)

-- The route leads back over the node that the request came from.
abbrev pub LeadsBack : Ipv4 → ℕ → ℕ → ℕ → ℕ → RoutingTableEntry → Type 0
LeadsBack ip seq_no hop src receiver new =
    (new.valid_seq_no ≡ true)
    × (new.route.gateway ≡ src)
    × (new.hops ≡ hop)
    × (new.route.output_device ≡ ip.device_of receiver)
    × (new.interface ≡ ip.interface_of receiver)
    × (is_newer seq_no new.seq_no ≡ false)

newer_seq_no-newest :
    (seq_no : ℕ) (old : RoutingTableEntry)
    → old.seq_no < 2 ^ 32
    → seq_no < 2 ^ 32
    → (is_newer seq_no (newer_seq_no seq_no old) ≡ false)
      × ((old.valid_seq_no && is_newer old.seq_no (newer_seq_no seq_no old)) ≡ false)
unfolding newer_seq_no
newer_seq_no-newest seq_no old b b' = ground (
  arith,
  is_newer_asym seq_no old.seq_no b' b,
  is_newer_irrefl seq_no,
  is_newer_irrefl old.seq_no,
)

-- The life time that `SetLifeTime(std::max(lifetime, GetLifeTime()))` leaves.
pub max_life_lem :
    (now lifetime life : Time)
    → (life ≤ℤ max_ℤ lifetime (life -ℤ now) +ℤ now)
      × (now +ℤ lifetime ≤ℤ max_ℤ lifetime (life -ℤ now) +ℤ now)
max_life_lem now lifetime life = ground (
  arith,
  -ℤ_parts life now,
  +ℤ_parts now lifetime,
  +ℤ_parts lifetime now,
  +ℤ_parts (life -ℤ now) now,
)

reversed_lem :
    (ip : Ipv4) (now : Time) (seq_no hop src receiver : ℕ) (lifetime : Time)
    (old : RoutingTableEntry)
    → old.seq_no < 2 ^ 32
    → seq_no < 2 ^ 32
    → let new = reversed ip now seq_no hop src receiver lifetime old in
      LeadsBack ip seq_no hop src receiver new × IsExtended now lifetime old new
unfolding reversed set_seq_no set_valid_seq_no set_next_hop set_output_device set_interface set_hop
    set_life_time get_life_time
reversed_lem ip now seq_no hop src receiver lifetime old b b' =
    let (newest, newer) = newer_seq_no-newest seq_no old b b' in
    let (kept, enough) = max_life_lem now lifetime old.life_time in
    ((refl, refl, refl, refl, refl, newest), (kept, enough, newer))

stored-reversed :
    (ip : Ipv4) (now : Time) (seq_no hop src receiver : ℕ) (lifetime : Time)
    (old new : RoutingTableEntry)
    → LeadsBack ip seq_no hop src receiver new × IsExtended now lifetime old new
    → LeadsBack ip seq_no hop src receiver (stored new) × IsExtended now lifetime old (stored new)
unfolding stored set_rreq_cnt
stored-reversed ip now seq_no hop src receiver lifetime old new h =
    elim (Bool-cases (is_in_search new.flag)) [ inl search ↦ rw search h | inr other ↦ rw other h ]

module _ {D : Type 0} ⦃o : Platform D⦄ where
  -- Where the purge leaves a route to the origin of a request, and the sequence numbers have 32 bits,
  -- the part of `RecvRequest` that writes the reverse route leaves one over the node that the request
  -- came from, with this hop count and a valid sequence number than which the request's is not newer.
  -- It keeps at least the old life time, which is then at least the minimal one, and the old sequence
  -- number, if it was valid, is not newer than the new one.
  pub find-update_reverse_route :
      (ip : Ipv4) (now net node : Time) (seq_no hop src receiver : ℕ) (old : RoutingTableEntry)
      (t : RoutingTable D)
      → find old.route.destination (purge now t).routes ≡ some old
      → old.seq_no < 2 ^ 32
      → seq_no < 2 ^ 32
      → (new : RoutingTableEntry) × (find old.route.destination
            (update_reverse_route ip now net node old.route.destination seq_no hop src receiver
              t).routes
          ≡ some new)
        × LeadsBack ip seq_no hop src receiver new
        × IsExtended now (pos 2 *ℤ net -ℤ pos (2 * hop) *ℤ node) old new
  unfolding update_reverse_route lookup_route
  find-update_reverse_route ip now net node seq_no hop src receiver old t there b b' =
      let lifetime = pos 2 *ℤ net -ℤ pos (2 * hop) *ℤ node in
      let new = reversed ip now seq_no hop src receiver lifetime old in
      let (back, extended) =
        stored-reversed ip now seq_no hop src receiver lifetime old new
          (reversed_lem ip now seq_no hop src receiver lifetime old b b') in
      rw (there, update_reverse_route)
        (stored new, find-updated new old (purge now t) there, back, extended)
