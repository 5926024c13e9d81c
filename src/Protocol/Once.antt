-- ===== src/Protocol/Once.antt =====
-- A request is taken up once.
use fp_jaringan_nirkabel.Base.{
  mapped, chained, sym, All, subst, ◌>>=◌, ℕ, ◌==◌, ◌&&◌, ◌≡◌, ◌≤ℤ◌, ◌+ℤ◌, refl, subst, not, Bool,
  true, false, Option, none, some, List, [], ◌∷◌, Bool-cases, Option-cases, OnSome, OnSome-bind,
  OnSome-if, Returns, inl, inr, ltb,
}
use fp_jaringan_nirkabel.AddressMap.{find}
use fp_jaringan_nirkabel.Net.{Time}
use fp_jaringan_nirkabel.Platform.{Platform}
use fp_jaringan_nirkabel.RouteEntry.{RoutingTableEntry, is_valid}
use fp_jaringan_nirkabel.RoutingTable.{purge, lookup_route}
use fp_jaringan_nirkabel.IdCache.{IdCache, is_duplicate}
use fp_jaringan_nirkabel.IdCache.Recall.{
  Remembers, is_duplicate_remembered, is_duplicate-Remembers, new-Remembers,
}
use fp_jaringan_nirkabel.Packet.Rreq.{RreqHeader, get_destination_only, get_gratuitous_rrep}
use fp_jaringan_nirkabel.Errors.{Reporter, ErrorMessage}
use fp_jaringan_nirkabel.Errors.Broken.{send_rerr_when_breaks_link_to_next_hop}
use fp_jaringan_nirkabel.Neighbors as Nb
use fp_jaringan_nirkabel.Protocol.{
  Node, Protocol, Output, is_my_own_address, table_of, sockets_of, with_table, hello_time, after,
  ◌▹◌, through, reporter, put_back, report, break_link, break_links, update_neighbor,
}
use fp_jaringan_nirkabel.Protocol.Requests.{
  is_fresh, intermediate_replies, send_reply, send_reply_by_intermediate_node, pass_on,
}
use fp_jaringan_nirkabel.Protocol.RecvRequest.{
  is_blacklisted, counted_hop, to_origin_variable, or_previous, informed, answer_or_pass_on, answer,
  learn, recv_new_request, recv_request,
}

module _ {D : Type 0} (c : IdCache) where
  -- The cache of requests after a call, if it returns.
  abbrev Leaves : Option (Protocol D × List Output) → Type 0
  Leaves r = OnSome r λ r. r.0.discovery.id_cache ≡ c

  after-Leaves :
      (out : List Output) (r : Option (Protocol D × List Output)) → Leaves r → Leaves (after out r)
  after-Leaves out none h = tt
  after-Leaves out (some r) h = h

  ▹-Leaves :
      (r : Option (Protocol D × List Output)) (f : Protocol D → Option (Protocol D × List Output))
      → Leaves r
      → ((s : Protocol D) → s.discovery.id_cache ≡ c → Leaves (f s))
      → Leaves (r ▹ f)
  ▹-Leaves none f h k = tt
  ▹-Leaves (some (s, out)) f h k = after-Leaves out (f s) (k s h)

  report-Leaves :
      (s : Protocol D) (r : Option (Reporter D × List ErrorMessage))
      → s.discovery.id_cache ≡ c
      → Leaves (report s r)
  unfolding put_back
  report-Leaves s none h = tt
  report-Leaves s (some (r, sent)) h = h

module _ {D : Type 0} ⦃o : Platform D⦄ (node : Node) (now : Time) (c : IdCache) where
  break_links-Leaves :
      (failures : List ℕ) (s : Protocol D)
      → s.discovery.id_cache ≡ c
      → Leaves c (break_links node now failures s)
  unfolding break_links break_link
  break_links-Leaves [] s h = h
  break_links-Leaves (a ∷ failures) s h =
      ▹-Leaves c (break_link node now a s) (break_links node now failures)
        (report-Leaves c s (send_rerr_when_breaks_link_to_next_hop now a (reporter node s)) h)
        (break_links-Leaves failures)

  pass_on-Leaves :
      (ttl : ℕ) (h : RreqHeader) (s : Protocol D)
      → s.discovery.id_cache ≡ c
      → Leaves c (some (pass_on now ttl h s))
  unfolding pass_on
  pass_on-Leaves ttl h s k = elim (Bool-cases (ltb ttl 2)) [
    | inl last ↦ rw last k
    | inr further ↦ rw further k
  ]

  send_reply-Leaves :
      (h : RreqHeader) (to_origin : RoutingTableEntry) (s : Protocol D)
      → s.discovery.id_cache ≡ c
      → Leaves c (send_reply node h to_origin s)
  unfolding send_reply
  send_reply-Leaves h to_origin s k =
      OnSome-bind (λ r. r.0.discovery.id_cache ≡ c) (through to_origin.interface (sockets_of s) _) _
        (λ out. k)

  intermediate-Leaves :
      (to_dst to_origin : RoutingTableEntry) (grat_rep : Bool) (s : Protocol D)
      → s.discovery.id_cache ≡ c
      → Leaves c (send_reply_by_intermediate_node node now to_dst to_origin grat_rep s)
  unfolding send_reply_by_intermediate_node
  intermediate-Leaves to_dst to_origin grat_rep s k =
      OnSome-bind (λ r. r.0.discovery.id_cache ≡ c)
        (intermediate_replies node now to_dst to_origin grat_rep (sockets_of s)) _ (λ out. k)

  answer_or_pass_on-Leaves :
      (h : RreqHeader) (src ttl : ℕ) (to_origin : RoutingTableEntry) (s : Protocol D)
      → s.discovery.id_cache ≡ c
      → Leaves c (answer_or_pass_on node now h src ttl to_origin s)
  unfolding answer_or_pass_on lookup_route
  answer_or_pass_on-Leaves h src ttl to_origin s k =
      let t = purge now (table_of s) in
      let s1 = with_table t s in
      let P : Protocol D × List Output → Type 0 = λ r. r.0.discovery.id_cache ≡ c in
      elim (Option-cases (find h.dst t.routes)) [
        | inl unknown ↦ rw (unknown, answer_or_pass_on) (pass_on-Leaves ttl h s1 k)
        | inr (to_dst, there) ↦
            rw (there, answer_or_pass_on)
              (OnSome-if P (to_dst.route.gateway == src) _ _ k (
                OnSome-if P (not (is_fresh h to_dst)) _ _ (pass_on-Leaves ttl h s1 k) (
                  OnSome-if P (not (get_destination_only h) && is_valid to_dst.flag) _ _
                    (intermediate-Leaves to_dst
                      (or_previous to_origin (find h.origin (purge now t).routes))
                      (get_gratuitous_rrep h) (with_table (purge now t) s) k)
                    (pass_on-Leaves ttl (informed h to_dst) s1 k))))
      ]

  answer-Leaves :
      (h : RreqHeader) (src ttl : ℕ) (to_origin : RoutingTableEntry) (s : Protocol D)
      → s.discovery.id_cache ≡ c
      → Leaves c (answer node now h src ttl to_origin s)
  unfolding answer lookup_route
  answer-Leaves h src ttl to_origin s k =
      OnSome-if (λ r. r.0.discovery.id_cache ≡ c) (is_my_own_address h.dst (sockets_of s)) _ _
        (send_reply-Leaves h (or_previous to_origin (find h.origin (purge now (table_of s)).routes))
          (with_table (purge now (table_of s)) s) k)
        (answer_or_pass_on-Leaves h src ttl to_origin s k)

  recv_new_request-Leaves :
      (h : RreqHeader) (receiver src ttl : ℕ) (s : Protocol D)
      → s.discovery.id_cache ≡ c
      → Leaves c (recv_new_request node now h receiver src ttl s)
  unfolding recv_new_request update_neighbor
  recv_new_request-Leaves h receiver src ttl s k =
      let s1 = with_table (learn node now (counted_hop h) receiver src (table_of s)) s in
      let (n, failures) = Nb.update node.view now src (hello_time node) s1.neighbors in
      ▹-Leaves c (update_neighbor node now src (hello_time node) s1) _
        (break_links-Leaves failures (record s1 { neighbors = n }) k)
        (answer-Leaves (counted_hop h) src ttl (
          to_origin_variable node now (counted_hop h) receiver src
            (lookup_route now h.origin (table_of s)).1))

-- A request as it arrives.
pub record Arrival : Type 0 where
  pub time : Time
  pub header : RreqHeader
  pub receiver : ℕ
  pub src : ℕ
  pub ttl : ℕ

module _ {D : Type 0} ⦃o : Platform D⦄ (node : Node) where
  -- The record that `RecvRequest` makes of a request that it takes up.
  recorded :
      (now : Time) (h : RreqHeader) (receiver src ttl : ℕ) (s : Protocol D)
      → is_blacklisted (lookup_route now src (table_of s)).1 ≡ false
      → (is_duplicate now h.origin h.request_id s.discovery.id_cache).1 ≡ false
      → Leaves
          (is_duplicate now h.origin h.request_id s.discovery.id_cache).0
          (recv_request node now h receiver src ttl s)
  unfolding recv_request lookup_route
  recorded now h receiver src ttl s heard new =
      let t = purge now (table_of s) in
      let c = (is_duplicate now h.origin h.request_id s.discovery.id_cache).0 in
      let s2 : Protocol D = record s {
        discovery = record s.discovery { table = t; id_cache = c };
      } in
      rw (heard, new) (recv_new_request-Leaves node now c h receiver src ttl s2 refl)

  silent :
      (now : Time) (h : RreqHeader) (receiver src ttl : ℕ) (s : Protocol D)
      → (is_duplicate now h.origin h.request_id s.discovery.id_cache).1 ≡ true
      → Returns
          (recv_request node now h receiver src ttl s)
          (λ r. (r.1 ≡ []) × (table_of r.0 ≡ purge now (table_of s)) × (r.0.queue ≡ s.queue))
  unfolding recv_request lookup_route
  silent now h receiver src ttl s again =
      elim (Bool-cases (is_blacklisted (find src (purge now (table_of s)).routes))) [
        | inl ignored ↦ rw ignored (refl, refl, refl)
        | inr heard ↦ rw (heard, again) (refl, refl, refl)
      ]

  -- Requests received one after the other.
  unfoldable pub after_requests : List Arrival → Protocol D → Option (Protocol D)
  unfolding recv_request
  after_requests [] s = some s
  after_requests (a ∷ rest) s = do
    (s', out) ← recv_request node a.time a.header a.receiver a.src a.ttl s
    after_requests rest s'

  recv_request-Remembers :
      (now until : Time) (addr id : ℕ) (h : RreqHeader) (receiver src ttl : ℕ) (s : Protocol D)
      → Remembers addr id until s.discovery.id_cache
      → now ≤ℤ until
      → OnSome
          (recv_request node now h receiver src ttl s)
          (λ r. Remembers addr id until r.0.discovery.id_cache)
  unfolding recv_request lookup_route
  recv_request-Remembers now until addr id h receiver src ttl s m in_time =
      let P : Protocol D × List Output → Type 0 =
        λ r. Remembers addr id until r.0.discovery.id_cache in
      let t = purge now (table_of s) in
      let (c, duplicate) = is_duplicate now h.origin h.request_id s.discovery.id_cache in
      let kept =
        is_duplicate-Remembers now until addr id h.origin h.request_id s.discovery.id_cache m
          in_time in
      let s2 : Protocol D = record s {
        discovery = record s.discovery { table = t; id_cache = c };
      } in
      OnSome-if P (is_blacklisted (find src t.routes)) (some (with_table t s, [])) _ m (
        OnSome-if P duplicate (some (s2, [])) _ kept (
          mapped (λ r. r.0.discovery.id_cache ≡ c) P
            (recv_new_request node now h receiver src ttl s2)
            (recv_new_request-Leaves node now c h receiver src ttl s2 refl)
            (λ r same. subst (Remembers addr id until) (sym same) kept)))

  after_requests-Remembers :
      (until : Time) (addr id : ℕ) (rest : List Arrival) (s : Protocol D)
      → Remembers addr id until s.discovery.id_cache
      → All (λ a. a.time ≤ℤ until) rest
      → OnSome (after_requests rest s) (λ s'. Remembers addr id until s'.discovery.id_cache)
  unfolding after_requests
  after_requests-Remembers until addr id [] s m in_time = m
  after_requests-Remembers until addr id (a ∷ rest) s m in_time =
      chained (λ r. Remembers addr id until r.0.discovery.id_cache)
        (λ s'. Remembers addr id until s'.discovery.id_cache)
        (recv_request node a.time a.header a.receiver a.src a.ttl s) (λ r. after_requests rest r.0)
        (recv_request-Remembers a.time until addr id a.header a.receiver a.src a.ttl s m in_time.0)
        (λ r kept. after_requests-Remembers until addr id rest r.0 kept in_time.1)

  -- Once a node has taken up a new request from a sender that is not blacklisted, it stays silent on
  -- each copy with the same originator and id that arrives within the cache's life time, after any
  -- sequence of other requests and copies received within it, over whatever neighbour and with
  -- whatever hop count: it sends nothing and only drops routes that have run out.
  pub recv_request-once :
      (now later : Time) (h h' : RreqHeader) (receiver receiver' src src' ttl ttl' : ℕ)
      (between : List Arrival) (s s' s'' : Protocol D) (out : List Output)
      → is_blacklisted (lookup_route now src (table_of s)).1 ≡ false
      → (is_duplicate now h.origin h.request_id s.discovery.id_cache).1 ≡ false
      → recv_request node now h receiver src ttl s ≡ some (s', out)
      → All (λ a. a.time ≤ℤ s.discovery.id_cache.lifetime +ℤ now) between
      → after_requests between s' ≡ some s''
      → h'.origin ≡ h.origin
      → h'.request_id ≡ h.request_id
      → later ≤ℤ s.discovery.id_cache.lifetime +ℤ now
      → Returns
          (recv_request node later h' receiver' src' ttl' s'')
          (λ r. (r.1 ≡ []) × (table_of r.0 ≡ purge later (table_of s'')) × (r.0.queue ≡ s''.queue))
  recv_request-once now later h h' receiver receiver' src src' ttl ttl' between s s' s'' out heard
        new there times arrived same_origin same_id in_time =
      let c = (is_duplicate now h.origin h.request_id s.discovery.id_cache).0 in
      let until = s.discovery.id_cache.lifetime +ℤ now in
      let left : s'.discovery.id_cache ≡ c =
        subst (λ r. OnSome r (λ r. r.0.discovery.id_cache ≡ c)) there
          (recorded now h receiver src ttl s heard new) in
      let first : Remembers h.origin h.request_id until s'.discovery.id_cache =
        subst (Remembers h.origin h.request_id until) (sym left)
          (new-Remembers now h.origin h.request_id s.discovery.id_cache new) in
      let still : Remembers h.origin h.request_id until s''.discovery.id_cache =
        subst (λ r. OnSome r (λ s'. Remembers h.origin h.request_id until s'.discovery.id_cache))
          arrived (after_requests-Remembers until h.origin h.request_id between s' first times) in
      silent later h' receiver' src' ttl' s'' (
        rw (same_origin, same_id)
          (is_duplicate_remembered later until h.origin h.request_id s''.discovery.id_cache still
            in_time))
