-- ===== src/IdCache.antt =====
-- aodv-id-cache.h and aodv-id-cache.cc, and the duplicate detection of aodv-dpd.cc on top of it.
-- `Simulator::Now()` is an argument of each call.
pub mod Recall
mod Tests
use fp_jaringan_nirkabel.Base.{
  ℕ, ◌==◌, ◌&&◌, Bool, true, false, List, [], ◌∷◌, ◌++◌, if◌then◌else◌, ◌+ℤ◌, ltb_ℤ, remove_if, any,
  length,
}
use fp_jaringan_nirkabel.Net.{Time, Packet, Ipv4Header}

pub record UniqueId : Type 0 where
  pub context : ℕ
  pub id : ℕ
  pub expire : Time

pub record IdCache : Type 0 where
  pub id_cache : List UniqueId
  pub lifetime : Time

unfoldable pub init : Time → IdCache
init lifetime = record { id_cache = []; lifetime = lifetime }

unfoldable pub is_expired : Time → UniqueId → Bool
is_expired now u = ltb_ℤ u.expire now

unfoldable pub purge : Time → IdCache → IdCache
unfolding is_expired
purge now c = record c { id_cache = remove_if (is_expired now) c.id_cache }

-- The test of the loop in `IsDuplicate`.
unfoldable pub is_entry : ℕ → ℕ → UniqueId → Bool
is_entry addr id u = u.context == addr && u.id == id

unfoldable pub is_duplicate : Time → ℕ → ℕ → IdCache → IdCache × Bool
unfolding purge is_entry
is_duplicate now addr id c =
    let c' = purge now c in
    if any (is_entry addr id) c'.id_cache
    then (c', true)
    else (record c' { id_cache = c'.id_cache ++ unique_id ∷ [] }, false)
  where
    unique_id : UniqueId
    unique_id = record { context = addr; id = id; expire = c.lifetime +ℤ now }

unfoldable pub get_size : Time → IdCache → IdCache × ℕ
unfolding purge
get_size now c = let c' = purge now c in (c', length c'.id_cache)

unfoldable pub set_lifetime : Time → IdCache → IdCache
set_lifetime lifetime c = record c { lifetime = lifetime }

-- `DuplicatePacketDetection::IsDuplicate`: a packet is known by its source and its unique id.
unfoldable pub is_duplicate_packet : Time → Packet → Ipv4Header → IdCache → IdCache × Bool
unfolding is_duplicate
is_duplicate_packet now p header c = is_duplicate now header.source p.uid c
