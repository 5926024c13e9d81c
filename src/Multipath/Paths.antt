-- ===== src/Multipath/Paths.antt =====
-- The paths after an addition and a removal, looked up by next hop.
use mathlib.Core.Option as Opt
use fp_jaringan_nirkabel.Base.{ℕ, Option, List, find_if}
use fp_jaringan_nirkabel.Net.{Time}
use fp_jaringan_nirkabel.Platform.{Platform}
use fp_jaringan_nirkabel.Metrics.{tenths}
use fp_jaringan_nirkabel.Multipath.{PathInfo, has_next_hop, default_path}

module _ {D : Type 0} ⦃o : Platform D⦄ where
  abbrev pub path_via : ℕ → List (PathInfo D) → Option (PathInfo D)
  path_via next_hop = find_if (has_next_hop next_hop)

  -- A new path, before its hop count and times are set.
  abbrev pub fresh_path : Time → ℕ → PathInfo D
  fresh_path now next_hop = record (default_path now) {
    next_hop = next_hop;
    path_quality = tenths 10;
  }
