-- ===== src/Errors/BrokenLinks.antt =====
-- No route over a neighbour stays in use after `SendRerrWhenBreaksLinkToNextHop`.
use mathlib.Core.Option as Opt
use fp_jaringan_nirkabel.Base.{ℕ, ◌==◌, ◌&&◌, ◌||◌, Bool}
use fp_jaringan_nirkabel.AddressMap.{AddressMap}
use fp_jaringan_nirkabel.Platform.{Platform}
use fp_jaringan_nirkabel.RouteEntry.{RoutingTableEntry, is_valid}
use fp_jaringan_nirkabel.RoutingTable.{RoutingTable}
use fp_jaringan_nirkabel.Errors.Later.{Later}

-- A valid route over the neighbour, or to it.
abbrev pub over : ℕ → ℕ → RoutingTableEntry → Bool
over next_hop dst e = is_valid e.flag && (e.route.gateway == next_hop || next_hop == dst)
