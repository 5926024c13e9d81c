-- ===== src/Net.antt =====
-- The values of ns-3 that the protocol passes around, with the fields that it reads: `Packet` (its
-- unique id and the interface of a `DeferredRouteOutputTag` of aodv-routing-protocol.cc), and
-- `Ipv4Header`. Addresses and devices are numbers, and `Time` is a signed number of ticks.
use fp_jaringan_nirkabel.Base.{ℕ, ℤ, Option}

abbrev pub Time : Type 0
Time = ℤ

pub record Packet : Type 0 where
  pub uid : ℕ
  pub deferred_tag : Option ℤ

pub record Ipv4Header : Type 0 where
  pub source : ℕ
  pub destination : ℕ
  pub protocol : ℕ
  pub ttl : ℕ
