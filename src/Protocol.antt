-- ===== src/Protocol.antt =====
-- `RoutingProtocol` of aodv-routing-protocol.cc as a whole: its state, what its calls hand to the
-- outside, and the sequencing of the parts. `none` is a failed assertion of the parts.
pub mod Queueing
pub mod Forwarding
pub mod Input
pub mod Requests
pub mod RecvRequest
pub mod Replies
pub mod Timers
pub mod Paths
pub mod Received
pub mod Interfaces
pub mod Flush
pub mod Invariant
pub mod Steps
pub mod Reachable
pub mod GivingUp
pub mod Completion
pub mod SeqNo
pub mod Once
pub mod BestPath
mod Tests
use fp_jaringan_nirkabel.Base.{
  ℕ, ℤ, ◌*◌, ◌==◌, Bool, true, false, Option, none, some, List, [], ◌∷◌, ◌++◌, if◌then◌else◌, map,
  pos, ◌*ℤ◌, any, ◌>>=◌, leb_ℤ, ◌&&◌,
}
use fp_jaringan_nirkabel.Net.{Time, Packet, Ipv4Header}
use fp_jaringan_nirkabel.Platform.{Platform}
use fp_jaringan_nirkabel.Wire.{Milliseconds}
use fp_jaringan_nirkabel.RouteEntry.{RoutingTableEntry, InterfaceAddress, is_interface, Ipv4Route}
use fp_jaringan_nirkabel.RoutingTable.{RoutingTable}
use fp_jaringan_nirkabel.Metrics.{NetworkContext, WeightFactors}
use fp_jaringan_nirkabel.IdCache.{IdCache}
use fp_jaringan_nirkabel.RequestQueue.{RequestQueue, ErrorCall}
use fp_jaringan_nirkabel.Neighbors.{Neighbors, ArpView}
use fp_jaringan_nirkabel.Neighbors as Nb
use fp_jaringan_nirkabel.Packet.Rrep.{RrepHeader}
use fp_jaringan_nirkabel.Routing.{Ipv4}
use fp_jaringan_nirkabel.Discovery.{Parameters, Discovery, Event, send_request}
use fp_jaringan_nirkabel.Errors.{Reporter, ErrorMessage, find_socket}
use fp_jaringan_nirkabel.Errors.Broken.{send_rerr_when_breaks_link_to_next_hop}

-- The attributes, and what the node's `Ipv4` object, the ARP caches and `Time` answer.
pub record Node : Type 0 where
  pub parameters : Parameters
  pub ip : Ipv4
  pub view : ArpView
  pub clock : Milliseconds
  pub interface_for_device : ℕ → ℤ
  pub interface_for_address : ℕ → ℤ
  pub is_destination_address : ℕ → ℤ → Bool
  pub is_forwarding : ℤ → Bool
  pub is_multicast : ℕ → Bool
  -- The destination port of a packet's UDP header.
  pub udp_port : Packet → ℕ
  pub loopback : ℕ
  pub maximum_simulation_time : Time
  pub active_route_timeout : Time
  pub my_route_timeout : Time
  pub hello_interval : Time
  pub allowed_hello_loss : ℕ
  pub rreq_retries : ℕ
  pub rerr_rate_limit : ℕ
  pub enable_hello : Bool
  pub enable_broadcast : Bool
  -- `Seconds`
  pub seconds : ℕ → Time

-- The members that change. The routing table is the discovery's.
pub record Protocol (D : Type 0) : Type 0 where
  pub discovery : Discovery D
  pub queue : RequestQueue
  pub neighbors : Neighbors
  pub packets : IdCache
  pub rerr_count : ℕ
  -- `m_rerrRateLimitTimer` runs, which `Start` schedules first.
  pub is_rerr_timer_running : Bool
  pub multipath_enabled : Bool
  pub subnet_broadcast_addresses : List (ℕ × InterfaceAddress)
  -- The delays for which the timers were last scheduled, none for one that was stopped.
  pub htimer : Option Time
  pub path_quality_timer : Option Time
  pub residual_energy : D
  pub network_context : NetworkContext D
  pub current_weights : WeightFactors D

-- What a call hands to the outside, in order.
pub data Output : Type 0 where
  issued : Event → Output
  reported : ErrorMessage → Output
  -- A reply through an interface's socket, with its time to live, to an address.
  replied : (interface : InterfaceAddress) (header : RrepHeader) (ttl destination : ℕ) → Output
  acknowledged : (interface : InterfaceAddress) (destination : ℕ) → Output
  -- A hello message from a socket.
  greeted : (socket : ℕ) (header : RrepHeader) (destination : ℕ) → Output
  -- A call of a `UnicastForwardCallback`.
  forwarded : (ucb : ℕ) (route : Ipv4Route) (packet : Packet) (header : Ipv4Header) → Output
  dropped : ErrorCall → Output
  -- A call of a `LocalDeliverCallback`.
  delivered : (packet : Packet) (header : Ipv4Header) → Output

unfoldable pub is_same_interface : ℤ → ℤ → Bool
is_same_interface a b = leb_ℤ a b && leb_ℤ b a

unfoldable pub is_my_own_address : ℕ → List (ℕ × InterfaceAddress) → Bool
is_my_own_address src [] = false
is_my_own_address src ((_, iface) ∷ ss) =
    if src == iface.local then true else is_my_own_address src ss

-- `NS_ASSERT(socket)`: none where no socket has the interface's address.
unfoldable pub through :
    InterfaceAddress → List (ℕ × InterfaceAddress) → List Output → Option (List Output)
unfolding find_socket
through addr ss out = do socket ← find_socket addr ss; some out

unfoldable pub hello_time : Node → Time
hello_time node = pos node.allowed_hello_loss *ℤ node.hello_interval

module _ {D : Type 0} where
  abbrev pub table_of : Protocol D → RoutingTable D
  table_of s = s.discovery.table

  abbrev pub sockets_of : Protocol D → List (ℕ × InterfaceAddress)
  sockets_of s = s.discovery.socket_addresses

  abbrev pub with_table : RoutingTable D → Protocol D → Protocol D
  with_table t s = record s { discovery = record s.discovery { table = t } }

  -- The outputs of a call and of what follows it.
  abbrev pub after :
      List Output → Option (Protocol D × List Output) → Option (Protocol D × List Output)
  after out none = none
  after out (some (s, more)) = some (s, out ++ more)

  infixl 4 ◌▹◌
  abbrev pub ◌▹◌ :
      Option (Protocol D × List Output)
      → (Protocol D → Option (Protocol D × List Output))
      → Option (Protocol D × List Output)
  none ▹ f = none
  some (s, out) ▹ f = after out (f s)

  unfoldable pub reporter : Node → Protocol D → Reporter D
  reporter node s = record {
    table = s.discovery.table;
    rerr_count = s.rerr_count;
    rerr_rate_limit = node.rerr_rate_limit;
    is_limit_timer_running = s.is_rerr_timer_running;
    sockets = s.discovery.socket_addresses;
  }

  -- The members that a call on the reporter wrote, put back.
  unfoldable pub put_back : Protocol D → Reporter D → Protocol D
  put_back s r = record s {
    discovery = record s.discovery { table = r.table };
    rerr_count = r.rerr_count;
  }

  abbrev pub report :
      Protocol D → Option (Reporter D × List ErrorMessage) → Option (Protocol D × List Output)
  report s none = none
  report s (some (r, sent)) = some (put_back s r, map reported sent)

  abbrev pub discover :
      Protocol D → Option (Discovery D × List Event) → Option (Protocol D × List Output)
  discover s none = none
  discover s (some (d, events)) = some (record s { discovery = d }, map issued events)

module _ {D : Type 0} ⦃o : Platform D⦄ where
  unfoldable pub search_for : Node → Time → ℕ → Protocol D → Option (Protocol D × List Output)
  unfolding send_request
  search_for node now dst s = discover s (send_request node.parameters now dst s.discovery)

  unfoldable pub break_link : Node → Time → ℕ → Protocol D → Option (Protocol D × List Output)
  unfolding send_rerr_when_breaks_link_to_next_hop reporter put_back
  break_link node now next_hop s =
      report s (send_rerr_when_breaks_link_to_next_hop now next_hop (reporter node s))

  -- The calls of the link failure callback, which the constructor sets.
  unfoldable pub break_links : Node → Time → List ℕ → Protocol D → Option (Protocol D × List Output)
  unfolding break_link
  break_links node now [] s = some (s, [])
  break_links node now (a ∷ failures) s = break_link node now a s ▹ break_links node now failures

  -- `m_nb.Update`
  unfoldable pub update_neighbor :
      Node → Time → ℕ → Time → Protocol D → Option (Protocol D × List Output)
  unfolding Nb.update break_links
  update_neighbor node now addr expire s =
      let (n, failures) = Nb.update node.view now addr expire s.neighbors in
      break_links node now failures (record s { neighbors = n })
