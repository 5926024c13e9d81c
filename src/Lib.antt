-- ===== src/Lib.antt =====
-- Verification of the AODV routing protocol of this repository (aodv/model), an ns-3 module with a
-- multipath extension. A node keeps a routing table of one route to a destination, with a table of
-- alternative paths beside it; a queue of packets that wait for a route; and a cache of the requests
-- that it has seen. The routing protocol drives these parts from received messages and timers.
--
-- Files and what they model:
--   Base, Base/*: tests, lists, signed integers.
--   AddressMap, AddressMap/Laws: `std::map<Ipv4Address, V>` as an association list in ascending
--     order of the keys, and its laws.
--   Net: packets, IPv4 headers and times, by the fields that the program reads.
--   Platform: doubles and ns-3's default address, as parameters.
--   IdCache: aodv/model/aodv-id-cache.h and .cc (`IsDuplicate`, `Purge`, `GetSize`) and
--     `DuplicatePacketDetection::IsDuplicate` of aodv/model/aodv-dpd.cc. Recall compares it with a
--     history that forgets nothing.
--   RequestQueue: aodv/model/aodv-rqueue.h and .cc. Bounds has its limits, Contents what happens to
--     the packets.
--   RouteEntry: `RoutingTableEntry` of aodv/model/aodv-rtable.h and .cc; Precursors has its list of
--     precursors.
--   Metrics: the weights of the BLE-MAODV metrics (`AdaptiveWeightCalculator`) of the same files.
--   Multipath: `MultipathRouteEntry` and `PathInfo` of the same files; Paths and Selection have the
--     theorems.
--   RoutingTable: `RoutingTable` of the same files: `Purge`, lookups, additions, updates and
--     invalidations; Alternatives has the methods on the alternative paths; Invariant, Lookup and
--     Links have the theorems.
--   Neighbors: aodv/model/aodv-neighbor.h and .cc; Links has the theorems on the links that are
--     open or reported as broken.
--   Wire: `Buffer::Iterator` and the milliseconds of `Time`, as parameters.
--   Packet: the headers of aodv/model/aodv-packet.h and .cc, a module for each; Flags has the bits
--     of the flag bytes, RoundTrip and Unreachable have the theorems.
--   Routing: parts of aodv/model/aodv-routing-protocol.cc: the routes that `RecvRequest` and
--     `RecvReply` write, `UpdateRouteToNeighbor` and `UpdateRouteLifeTime`. SeqNo compares sequence
--     numbers; Freshness, LifeTime and Validity have the theorems.
--   Discovery: `SendRequest` and `ScheduleRreqRetry` of aodv/model/aodv-routing-protocol.cc; Ring has
--     the expanding ring search, Returns what a request leaves, Validity the rate limit.
--   Errors: `RecvError` and `SendRerrMessage` of the same file; Broken has
--     `SendRerrWhenBreaksLinkToNextHop` and `SendRerrWhenNoRouteToForward`. Reported has which
--     destinations and messages count, Returns what the loops over the destinations leave, Later what
--     makes the assertions on sockets and the timer hold, Validity the rate limit, Unused and
--     BrokenLinks which routes go out of use.
--   Protocol: the `RoutingProtocol` object of the same file, over all parts above: its state, what
--     a node is configured with, and what it puts out. Its modules hold its operations:
--     Queueing `SendPacketFromQueue`, `DeferredRouteOutput` and `RouteRequestTimerExpire`;
--     Forwarding `RouteOutput`, `LoopbackRoute` and `Forwarding`; Input `RouteInput`;
--     Requests and RecvRequest `RecvRequest` with `SendReply` and `SendReplyByIntermediateNode`;
--     Replies `RecvReply`, `SendReplyAck`, `RecvReplyAck` and `ProcessHello`;
--     Timers the expiries of the other timers and `SendHello`;
--     Paths `SelectBestPathByMetrics` and `PreemptiveRouteSwitch`;
--     Received `RecvAodv`; Interfaces `SetIpv4`, `Start`, `DoInitialize`, `DoDispose` and the
--     notifications of interfaces and addresses; Steps all of these as steps of a node.
--   Protocol/Invariant, Invariant/* and Reachable: the states that a node reaches. GivingUp and
--     Completion: how a search ends; Flush: what becomes of the packets that wait; Once: copies of
--     a request; SeqNo: the number of a reply; BestPath: the choice of a path.
--   The modules named Tests hold runs at concrete inputs.
--
-- How the model corresponds to the code: a class is a record of its member variables, a method a
-- function from the old state to the new one and the method's results, in snake_case. The clock,
-- `Simulator::Now()`, is an argument. A variable that a method fills where it returns true is an
-- option. Calls of error callbacks are a list in the order of the calls. A read of an empty vector
-- is `none`, and so is a failed assertion of the message headers, on a socket or on the timer of the
-- error rate limit, an abort of the discovery, and a shift of an `int` beyond its range.
-- A loop is a recursion on the list that it walks or on the rounds that are left; only the loop of
-- `SendPacketFromQueue` has fuel, one more than the length of the queue, and each round but the last
-- takes a packet out. What a method sends, forwards or drops is a list in the order of the calls.
--
-- Numbers: addresses, devices and callbacks are natural numbers. A time is an unbounded signed
-- integer: in a simulation, only the routes that the notifications of interfaces add, with the
-- largest life time, reach the end of the 64-bit range of ns-3's `Time`. `uint8_t` and `uint32_t`
-- counters that the code increments wrap around.
--
-- Sharing: copies of a routing table entry share one route object through a pointer. The model holds
-- it by value, since the code that writes through the pointer stores the entry afterwards.
--
-- Steps: a message, a timer or a call of ns-3 runs to its end before the next one starts, as the
-- simulator does it. The random delays before a message is sent only move the time at which the
-- socket gets it.
--
-- Not modelled: what sockets and devices do, `AssignStreams` and the attributes; the RREP_ACK timer
-- of an entry, which no code schedules; `UpdateNeighborMetrics`, `CalculateLinkQuality` and
-- `ProcessEnhancedReply`, which change no state, and `SendEnhancedRequest`, which calls
-- `SendRequest`; logging, `Print` and the type registration; the helper, tests and examples.
pub mod Base
pub mod AddressMap
pub mod Net
pub mod Platform
pub mod IdCache
pub mod RequestQueue
pub mod Metrics
pub mod Multipath
pub mod RouteEntry
pub mod RoutingTable
pub mod Neighbors
pub mod Wire
pub mod Packet
pub mod Routing
pub mod Discovery
pub mod Errors
pub mod Protocol
