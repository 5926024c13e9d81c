-- ===== src/Protocol/Steps.antt =====
-- The node as a state machine: the calls that ns-3 makes of `RoutingProtocol`, its timers and its
-- sockets, and the states that they reach.
use fp_jaringan_nirkabel.Base.{ℕ, ◌≡◌, Bool, Option, none, some, List, [], ◌++◌, ◌>>=◌}
use fp_jaringan_nirkabel.Net.{Time, Packet, Ipv4Header}
use fp_jaringan_nirkabel.Platform.{Platform}
use fp_jaringan_nirkabel.Neighbors as Nb
use fp_jaringan_nirkabel.Neighbors.{Neighbors}
use fp_jaringan_nirkabel.Protocol.{Node, Protocol, Output, search_for, break_links}
use fp_jaringan_nirkabel.Protocol.Queueing.{route_request_timer_expire}
use fp_jaringan_nirkabel.Protocol.Forwarding.{route_output}
use fp_jaringan_nirkabel.Protocol.Input.{route_input}
use fp_jaringan_nirkabel.Protocol.Timers.{
  hello_timer_expire, rreq_rate_limit_timer_expire, rerr_rate_limit_timer_expire, ack_timer_expire,
  metrics_update_timer_expire, path_quality_timer_expire,
}
use fp_jaringan_nirkabel.RouteEntry.{InterfaceAddress}
use fp_jaringan_nirkabel.Protocol.Interfaces.{
  Interface, set_ipv4, start, do_initialize, do_dispose, notify_interface_up, notify_interface_down,
  notify_add_address, notify_remove_address,
}
use fp_jaringan_nirkabel.Protocol.Received.{Message, recv_aodv}

pub data Call : Type 0 where
  sends : (p : Option Packet) (header : Ipv4Header) (oif : Option ℕ) → Call
  takes : (p : Packet) (header : Ipv4Header) (idev ucb : ℕ) (lcb : Bool) (ecb : ℕ) → Call
  receives : (socket : ℕ) (message : Message) (sender ttl : ℕ) → Call
  -- A request that the rate limit put off, and the timers.
  searches : (dst : ℕ) → Call
  retries : (dst : ℕ) → Call
  greets : Call
  resets_requests : Call
  resets_errors : Call
  blacklists : (neighbor : ℕ) (timeout : Time) → Call
  updates_metrics : Call
  checks_paths : Call
  -- The neighbours' timer, and a frame that was not acknowledged.
  purges_neighbors : Call
  loses_frame : (mac : ℕ) → Call
  -- The start and the end of the simulation, and the notifications of interfaces.
  attaches starts disposes : Call
  initializes : (start_time : ℕ) → Call
  comes_up goes_down adds_address : (i : Interface) → Call
  removes_address : (i : Interface) (address : InterfaceAddress) → Call

module _ {D : Type 0} where
  unfoldable pub silently : Option (Protocol D) → Option (Protocol D × List Output)
  silently none = none
  silently (some s) = some (s, [])

module _ {D : Type 0} ⦃o : Platform D⦄ where
  -- The answers of `RouteOutput` and `RouteInput` are left out.
  unfoldable pub run : Node → Time → Call → Protocol D → Option (Protocol D × List Output)
  unfolding route_output route_input recv_aodv search_for route_request_timer_expire
      hello_timer_expire rreq_rate_limit_timer_expire rerr_rate_limit_timer_expire ack_timer_expire
      metrics_update_timer_expire path_quality_timer_expire Nb.purge Nb.process_tx_error break_links
      set_ipv4 start do_initialize do_dispose notify_interface_up notify_interface_down
      notify_add_address notify_remove_address silently
  run node now (sends p header oif) s = do
    (s', answer) ← route_output node now p header oif s
    some (s', [])
  run node now (takes p header idev ucb lcb ecb) s = do
    (s', out, handled) ← route_input node now p header idev ucb lcb ecb s
    some (s', out)
  run node now (receives socket message sender ttl) s =
      recv_aodv node now socket message sender ttl s
  run node now (searches dst) s = search_for node now dst s
  run node now (retries dst) s = route_request_timer_expire node now dst s
  run node now greets s = some (hello_timer_expire node now s)
  run node now resets_requests s = some (rreq_rate_limit_timer_expire s, [])
  run node now resets_errors s = some (rerr_rate_limit_timer_expire s, [])
  run node now (blacklists neighbor timeout) s = some (ack_timer_expire neighbor timeout s, [])
  run node now updates_metrics s = some (metrics_update_timer_expire s, [])
  run node now checks_paths s = some (path_quality_timer_expire node now s, [])
  run node now purges_neighbors s =
      let (n, failures) = Nb.purge now s.neighbors in
      break_links node now failures (record s { neighbors = n })
  run node now (loses_frame mac) s =
      let (n, failures) = Nb.process_tx_error now mac s.neighbors in
      break_links node now failures (record s { neighbors = n })
  run node now attaches s = some (set_ipv4 node now s, [])
  run node now starts s = some (start node now s, [])
  run node now disposes s = some (do_dispose s, [])
  run node now (initializes start_time) s = silently (do_initialize node start_time s)
  run node now (comes_up i) s = some (notify_interface_up node now i s, [])
  run node now (goes_down i) s = silently (notify_interface_down i s)
  run node now (adds_address i) s = some (notify_add_address node now i s, [])
  run node now (removes_address i address) s = some (notify_remove_address node now i address s, [])

  -- The states after any number of calls at any times that have all returned, with the outputs.
  pub data Reach (node : Node) (s : Protocol D) : Protocol D → List Output → Type 0 where
    begin : Reach node s s []
    next :
        {s' s'' : Protocol D} {out more : List Output} (now : Time) (call : Call)
        → Reach node s s' out
        → run node now call s' ≡ some (s'', more)
        → Reach node s s'' (out ++ more)
