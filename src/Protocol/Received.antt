-- ===== src/Protocol/Received.antt =====
-- `RecvAodv` of aodv-routing-protocol.cc: a message from a socket, by its type.
use fp_jaringan_nirkabel.Base.{ℕ, ◌==◌, Option, none, some, List, [], ◌>>=◌, find_if}
use fp_jaringan_nirkabel.Net.{Time}
use fp_jaringan_nirkabel.Platform.{Platform}
use fp_jaringan_nirkabel.RouteEntry.{InterfaceAddress}
use fp_jaringan_nirkabel.Packet.Rreq.{RreqHeader}
use fp_jaringan_nirkabel.Packet.Rrep.{RrepHeader}
use fp_jaringan_nirkabel.Packet.Rerr.{RerrHeader}
use fp_jaringan_nirkabel.Routing.{update_route_to_neighbor}
use fp_jaringan_nirkabel.Errors.{recv_error}
use fp_jaringan_nirkabel.Protocol.{
  Node, Protocol, Output, table_of, sockets_of, with_table, reporter, report,
}
use fp_jaringan_nirkabel.Protocol.RecvRequest.{recv_request}
use fp_jaringan_nirkabel.Protocol.Replies.{recv_reply, recv_reply_ack}

-- A message without its type header; `unknown` is a header that is not valid.
pub data Message : Type 0 where
  rreq : RreqHeader → Message
  rrep : RrepHeader → Message
  rerr : RerrHeader → Message
  rrep_ack : Message
  unknown : Message

unfoldable pub local_of : Option (ℕ × InterfaceAddress) → Option ℕ
local_of none = none
local_of (some (socket, iface)) = some iface.local

unfoldable pub socket_address : ℕ → List (ℕ × InterfaceAddress) → Option ℕ
unfolding local_of
socket_address socket ss = local_of (find_if (λ s. s.0 == socket) ss)

module _ {D : Type 0} where
  -- `none` for a socket that the node does not know.
  unfoldable pub receiver_of : ℕ → Protocol D → Option ℕ
  unfolding socket_address
  receiver_of socket s = elim (socket_address socket (sockets_of s)) [
    | some receiver ↦ some receiver
    | none ↦ socket_address socket s.subnet_broadcast_addresses
  ]

module _ {D : Type 0} ⦃o : Platform D⦄ where
  unfoldable pub handle :
      Node
      → Time
      → Message
      → (receiver sender ttl : ℕ) → Protocol D
      → Option (Protocol D × List Output)
  unfolding recv_request recv_reply recv_error reporter recv_reply_ack
  handle node now (rreq h) receiver sender ttl s = recv_request node now h receiver sender ttl s
  handle node now (rrep h) receiver sender ttl s = recv_reply node now h receiver sender ttl s
  handle node now (rerr h) receiver sender ttl s =
      report s (recv_error now h sender (reporter node s))
  handle node now rrep_ack receiver sender ttl s = some (recv_reply_ack now sender s, [])
  handle node now unknown receiver sender ttl s = some (s, [])

  unfoldable pub recv_aodv :
      Node
      → Time
      → (socket : ℕ) → Message
      → (sender ttl : ℕ) → Protocol D
      → Option (Protocol D × List Output)
  unfolding receiver_of update_route_to_neighbor handle
  recv_aodv node now socket message sender ttl s = do
    receiver ← receiver_of socket s
    handle node now message receiver sender ttl (
        with_table
          (update_route_to_neighbor node.ip now node.active_route_timeout sender receiver
            (table_of s))
          s)
