-- ===== src/Protocol/Timers.antt =====
-- The timers of aodv-routing-protocol.cc: `HelloTimerExpire` with `SendHello`, the two rate limits,
-- `AckTimerExpire`, `MetricsUpdateTimerExpire` and `PathQualityTimerExpire` with `CheckPathQuality`.
use fp_jaringan_nirkabel.Base.{
  ℕ, true, none, some, List, [], ◌∷◌, if◌then◌else◌, pos, ◌-ℤ◌, ltb_ℤ, max_ℤ,
}
use fp_jaringan_nirkabel.Net.{Time}
use fp_jaringan_nirkabel.Platform.{Platform, max_double}
use fp_jaringan_nirkabel.RouteEntry.{InterfaceAddress}
use fp_jaringan_nirkabel.RoutingTable.{purge_multipath_routes, mark_link_as_unidirectional}
use fp_jaringan_nirkabel.Metrics.{calculate_weights}
use fp_jaringan_nirkabel.Packet.Rrep.{new_header}
use fp_jaringan_nirkabel.Discovery.{bcast_destination}
use fp_jaringan_nirkabel.Protocol.{
  Node, Protocol, Output, greeted, table_of, sockets_of, with_table, hello_time,
}

-- The loop of `SendHello`.
unfoldable pub hellos : Node → ℕ → List (ℕ × InterfaceAddress) → List Output
unfolding new_header hello_time bcast_destination
hellos node seq_no [] = []
hellos node seq_no ((socket, iface) ∷ ss) =
    greeted socket (new_header node.clock 0 0 iface.local seq_no iface.local (hello_time node))
      (bcast_destination iface)
    ∷ hellos node seq_no ss

module _ {D : Type 0} where
  unfoldable pub send_hello : Node → Protocol D → List Output
  unfolding hellos
  send_hello node s = hellos node s.discovery.seq_no (sockets_of s)

  unfoldable pub hello_timer_expire : Node → Time → Protocol D → Protocol D × List Output
  unfolding send_hello
  hello_timer_expire node now s =
      let last = s.discovery.last_bcast_time in
      let recent = ltb_ℤ (pos 0) last in
      let offset = if recent then now -ℤ last else pos 0 in
      (
        record s {
          htimer = some (max_ℤ (pos 0) (node.hello_interval -ℤ offset));
          discovery = record s.discovery { last_bcast_time = pos 0 };
        },
        if recent then [] else send_hello node s,
      )

  unfoldable pub rreq_rate_limit_timer_expire : Protocol D → Protocol D
  rreq_rate_limit_timer_expire s = record s { discovery = record s.discovery { rreq_count = 0 } }

  unfoldable pub rerr_rate_limit_timer_expire : Protocol D → Protocol D
  rerr_rate_limit_timer_expire s = record s { rerr_count = 0; is_rerr_timer_running = true }

module _ {D : Type 0} ⦃o : Platform D⦄ where
  open o use {decimal, sub}

  unfoldable pub ack_timer_expire : ℕ → Time → Protocol D → Protocol D
  unfolding mark_link_as_unidirectional
  ack_timer_expire neighbor blacklist_timeout s =
      with_table (mark_link_as_unidirectional neighbor blacklist_timeout (table_of s)).0 s

  unfoldable pub metrics_update_timer_expire : Protocol D → Protocol D
  unfolding max_double calculate_weights
  metrics_update_timer_expire s = record s {
    residual_energy = max_double (decimal (pos 1) 1) (sub s.residual_energy (decimal (pos 1) 2));
    current_weights = calculate_weights s.network_context;
  }

  unfoldable pub check_path_quality : Time → Protocol D → Protocol D
  unfolding purge_multipath_routes
  check_path_quality now s =
      if s.multipath_enabled then with_table (purge_multipath_routes now (table_of s)) s else s

  -- The timer is scheduled again only while alternative paths are enabled.
  unfoldable pub path_quality_timer_expire : Node → Time → Protocol D → Protocol D
  unfolding check_path_quality
  path_quality_timer_expire node now s =
      if s.multipath_enabled
      then record (check_path_quality now s) { path_quality_timer = some (node.seconds 3) }
      else record s { path_quality_timer = none }
