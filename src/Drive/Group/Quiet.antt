-- ===== src/Drive/Group/Quiet.antt =====
-- What the events of the multicast group leave alone.
use maruswap.Base.{arith}
use maruswap.Drive.Connect.{
  Event, Kernel, Setup, out_alloc_cq, addr_resolved, route_resolved, established, rejected, failed,
  multicast_join, multicast_error, other,
}
use maruswap.Drive.Connect.Quiet.{Quiet, and_then-Quiet}
use maruswap.Drive.Group.{
  multicast_ctrl_create_qp, multicast_addr_resolved, multicast_route_resolved,
  multicast_connect_established, join_qp, join_cqs, multicast_ctrl_joined, on_group_event,
  ib_multicast_cm_handler,
}

module _ (k : Kernel) where
  multicast_ctrl_joined-Quiet : (s : Setup) → Quiet k s (multicast_ctrl_joined k s)
  unfolding multicast_ctrl_joined join_cqs join_qp multicast_ctrl_create_qp out_alloc_cq
  multicast_ctrl_joined-Quiet s = ground arith

  on_group_event-Quiet : (ev : Event) (s : Setup) → Quiet k s (on_group_event k ev s)
  unfolding on_group_event multicast_addr_resolved multicast_route_resolved
      multicast_connect_established
  on_group_event-Quiet addr_resolved s = ground arith
  on_group_event-Quiet route_resolved s = ground arith
  on_group_event-Quiet established s = ground arith
  on_group_event-Quiet rejected s = ground arith
  on_group_event-Quiet failed s = ground arith
  on_group_event-Quiet multicast_join s =
      and_then-Quiet k s (multicast_ctrl_joined k s) _ (multicast_ctrl_joined-Quiet s)
        (λ e u. ground arith)
  on_group_event-Quiet multicast_error s = ground arith
  on_group_event-Quiet other s = ground arith

  -- The group's handler makes no id, destroys none, and leaves the group's own alone.
  pub ib_multicast_cm_handler-Quiet :
      (ev : Event) (s : Setup) → Quiet k s (ib_multicast_cm_handler k ev s)
  unfolding ib_multicast_cm_handler
  ib_multicast_cm_handler-Quiet ev s =
      and_then-Quiet k s (on_group_event k ev s) _ (on_group_event-Quiet ev s) (λ e u. ground arith)
