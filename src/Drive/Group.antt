-- ===== src/Drive/Group.antt =====
-- drive/sib.c: the membership of the multicast group, event by event.
pub mod Quiet
pub mod Joined
use maruswap.Base.{ℕ, not, none, some, List, [], ◌∷◌, ◌==◌, Option}
use maruswap.Base.Run.{ok, Cmd, pure, ◌>>=◌, ◌>>◌, gets, modify, test◌then◌else◌}
use maruswap.Drive.Swap.{einval}
use maruswap.Drive.Connect.{
  Event, Call, Kernel, Setup, UdPackage, econnreset, is_err, value, tell, out_alloc_cq,
  addr_resolved, route_resolved, established, failed, multicast_join, multicast_error,
}

abbrev pub put_qp : ℕ → Option UdPackage → Option UdPackage
put_qp qp none = none
put_qp qp (some u) = some (record u { qp = qp })

module _ (k : Kernel) where
  -- The group's queue pair, which is taken over even on an error.
  unfoldable pub multicast_ctrl_create_qp : Cmd Setup ℕ
  multicast_ctrl_create_qp s =
      let c = Call.create_qp s.pd s.snd_cq s.rcv_cq in
      ok (k.answer s.log c) (record s { qp = k.cm_qp (c ∷ s.log); log = c ∷ s.log })

  unfoldable pub multicast_addr_resolved : Cmd Setup ℕ
  multicast_addr_resolved = do
    pd ← value k Call.alloc_pd
    modify (λ s. record s { pd = pd })
    test is_err pd then pure einval else do
      ret ← value k (Call.join_multicast 1)
      test not (ret == 0) then tell k (Call.dealloc_pd pd) >> pure einval else pure ret

  unfoldable pub multicast_route_resolved : Cmd Setup ℕ
  multicast_route_resolved = do
    ret ← value k (Call.join_multicast 0)
    test not (ret == 0) then pure einval else pure ret

  unfoldable pub multicast_connect_established : Cmd Setup ℕ
  multicast_connect_established = pure 0

  -- from the queue pair on, whose failure is only printed
  unfoldable pub join_qp : Cmd Setup ℕ
  unfolding multicast_ctrl_create_qp
  join_qp = do
    ret ← multicast_ctrl_create_qp
    modify (λ s. record s { ud_package = put_qp (k.cm_qp s.log) s.ud_package })
    pure 0

  unfoldable pub join_cqs : Cmd Setup ℕ
  unfolding join_qp out_alloc_cq
  join_cqs = do
    cq ← value k Call.alloc_cq
    modify (λ s. record s { snd_cq = cq })
    test is_err cq then out_alloc_cq k else do
      cq ← value k Call.alloc_cq
      modify (λ s. record s { rcv_cq = cq })
      test is_err cq then out_alloc_cq k else join_qp

  -- the package of the event, in memory that `kzalloc` has cleared
  abbrev pub package_of : (ah : ℕ) → Setup → UdPackage
  package_of ah s = record {
    ah = ah;
    qp = 0;
    remote_qpn = k.ud_qp_num s.log;
    remote_qkey = k.ud_qkey s.log;
  }

  unfoldable pub multicast_ctrl_joined : Cmd Setup ℕ
  unfolding join_cqs
  multicast_ctrl_joined = do
    ud ← value k Call.kzalloc_ud
    test ud == 0 then pure einval else do
      pd ← gets (λ s. s.pd)
      ah ← value k (Call.create_ah pd)
      test is_err ah
          then tell k (Call.kfree ud) >> pure einval
          else do modify (λ s. record s { ud_package = some (package_of ah s) }); join_cqs

  -- what the handler does with an event, and its error
  unfoldable pub on_group_event : Event → Cmd Setup ℕ
  unfolding multicast_addr_resolved multicast_route_resolved multicast_connect_established
      multicast_ctrl_joined
  on_group_event addr_resolved = multicast_addr_resolved
  on_group_event route_resolved = multicast_route_resolved
  on_group_event established = multicast_connect_established
  on_group_event multicast_join = do ret ← multicast_ctrl_joined; tell k Call.complete; pure ret
  on_group_event failed = pure econnreset
  on_group_event multicast_error = pure econnreset
  on_group_event _ = pure 0

  -- 0 whatever happened: the error is only kept on record.
  unfoldable pub ib_multicast_cm_handler : Event → Cmd Setup ℕ
  unfolding on_group_event
  ib_multicast_cm_handler ev = do
    cm_error ← on_group_event ev
    test cm_error == 0
        then pure tt
        else do modify (λ s. record s { cm_error = cm_error }); tell k Call.complete
    pure 0
