-- ===== src/Examples/Loading.antt =====
-- A module that loads, joins the multicast group, and is taken down again.
use maruswap.Base.{ℕ, ◌+◌, ◌≡◌, ◌≢◌, inl, refl, false, [], ◌∷◌, length}
use maruswap.Base.Run.{Run, ok, fault, out_of_fuel}
use maruswap.Drive.Connect.{
  Kernel, Setup, Call, Event, addr_resolved, multicast_join, route_resolved, econnreset, failed,
  connection, group, is_err,
}
use maruswap.Drive.Connect
use maruswap.Drive.Group.Joined.{Granted, Sendable, Clean, Holds, ib_multicast_cm_handler-Clean}
use maruswap.Drive.Start.Sendable.{init_multicast_ctrl-Clean}
use maruswap.Drive.Group.{
  ib_multicast_cm_handler, on_group_event, multicast_addr_resolved, multicast_ctrl_joined, join_cqs,
  join_qp, multicast_ctrl_create_qp,
}
use maruswap.Drive.Wait.{
  Params, Ib, zeroed, parse_ipaddr, wait_for_completion, deliver, handle, on_ctrl, on_found,
  take_back, on_group, take_back_group, find_setup, put_setup,
}
use maruswap.Drive.Start.{init_ib, init_multicast_ctrl, resolve, parse_src, ask_resolve}
use maruswap.Drive.Start.Loaded.{Loaded}
use maruswap.Examples.Assoc.{Entries, assoc}

-- Memory, ids and addresses are there, each at a new address; of each wait, the group's two events
-- come, and the first connection's.
abbrev kernel1 : Kernel
kernel1 = record {
  answer = λ log c. elim c [
    | Connect.Call.kzalloc size ↦ 16 + length log
    | Connect.Call.kzalloc_ctrl ↦ 4096 + length log
    | Connect.Call.kzalloc_ud ↦ 64
    | Connect.Call.create_id ↦ 8192 + length log
    | Connect.Call.in4_pton ip ↦ 1
    | Connect.Call.alloc_pd ↦ 48
    | _ ↦ 0
  ];
  mapping_error = λ dma. false;
  cm_qp = λ log. 1;
  ud_qp_num = λ log. 7;
  ud_qkey = λ log. 9;
  events = λ log.
      (group, addr_resolved) ∷ (connection 4097, route_resolved) ∷ (group, multicast_join) ∷ [];
}

abbrev params1 : Params
params1 = record {
  multicast_ip = 224 ∷ [];
  src_ip = 10 ∷ [];
  fip = 11 ∷ [];
  sip = 12 ∷ [];
  serverport = 50000;
}

abbrev unloaded : Ib Entries
unloaded = record {
  rdma_ctrl_list = [];
  main_rdma_ctrl = 0;
  multicast_ctrl = zeroed 24;
  nr_rdma_ctrl = 0;
  batch = 0;
  stage_buffer = record { buffer = 0; slot = λ _. 0; index = 0; check_list = []; count = 0 };
  binders = [];
  log = [];
}

abbrev ib_of : Run (Ib Entries) ℕ → Ib Entries
ib_of (ok r t) = t
ib_of fault = unloaded
ib_of out_of_fuel = unloaded

abbrev loaded : Ib Entries
loaded = ib_of (init_ib assoc kernel1 params1 unloaded)

abbrev joined : Ib Entries
joined = ib_of (init_multicast_ctrl assoc kernel1 params1 unloaded)

joined_ok : init_multicast_ctrl assoc kernel1 params1 unloaded ≡ ok 0 joined
unfolding zeroed init_multicast_ctrl resolve parse_src ask_resolve parse_ipaddr wait_for_completion
    deliver handle on_ctrl on_found take_back on_group take_back_group find_setup put_setup
    ib_multicast_cm_handler on_group_event multicast_addr_resolved multicast_ctrl_joined join_cqs
    join_qp multicast_ctrl_create_qp is_err
joined_ok = refl

joined_clean : joined.multicast_ctrl.cm_error ≡ 0
unfolding zeroed init_multicast_ctrl resolve parse_src ask_resolve parse_ipaddr wait_for_completion
    deliver handle on_ctrl on_found take_back on_group take_back_group find_setup put_setup
    ib_multicast_cm_handler on_group_event multicast_addr_resolved multicast_ctrl_joined join_cqs
    join_qp multicast_ctrl_create_qp is_err
joined_clean = refl

init_multicast_ctrl-Clean_example :
    Sendable kernel1 joined.multicast_ctrl × Granted kernel1 joined.multicast_ctrl.pd
init_multicast_ctrl-Clean_example =
    init_multicast_ctrl-Clean assoc kernel1 params1 unloaded {t = joined} (λ h. inl (refl, refl))
      joined_ok joined_clean

ib_multicast_cm_handler-Clean_example :
    (t : Setup) × (ib_multicast_cm_handler kernel1 multicast_join (zeroed 24) ≡ ok 0 t)
    × (Clean kernel1 (zeroed 24) → Clean kernel1 t)
    × ((zeroed 24).cm_error ≢ 0 → t.cm_error ≢ 0)
    × (Holds kernel1 (zeroed 24) → Holds kernel1 t)
    × (multicast_join ≡ addr_resolved → Holds kernel1 t)
ib_multicast_cm_handler-Clean_example =
    ib_multicast_cm_handler-Clean kernel1 multicast_join (zeroed 24)
