-- ===== src/Examples/Driver.antt =====
-- A driver with two servers, whose block 0 is open at both: pages out and in.
use maruswap.Base.{ℕ, ◌+◌, ◌≡◌, refl, ◌↔◌, true, false, none, some, List, [], ◌∷◌, replicate, arith}
use maruswap.Base.Run.{Run, ok, fault, out_of_fuel}
use maruswap.Drive.Header.{get_num_memblock, answer_slot, rpc_imm, commit_opcode}
use maruswap.Drive.Net.{Qp, completed, Verbs}
use maruswap.Drive.Binder.{
  nr_binders, free, get_binder, get_random, set_flags, file_answer, put_binder,
}
use maruswap.Drive.Stage.{
  Stage, init_stage_buffer, stage_buffer_store, stage_buffer_load, stage_buffer_full, put_entry,
  stage_buffer_count_add,
}
use maruswap.Drive.Stage.Window.{init-IsWindow}
use maruswap.Drive.Stage.Refine.{
  Op, stores, commits, steps, apply_all, nothing, stage_buffer_refines,
}
use maruswap.Drive.Rpc.{
  ib_rpc, ib_rpc_reserved, ib_rpc_answer, take_answer, ib_putback_recv_work, await_send,
  await_answer, rpc_request,
}
use maruswap.Drive.Ctrl.{
  commit_request, ib_rpc_commit_unlocked, RdmaCtrl, Drive, ib_rpc_commit_all, commit_all,
  request_each, get_main_rdma_ctrl, check_rdma_info, some_closed,
}
use maruswap.Drive.Ctrl.Cleared.{Cleared, ib_rpc_commit_all-Cleared}
use maruswap.Drive.Swap.{
  maruswap_multicast_write, get_req_for_page, write_mapped, open_if_closed, write_opened,
  commit_if_full, send_page, ib_multicast_send, page_wr, stage, finish_transfer, await_done,
}
use maruswap.Drive.Swap.Wrote.{Sound, Reports}
use maruswap.Drive.Swap.Sound.{maruswap_multicast_write-Sound}
use maruswap.Examples.Assoc.{Entries, assoc}

-- Every call succeeds, and every poll completes the request of the caller.
abbrev pub prompt : Verbs
prompt = record {
  clock = λ log. 7;
  local = λ log. 1;
  post_send = λ log qp wr. 0;
  bad_wr = λ log qp wr. false;
  poll_cq = λ log cq. completed (record { success = true; imm_data = 7; wr_id = 1 });
  received = λ log work. record { remote_addr = 0; rkey = 0 };
  map_page = λ log device page. 0x5000;
  mapping_error = λ device dma. false;
}

abbrev pub qp0 : Qp
qp0 = record { handle = 1; send_cq = 2; recv_cq = 3; device = 4; lkey = 5 }

abbrev pub server : ℕ → RdmaCtrl
server i = record {
  id = i;
  alive = true;
  qp = qp0;
  dma_buffer = 0x6000;
  rdma_info = record { remote_addr = 0x10000000; rkey = 9 } ∷ [];
  commit = 0;
  req_rdma_info = record { remote_addr = 0; rkey = 0 };
}

abbrev pub blank : Stage Entries
blank = record { buffer = 0; slot = λ p. 0; index = 0; check_list = []; count = 0 }

-- Page frame `p` holds `p + 100`.
abbrev pub drive0 : Drive Entries
drive0 = record {
  rdma_ctrl_list = server 8 ∷ server 9 ∷ [];
  main_rdma_ctrl = 8;
  batch = 0;
  stage_buffer = (init_stage_buffer assoc 0x100000 blank).1;
  ud_package = record { ah = 1; qp = qp0; remote_qpn = 2; remote_qkey = 3 };
  frame = λ p. p + 100;
  net = record { binders = replicate nr_binders free; log = [] };
}

pub drive0-Sound : Sound assoc prompt drive0
unfolding init_stage_buffer
drive0-Sound = record {
  window = init-IsWindow assoc 0x100000 blank (omega arith);
  batch_le = omega arith;
  counted = omega arith;
}

pub prompt-Reports : Reports assoc prompt
prompt-Reports log qp wr h = absurd (ground (arith, h))

abbrev pub state_of : Drive Entries → Run (Drive Entries) ℕ → Drive Entries
state_of s (ok r t) = t
state_of s fault = s
state_of s out_of_fuel = s

-- page frame 1 is written out as page number 5
abbrev pub run1 : Run (Drive Entries) ℕ
run1 = maruswap_multicast_write assoc prompt 3 1 5 drive0

abbrev pub drive1 : Drive Entries
drive1 = state_of drive0 run1

pub run1_ok : run1 ≡ ok 0 drive1
unfolding maruswap_multicast_write get_req_for_page write_mapped open_if_closed write_opened
    commit_if_full send_page ib_multicast_send page_wr stage finish_transfer await_done
    stage_buffer_store stage_buffer_full put_entry stage_buffer_count_add init_stage_buffer
    get_main_rdma_ctrl check_rdma_info some_closed get_num_memblock
run1_ok = refl

maruswap_multicast_write-Sound_example : Sound assoc prompt drive1
maruswap_multicast_write-Sound_example =
    maruswap_multicast_write-Sound assoc prompt 3 1 5 drive0 {t = drive1} drive0-Sound run1_ok

-- page number 5 is staged with content 77
abbrev drive2 : Drive Entries
drive2 = record drive0 {
  stage_buffer = record {
    buffer = 0x100000;
    slot = λ p. 77;
    index = 1;
    check_list = (5, 0x100000) ∷ [];
    count = 1;
  };
  batch = 1;
}

abbrev history : List Op
history = stores 11 5 ∷ stores 12 6 ∷ commits ∷ stores 13 6 ∷ []

stage_buffer_refines_example :
    (st : Stage Entries) × (steps assoc (init_stage_buffer assoc 0x100000 blank).1 history
      ≡ some st)
    × ((i : ℕ) → (stage_buffer_load assoc st i).1 ≡ (apply_all nothing history).page i)
    × ((i : ℕ)
        → ((stage_buffer_load assoc st i).0 ≡ 0) ↔ ((apply_all nothing history).page i ≡ none))
stage_buffer_refines_example = stage_buffer_refines assoc 0x100000 blank history (omega arith)

-- both servers are asked to commit, and answer
abbrev run2 : Run (Drive Entries) ℕ
run2 = ib_rpc_commit_all assoc prompt 3 drive2

abbrev drive3 : Drive Entries
drive3 = state_of drive2 run2

run2_ok : run2 ≡ ok 0 drive3
unfolding ib_rpc_commit_all ib_rpc_commit_unlocked commit_all request_each commit_request
    get_main_rdma_ctrl ib_rpc ib_rpc_reserved ib_rpc_answer take_answer ib_putback_recv_work
    await_send await_answer rpc_request get_binder get_random set_flags file_answer put_binder
    commit_opcode rpc_imm answer_slot
run2_ok = refl

ib_rpc_commit_all-Cleared_example : Cleared assoc prompt drive2 drive3
ib_rpc_commit_all-Cleared_example =
    ib_rpc_commit_all-Cleared assoc prompt 3 drive2 {r = 0} {t = drive3} run2_ok
