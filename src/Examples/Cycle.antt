-- ===== src/Examples/Cycle.antt =====
-- Page frame 1 is stored as page number 5, and loaded into page frame 2.
use maruswap.Base.{List, [], ◌∷◌, ◌≡◌, refl, some, ◌==◌, if◌then◌else◌, arith}
use maruswap.Base.Run.{ok}
use maruswap.Drive.Header.{get_num_memblock}
use maruswap.Drive.Ctrl.{Drive, get_main_rdma_ctrl, check_rdma_info, some_closed}
use maruswap.Drive.Stage.{
  init_stage_buffer, stage_buffer_store, stage_buffer_full, put_entry, stage_buffer_count_add,
}
use maruswap.Drive.Swap.{
  maruswap_store, maruswap_load, maruswap_multicast_write, get_req_for_page, write_mapped,
  open_if_closed, write_opened, commit_if_full, send_page, ib_multicast_send, page_wr, stage,
  finish_transfer, await_done,
}
use maruswap.Drive.Swap.Staged.{serves}
use maruswap.Drive.Module.{FrontswapOps, maruswap_ops, init_maruswap}
use maruswap.Drive.Module.Registered.{
  FrontCall, started, stores, changed, gone_page, gone_area, frames_after, change_page, calls,
  Cached, init_maruswap-serves,
}
use maruswap.Drive.Swap.RoundTrip.{maruswap_load-maruswap_store}
use maruswap.Examples.Assoc.{Entries, assoc}
use maruswap.Examples.Driver.{prompt, server, drive0, drive0-Sound, prompt-Reports, state_of}

abbrev pub stored : Drive Entries
stored = state_of drive0 (maruswap_store assoc prompt 3 1 5 drive0)

stored_ok : maruswap_store assoc prompt 3 1 5 drive0 ≡ ok 0 stored
unfolding maruswap_store maruswap_multicast_write get_req_for_page write_mapped open_if_closed
    write_opened commit_if_full send_page ib_multicast_send page_wr stage finish_transfer await_done
    stage_buffer_store stage_buffer_full put_entry stage_buffer_count_add init_stage_buffer
    get_main_rdma_ctrl check_rdma_info some_closed get_num_memblock
stored_ok = refl

stored-serves : serves assoc prompt 1 stored ≡ some (server 8)
unfolding serves maruswap_store maruswap_multicast_write get_req_for_page write_mapped
    open_if_closed write_opened commit_if_full send_page ib_multicast_send page_wr stage
    finish_transfer await_done stage_buffer_store stage_buffer_full put_entry stage_buffer_count_add
    init_stage_buffer get_main_rdma_ctrl check_rdma_info some_closed get_num_memblock
stored-serves = refl

maruswap_load-maruswap_store_example :
    maruswap_load assoc prompt 3 1 2 5 stored
    ≡ ok 0 (record stored { frame = λ p. if p == 2 then drive0.frame 1 else stored.frame p })
maruswap_load-maruswap_store_example =
    maruswap_load-maruswap_store assoc prompt 3 1 1 2 5 drive0 {t = stored} (server 8) (omega arith)
      prompt-Reports drive0-Sound stored_ok stored-serves

-- The page is stored and its frame used for something else; then it is called invalid.
abbrev pub history : List FrontCall
history = started 0 ∷ stores 0 5 1 ∷ changed 1 102 ∷ gone_page 0 5 ∷ gone_area 0 ∷ []

abbrev pub later : Drive Entries
later = change_page assoc 1 102 stored

pub history_ok : calls (change_page assoc) (maruswap_ops assoc prompt 3) history drive0 ≡ ok 0 later
unfolding maruswap_ops maruswap_store maruswap_multicast_write get_req_for_page write_mapped
    open_if_closed write_opened commit_if_full send_page ib_multicast_send page_wr stage
    finish_transfer await_done stage_buffer_store stage_buffer_full put_entry stage_buffer_count_add
    init_stage_buffer get_main_rdma_ctrl check_rdma_info some_closed get_num_memblock
history_ok = refl

pub later-serves : serves assoc prompt 1 later ≡ some (server 8)
unfolding serves maruswap_store maruswap_multicast_write get_req_for_page write_mapped
    open_if_closed write_opened commit_if_full send_page ib_multicast_send page_wr stage
    finish_transfer await_done stage_buffer_store stage_buffer_full put_entry stage_buffer_count_add
    init_stage_buffer get_main_rdma_ctrl check_rdma_info some_closed get_num_memblock
later-serves = refl

-- The kernel is the list of what is registered.
init_maruswap-serves_example :
    (k' : List (FrontswapOps (Drive Entries))) × (ops : FrontswapOps (Drive Entries))
    × (init_maruswap (λ o k. ok tt (o ∷ k)) (maruswap_ops assoc prompt 3) [] ≡ ok 0 k')
    × (k' ≡ ops ∷ [])
    × (calls (change_page assoc) ops history drive0 ≡ ok 0 later)
    × Cached assoc prompt prompt-Reports history drive0 later
    × (ops.load 1 0 5 2 later
        ≡ ok 0 (record later {
          frame = λ p. if p == 2 then 101 else frames_after drive0.frame history p;
        }))
init_maruswap-serves_example =
    init_maruswap-serves assoc prompt prompt-Reports (λ o k. ok tt (o ∷ k)) (λ k. k)
      (λ o k. (o ∷ k, refl, refl)) [] 3 1 0 2 5 101 history drive0 later (server 8) drive0-Sound
      history_ok refl later-serves
