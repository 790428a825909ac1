-- ===== src/Drive/Swap.antt =====
-- drive/sib.c: a page out to the servers, and back in; drive/maruswap.c, the frontswap calls.
pub mod Wrote
pub mod Sound
pub mod Staged
pub mod Remote
pub mod RoundTrip
pub mod Posted
pub mod Cache
use maruswap.Base.{
  ℕ, zero, suc, ◌+◌, ◌-◌, ◌*◌, ◌%◌, ◌^◌, Bool, true, false, not, Option, none, some, ◌==◌, ltb, leb,
  get_or, if◌then◌else◌,
}
use maruswap.Base.Run.{
  ok, fault, out_of_fuel, Cmd, pure, ◌>>=◌, ◌>>◌, gets, modify, stop, test◌then◌else◌,
}
use maruswap.Drive.Header.{
  config_batch, max_memblock, page_size, get_num_memblock, flow_header, read_offset,
}
use maruswap.Drive.Xarray.{Xarray}
use maruswap.Drive.Net.{
  Qp, SendWr, send_with_imm, rdma_read, Poll, empty, failed, completed, RdmaInfo, Call, Verbs, Net,
  ask, tell,
}
use maruswap.Drive.Stage.{stage_buffer_store, stage_buffer_load}
use maruswap.Drive.Ctrl.{
  RdmaCtrl, UdPackage, Drive, State, on_net, deref, not_null, no_info, get_main_rdma_ctrl,
  get_sub_rdma_ctrl, check_rdma_info, ib_rpc_open_all, ib_rpc_commit_all,
}

-- Negative C ints as 32-bit patterns.
abbrev pub neg : ℕ → ℕ
neg n = 2 ^ 32 - n

abbrev pub einval : ℕ
einval = neg 22

abbrev pub enomem : ℕ
enomem = neg 12

module _ (v : Verbs) where
  -- `while (!done)` of the two page transfers: an error of the poll is polled again. `false` is
  -- the return of -EINVAL on a failed completion.
  unfoldable pub await_done : (fuel cq mine : ℕ) → Cmd Net Bool
  await_done zero cq mine = λ _. out_of_fuel
  await_done (suc n) cq mine = do
    polled ← ask (Call.poll_cq cq) (λ log. v.poll_cq log cq)
    elim polled [
      | empty ↦ await_done n cq mine
      | failed ↦ await_done n cq mine
      | completed wc ↦
          test wc.success
          then (test wc.wr_id == mine then pure true else await_done n cq mine)
          else pure false
    ]

  -- The result, and the DMA address.
  unfoldable pub get_req_for_page : (device page : ℕ) → Cmd Net (ℕ × ℕ)
  get_req_for_page device page = do
    dma ← ask (Call.map_page device page) (λ log. v.map_page log device page)
    test v.mapping_error device dma
        then pure (enomem, dma)
        else do tell (Call.sync_page device dma); pure (0, dma)

  unfoldable pub page_wr : UdPackage → (dma header mine : ℕ) → SendWr
  page_wr ud dma header mine = record {
    opcode = send_with_imm;
    imm_data = header;
    wr_id = mine;
    addr = dma;
    length = page_size;
    lkey = ud.qp.lkey;
    remote_addr = 0;
    rkey = 0;
    ah = ud.ah;
    remote_qpn = ud.remote_qpn;
    remote_qkey = ud.remote_qkey;
  }

  unfoldable pub read_wr : Qp → (dma : ℕ) → RdmaInfo → (offset mine : ℕ) → SendWr
  read_wr qp dma info offset mine = record {
    opcode = rdma_read;
    imm_data = 0;
    wr_id = mine;
    addr = dma;
    length = page_size;
    lkey = qp.lkey;
    remote_addr = (info.remote_addr + offset) % 2 ^ 64;
    rkey = info.rkey;
    ah = 0;
    remote_qpn = 0;
    remote_qkey = 0;
  }

  -- `ib_post_send`: its value, and whether it sets `bad_wr`
  abbrev pub post : Qp → SendWr → Cmd Net (ℕ × Bool)
  post qp wr =
      ask (Call.post_send qp.handle wr)
        (λ log. (v.post_send log qp.handle wr, v.bad_wr log qp.handle wr))

  -- What follows a posted transfer: the wait and the unmapping.
  unfoldable pub finish_transfer : (fuel : ℕ) → Qp → (dma mine ret : ℕ) → Cmd Net ℕ
  unfolding await_done
  finish_transfer fuel qp dma mine ret = do
    sent ← await_done fuel qp.send_cq mine
    test sent then tell (Call.unmap_page qp.device dma) >> pure ret else pure einval

  -- The RDMA read of a page. A refused post is only printed.
  unfoldable pub ib_rdma_send : (fuel : ℕ) → Qp → (dma : ℕ) → RdmaInfo → (offset : ℕ) → Cmd Net ℕ
  unfolding read_wr finish_transfer
  ib_rdma_send fuel qp dma info offset = do
    mine ← gets (λ s. v.local s.log)
    let wr = read_wr qp dma info offset mine
    ret ← ask (Call.post_send qp.handle wr) (λ log. v.post_send log qp.handle wr)
    finish_transfer fuel qp dma mine ret

module _ (xa : Xarray) (v : Verbs) where
  abbrev net : {A : Type 0} → Cmd Net A → Cmd (Drive xa.Arr) A
  net m = on_net xa v m

  -- `stage_buffer_store`, with a fault where it faults
  unfoldable pub stage : (content offset : ℕ) → Cmd (Drive xa.Arr) (Unit {0})
  stage content offset s = elim (stage_buffer_store xa s.stage_buffer content offset) [
    | none ↦ fault
    | some st ↦ ok tt (record s { stage_buffer = st })
  ]

  unfoldable pub ib_multicast_send : (fuel dma header page offset : ℕ) → Cmd (Drive xa.Arr) ℕ
  unfolding page_wr finish_transfer stage
  ib_multicast_send fuel dma header page offset = do
    ud ← gets (λ s. s.ud_package)
    mine ← gets (λ s. v.local s.net.log)
    let wr = page_wr v ud dma header mine
    (ret, rejected) ← net (post v ud.qp wr)
    test rejected then pure ret else do
      content ← gets (λ s. s.frame page)
      stage content offset
      net (finish_transfer v fuel ud.qp dma mine ret)

  -- The two steps under the spin lock. `false` is the jump to `out_error`.
  unfoldable pub open_if_closed : (fuel offset : ℕ) → Cmd (Drive xa.Arr) Bool
  open_if_closed fuel offset = do
    closed ← check_rdma_info xa v (get_num_memblock offset)
    test closed then (do ret ← ib_rpc_open_all xa v fuel offset; pure (ret == 0)) else pure true

  unfoldable pub commit_if_full : (fuel : ℕ) → Cmd (Drive xa.Arr) Bool
  commit_if_full fuel = do
    batch ← gets (λ s. s.batch)
    test leb config_batch batch
        then (do ret ← ib_rpc_commit_all xa v fuel; pure (ret == 0))
        else pure true

  -- The lock is held from `check_rdma_info` to the increment; no other thread comes in between.
  unfoldable pub send_page : (fuel dma page offset : ℕ) → Cmd (Drive xa.Arr) ℕ
  unfolding ib_multicast_send
  send_page fuel dma page offset = do
    modify (λ s. record s { batch = s.batch + 1 })
    ib_multicast_send fuel dma (flow_header offset) page offset

  unfoldable pub write_opened : (fuel dma page offset : ℕ) → Cmd (Drive xa.Arr) ℕ
  unfolding commit_if_full send_page
  write_opened fuel dma page offset = do
    emptied ← commit_if_full fuel
    test not emptied then pure 1 else send_page fuel dma page offset

  unfoldable pub write_mapped : (fuel dma page offset : ℕ) → Cmd (Drive xa.Arr) ℕ
  unfolding open_if_closed write_opened
  write_mapped fuel dma page offset = do
    opened ← open_if_closed fuel offset
    test not opened then pure 1 else write_opened fuel dma page offset

  unfoldable pub maruswap_multicast_write : (fuel page offset : ℕ) → Cmd (Drive xa.Arr) ℕ
  unfolding get_req_for_page write_mapped
  maruswap_multicast_write fuel page offset = do
    main ← get_main_rdma_ctrl xa v
    c ← deref xa v main
    (ret, dma) ← net (get_req_for_page v c.qp.device page)
    test not (ret == 0) then pure ret else write_mapped fuel dma page offset

  -- `smp_processor_id() % 2`
  unfoldable pub pick_server : (cpu : ℕ) → Cmd (Drive xa.Arr) ℕ
  pick_server cpu = do
    main ← get_main_rdma_ctrl xa v
    sub ← get_sub_rdma_ctrl xa v
    test cpu % 2 == 0 then not_null xa v sub else pure main

  -- The read from the server. The page itself is written by the network card.
  unfoldable pub read_remote : (fuel page offset : ℕ) → RdmaCtrl → Cmd (Drive xa.Arr) ℕ
  unfolding get_req_for_page ib_rdma_send
  read_remote fuel page offset c = do
    (ret, dma) ← net (get_req_for_page v c.qp.device page)
    test not (ret == 0)
        then pure ret
        else test not (ltb (get_num_memblock offset) max_memblock)
        then stop
        else net (
            ib_rdma_send v fuel c.qp dma (get_or c.rdma_info (get_num_memblock offset) no_info)
              (read_offset offset))

  unfoldable pub maruswap_rdma_read : (fuel cpu page offset : ℕ) → Cmd (Drive xa.Arr) ℕ
  unfolding pick_server read_remote
  maruswap_rdma_read fuel cpu page offset = do
    i ← pick_server cpu
    c ← deref xa v i
    staged ← gets (λ s. (stage_buffer_load xa s.stage_buffer offset).1)
    elim staged [
      | none ↦ read_remote fuel page offset c
      | some content ↦
          modify (λ s. record s { frame = λ p. if p == page then content else s.frame p }) >> pure 0
    ]

  -- `pgoff_t` is cut to `u32` by the call; -1 stands for any error.
  unfoldable pub maruswap_store : (fuel page pageid : ℕ) → Cmd (Drive xa.Arr) ℕ
  unfolding maruswap_multicast_write
  maruswap_store fuel page pageid = do
    ret ← maruswap_multicast_write fuel page (pageid % 2 ^ 32)
    test not (ret == 0) then pure (neg 1) else pure 0

  unfoldable pub maruswap_load : (fuel cpu page pageid : ℕ) → Cmd (Drive xa.Arr) ℕ
  unfolding maruswap_rdma_read
  maruswap_load fuel cpu page pageid = do
    ret ← maruswap_rdma_read fuel cpu page (pageid % 2 ^ 32)
    test not (ret == 0) then pure (neg 1) else pure 0
