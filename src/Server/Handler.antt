-- ===== src/Server/Handler.antt =====
-- lib/handler.c: what the server does with a request from the driver.
pub mod Commit
pub mod Open
pub mod Rounds
use maruswap.Base.{
  ℕ, zero, suc, ◌+◌, ◌*◌, ◌/◌, ◌^◌, Bool, true, false, not, Option, none, some, List, [], ◌∷◌, ◌==◌,
  leb, ltb, bit_and, if◌then◌else◌, erase,
}
use maruswap.Base.Run.{
  ok, fault, out_of_fuel, Cmd, pure, ◌>>=◌, ◌>>◌, gets, modify, stop, test◌then◌else◌,
}
use maruswap.Drive.Net.{Wc, Poll, empty, failed, completed}
use maruswap.Server.Header.{
  page_size, config_batch, rdma_opcode_open, rdma_opcode_close, rdma_opcode_commit,
  rdma_opcode_transition, rdma_opcode_check, rdma_opcode_get, rdma_opcode_qcommit,
  multicast_opcode_flow, multicast_opcode_check, multicast_opcode_commit, multicast_opcode_none,
  Fields, interpret_header, ib_get_opcode, commit_count, convey_offset,
}
use maruswap.Server.State.{
  SendWr, Call, Verbs, Memblock, RecvWork, RdmaOpen, Server, tell, ask, change_work, lock_memblocks,
  unlock_memblocks, lock_commits, unlock_commits,
}
use maruswap.Server.Send.{ib_rdma_send, ib_multicast_send_detail, ib_putback_recv_work}
use maruswap.Server.Memblock.{memblock_at, add_memblock}
use maruswap.Server.Convey.{ensure_memblock, ib_convey_page}

-- `RPC_MAX_EACH_SIZE * RPC_NR_BUFFER`, where the page of a GET request is put
abbrev pub get_page_at : ℕ
get_page_at = 64 * 2 ^ 10

module _ (v : Verbs) where
  -- The response lies at the start of `rpc_buffer`. A block that cannot be added is read all the
  -- same, through NULL. A header that is not understood leaves the lock held.
  unfoldable pub process_rdma_rpc_open : (fuel : ℕ) → Wc → Cmd Server (Unit {0})
  unfolding ensure_memblock memblock_at ib_rdma_send
  process_rdma_rpc_open fuel wc = do
    lock_memblocks
    modify (λ s. record s { response = record { remote_addr = 0; rkey = 0 } })
    elim (interpret_header wc.imm_data) [
      | none ↦ pure tt
      | some f ↦ do
        _ ← ensure_memblock v f.nr_buffer
        found ← memblock_at v f.nr_buffer
        elim found [
          | none ↦ stop
          | some mb ↦ do
            modify (λ s. record s {
              response = record { remote_addr = v.mr_addr mb.mr; rkey = v.mr_rkey mb.mr };
            })
            mr ← gets (λ s. s.rpc_mr)
            buffer ← gets (λ s. s.rpc_buffer)
            _ ← ib_rdma_send v fuel mr buffer 16 wc.imm_data true
            unlock_memblocks
        ]
    ]

  -- the round over `commit_list` that looks for a page
  unfoldable pub find_page : (offset : ℕ) → List ℕ → Cmd Server Bool
  find_page offset [] = pure false
  find_page offset (work ∷ works) = do
    w ← gets (λ s. s.works work)
    let same = bit_and w.wc.imm_data 0xfffffff == offset
    at ← gets (λ s. s.rpc_buffer + get_page_at)
    modify
        (λ s. if same then record s { memory = λ p. if p == at then w.page else s.memory p } else s)
    rest ← find_page offset works
    pure (if same then true else rest)

  unfoldable pub get_page_loop : (fuel offset : ℕ) → Cmd Server (Unit {0})
  unfolding find_page
  get_page_loop zero offset = λ _. out_of_fuel
  get_page_loop (suc n) offset = do
    lock_commits
    all ← gets (λ s. s.commit_list)
    check ← find_page offset all
    unlock_commits
    test check then pure tt else get_page_loop n offset

  unfoldable pub process_rdma_rpc_get_page : (fuel : ℕ) → Wc → Cmd Server (Unit {0})
  unfolding get_page_loop ib_rdma_send
  process_rdma_rpc_get_page fuel wc = elim (interpret_header wc.imm_data) [
    | none ↦ pure tt
    | some f ↦ do
      get_page_loop fuel f.offset
      mr ← gets (λ s. s.rpc_mr)
      buffer ← gets (λ s. s.rpc_buffer + get_page_at)
      _ ← ib_rdma_send v fuel mr buffer page_size wc.imm_data true
      pure tt
  ]

  -- `while (atomic_read(&rmh->batch) < count);`, between whose rounds another thread runs.
  unfoldable pub wait_batch :
      (other : Cmd Server (Unit {0})) → (fuel count : ℕ) → Cmd Server (Unit {0})
  wait_batch other zero count = λ _. out_of_fuel
  wait_batch other (suc n) count = do
    batch ← gets (λ s. s.batch)
    test ltb batch count then (other >> wait_batch other n count) else pure tt

  -- the first round of a commit, up to a page that cannot be conveyed
  unfoldable pub convey_all : List ℕ → Cmd Server (Unit {0})
  unfolding ib_convey_page
  convey_all [] = pure tt
  convey_all (work ∷ works) = do
    w ← gets (λ s. s.works work)
    test w.convey then convey_all works else do
      conveyed ← ib_convey_page v w.wc
      test conveyed then convey_all works else unlock_commits

  -- the second: every receive work goes back to the queue
  unfoldable pub recycle_all : List ℕ → Cmd Server (Unit {0})
  unfolding ib_putback_recv_work
  recycle_all [] = pure tt
  recycle_all (work ∷ works) = do
    modify (λ s. change_work work (λ w. record w { convey = false }) s)
    qp ← gets (λ s. s.multicast_qp)
    id ← gets (λ s. (s.works work).wc.wr_id)
    ib_putback_recv_work v qp id
    modify (λ s. record s { commit_list = erase work s.commit_list })
    recycle_all works

  -- what a commit does once its pages are counted
  unfoldable pub commit_ready : Cmd Server (Unit {0})
  unfolding convey_all recycle_all
  commit_ready = do
    lock_commits
    pages ← gets (λ s. s.commit_list)
    convey_all pages
    rest ← gets (λ s. s.commit_list)
    recycle_all rest
    modify (λ s. record s { batch = 0 })
    unlock_commits

  -- how many pages a commit waits for
  unfoldable pub commit_target : (imm_data : ℕ) → ℕ
  commit_target imm_data =
      if imm_data / 2 ^ 28 == rdma_opcode_qcommit then commit_count imm_data else config_batch

  unfoldable pub answer_commit : (fuel : ℕ) → Wc → (inline_data : Bool) → Cmd Server (Unit {0})
  unfolding ib_rdma_send
  answer_commit fuel wc inline_data = do
    mr ← gets (λ s. s.rpc_mr)
    buffer ← gets (λ s. s.rpc_buffer)
    _ ← ib_rdma_send v fuel mr buffer 1 wc.imm_data inline_data
    pure tt

  -- `list_empty` is read without the lock. `assert(1)` asserts nothing.
  unfoldable pub process_rdma_rpc_commit :
      (other : Cmd Server (Unit {0})) → (fuel : ℕ) → Wc → Cmd Server (Unit {0})
  unfolding wait_batch commit_ready answer_commit
  process_rdma_rpc_commit other fuel wc = do
    pages ← gets (λ s. s.commit_list)
    elim pages [
      | [] ↦ answer_commit fuel wc false
      | _ ∷ _ ↦ do
        wait_batch other fuel (commit_target wc.imm_data)
        commit_ready
        answer_commit fuel wc true
    ]

  -- Close, transition and check change nothing, nor does an opcode that is not known. A request
  -- for a page falls through to that branch, which only prints.
  unfoldable pub ib_process_rdma_completion :
      (other : Cmd Server (Unit {0})) → (fuel : ℕ) → Wc → Cmd Server (Unit {0})
  unfolding process_rdma_rpc_open process_rdma_rpc_commit process_rdma_rpc_get_page
  ib_process_rdma_completion other fuel wc =
      let opcode = ib_get_opcode wc.imm_data in
      test opcode == rdma_opcode_open
      then process_rdma_rpc_open fuel wc
      else test opcode == rdma_opcode_commit
      then process_rdma_rpc_commit other fuel wc
      else test opcode == rdma_opcode_qcommit
      then process_rdma_rpc_commit other fuel wc
      else test opcode == rdma_opcode_get
      then process_rdma_rpc_get_page fuel wc
      else pure tt

  -- One round of the rdma thread.
  unfoldable pub rdma_round : (other : Cmd Server (Unit {0})) → (cq fuel : ℕ) → Cmd Server Bool
  unfolding ib_process_rdma_completion ib_putback_recv_work
  rdma_round other cq fuel = do
    polled ← ask (Call.poll_cq cq) (λ log. v.poll_cq log cq)
    elim polled [
      | empty ↦ pure true
      | failed ↦ pure false
      | completed wc ↦
          test wc.success
          then (do
            ib_process_rdma_completion other fuel wc
            qp ← gets (λ s. s.qp)
            ib_putback_recv_work v qp wc.wr_id
            pure true)
          else pure false
    ]
