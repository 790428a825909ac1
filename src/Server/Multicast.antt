-- ===== src/Server/Multicast.antt =====
-- lib/handler.c: what the server does with a message from the multicast group.
pub mod Flow
use maruswap.Base.{
  ℕ, zero, suc, ◌+◌, ◌*◌, ◌/◌, ◌^◌, Bool, true, false, not, Option, none, some, List, [], ◌∷◌, ◌==◌,
  leb, ltb, bit_and, if◌then◌else◌, erase,
}
use maruswap.Base.Run.{
  ok, fault, out_of_fuel, Cmd, pure, ◌>>=◌, ◌>>◌, gets, modify, stop, test◌then◌else◌,
}
use maruswap.Drive.Net.{Wc, Poll, empty, failed, completed}
use maruswap.Server.Header.{
  page_size, config_batch, rdma_opcode_open, rdma_opcode_close, rdma_opcode_commit,
  rdma_opcode_transition, rdma_opcode_check, rdma_opcode_get, rdma_opcode_qcommit,
  multicast_opcode_flow, multicast_opcode_check, multicast_opcode_commit, multicast_opcode_none,
  Fields, interpret_header, ib_get_opcode, commit_count, convey_offset,
}
use maruswap.Server.State.{
  SendWr, Call, Verbs, Memblock, RecvWork, RdmaOpen, Server, tell, ask, change_work, lock_memblocks,
  unlock_memblocks, lock_commits, unlock_commits,
}
use maruswap.Server.Send.{ib_rdma_send, ib_multicast_send_detail, ib_putback_recv_work}
use maruswap.Server.Memblock.{memblock_at, add_memblock}
use maruswap.Server.Convey.{ensure_memblock, ib_convey_page}
use maruswap.Server.Handler.{answer_commit}

module _ (v : Verbs) where
  -- a page arrives: `list_add` puts it first
  unfoldable pub process_multicast_rpc_flow : Wc → Cmd Server (Unit {0})
  unfolding ib_convey_page
  process_multicast_rpc_flow wc = do
    modify (λ s. change_work wc.wr_id (λ w. record w { wc = wc }) s)
    modify (λ s. record s { commit_list = wc.wr_id ∷ s.commit_list })
    lock_commits
    w ← gets (λ s. s.works wc.wr_id)
    _ ← test w.convey then pure true else ib_convey_page v wc
    unlock_commits

  -- the rounds of a multicast commit; the first stops at a page that cannot be conveyed
  unfoldable pub convey_each : List ℕ → Cmd Server (Unit {0})
  unfolding ib_convey_page
  convey_each [] = pure tt
  convey_each (work ∷ works) = do
    wc ← gets (λ s. (s.works work).wc)
    conveyed ← ib_convey_page v wc
    test conveyed then convey_each works else pure tt

  unfoldable pub putback_each : List ℕ → Cmd Server (Unit {0})
  unfolding ib_putback_recv_work
  putback_each [] = pure tt
  putback_each (work ∷ works) = do
    modify (λ s. record s { commit_list = erase work s.commit_list })
    qp ← gets (λ s. s.multicast_qp)
    id ← gets (λ s. (s.works work).wc.wr_id)
    ib_putback_recv_work v qp id
    putback_each works

  unfoldable pub multicast_commit_pages : (fuel : ℕ) → Wc → List ℕ → Cmd Server (Unit {0})
  unfolding convey_each putback_each ib_multicast_send_detail
  multicast_commit_pages fuel wc pages = do
    convey_each pages
    mr ← gets (λ s. s.rpc_mr)
    ah ← gets (λ s. s.multicast_ah)
    qpn ← gets (λ s. s.remote_qpn)
    qkey ← gets (λ s. s.remote_qkey)
    _ ← ib_multicast_send_detail v fuel mr (v.mr_addr mr) 1 wc.imm_data ah qpn qkey
    rest ← gets (λ s. s.commit_list)
    putback_each rest

  unfoldable pub process_multicast_rpc_commit : (fuel : ℕ) → Wc → Cmd Server (Unit {0})
  unfolding multicast_commit_pages answer_commit
  process_multicast_rpc_commit fuel wc = do
    pages ← gets (λ s. s.commit_list)
    elim pages [
      | [] ↦ answer_commit v fuel wc false
      | work ∷ works ↦ multicast_commit_pages fuel wc (work ∷ works)
    ]

  unfoldable pub ib_process_multicast_completion : (fuel : ℕ) → Wc → Cmd Server (Unit {0})
  unfolding process_multicast_rpc_flow process_multicast_rpc_commit
  ib_process_multicast_completion fuel wc =
      let opcode = ib_get_opcode wc.imm_data in
      test opcode == multicast_opcode_flow
      then process_multicast_rpc_flow wc
      else test opcode == multicast_opcode_commit
      then process_multicast_rpc_commit fuel wc
      else pure tt

  -- One round of the multicast thread. `false` leaves the loop.
  unfoldable pub multicast_round : (cq fuel : ℕ) → Cmd Server Bool
  unfolding ib_process_multicast_completion
  multicast_round cq fuel = do
    polled ← ask (Call.poll_cq cq) (λ log. v.poll_cq log cq)
    elim polled [
      | empty ↦ pure true
      | failed ↦ pure false
      | completed wc ↦
          test wc.success
          then (ib_process_multicast_completion fuel wc >> pure true)
          else pure false
    ]
