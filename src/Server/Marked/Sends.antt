-- ===== src/Server/Marked/Sends.antt =====
-- Marks and the sends of lib/ib.c.
use maruswap.Base.{ℕ, zero, suc, Bool, true, false, ◌==◌, if◌then◌else◌}
use maruswap.Base.Run.{Cmd, pure, test◌then◌else◌}
use maruswap.Drive.Net.{Wc, Poll, empty, failed, completed}
use maruswap.Server.State.{SendWr, WrOpcode, send_with_imm, Call, Verbs, Server}
use maruswap.Server.Send.{
  await_done, post_send, ib_send, ib_multi_send, ib_rdma_send, ib_multicast_send_detail,
}
use maruswap.Server.Handler.{answer_commit}
use maruswap.Server.Marked.{
  Leaves, pure-Leaves, stop-Leaves, ask-Leaves, bind-Leaves, test-Leaves, leaves,
}

module _ (v : Verbs) (work : ℕ) where
  abbrev polled : (n cq mine : ℕ) → Poll → Cmd Server Bool
  polled n cq mine p = elim p [
    | empty ↦ await_done v n cq mine
    | failed ↦ await_done v n cq mine
    | completed wc ↦
        test wc.success
        then (test wc.wr_id == mine then pure true else await_done v n cq mine)
        else pure false
  ]

  polled-Leaves :
      (n cq mine : ℕ) (p : Poll)
      → Leaves work (await_done v n cq mine)
      → Leaves work (polled n cq mine p)
  polled-Leaves n cq mine empty again = again
  polled-Leaves n cq mine failed again = again
  polled-Leaves n cq mine (completed wc) again =
      test-Leaves work wc.success _ _
        (test-Leaves work (wc.wr_id == mine) _ _ (pure-Leaves work true) again)
        (pure-Leaves work false)

  await_done-Leaves : (fuel cq mine : ℕ) → Leaves work (await_done v fuel cq mine)
  unfolding await_done
  await_done-Leaves zero cq mine = record { stays = λ s r t h marked. cc }
  await_done-Leaves (suc n) cq mine =
      bind-Leaves work _ (λ p. polled n cq mine p)
        (ask-Leaves work (Call.poll_cq cq) (λ log. v.poll_cq log cq))
        (λ p. polled-Leaves n cq mine p (await_done-Leaves n cq mine))

  post_send-Leaves : (qp : ℕ) (wr : SendWr) → Leaves work (post_send v qp wr)
  unfolding post_send
  post_send-Leaves qp wr =
      bind-Leaves work _ _ (ask-Leaves work _ _)
        (λ bad. test-Leaves work bad _ _ (stop-Leaves work) (pure-Leaves work tt))

  -- a command that reads the state first
  pub state-Leaves :
      {A : Type 0} (m : Server → Cmd Server A)
      → ((s : Server) → Leaves work (m s))
      → Leaves work (λ s. m s s)
  state-Leaves m h = record { stays = λ s. (h s).stays s }

  ib_multi_send-Leaves :
      (fuel qp cq lkey buffer size header ah qpn qkey : ℕ)
      → Leaves work (ib_multi_send v fuel qp cq lkey buffer size header ah qpn qkey)
  unfolding ib_multi_send
  ib_multi_send-Leaves fuel qp cq lkey buffer size header ah qpn qkey =
      search (leaves, post_send-Leaves, await_done-Leaves)

  ib_send-Leaves :
      (fuel qp cq : ℕ) (opcode : WrOpcode) (lkey buffer size imm addr rkey : ℕ) (inline_data : Bool)
      → Leaves work (ib_send v fuel qp cq opcode lkey buffer size imm addr rkey inline_data)
  unfolding ib_send
  ib_send-Leaves fuel qp cq opcode lkey buffer size imm addr rkey inline_data =
      search (leaves, post_send-Leaves, await_done-Leaves)

  pub ib_multicast_send_detail-Leaves :
      (fuel mr buffer size header ah qpn qkey : ℕ)
      → Leaves work (ib_multicast_send_detail v fuel mr buffer size header ah qpn qkey)
  unfolding ib_multicast_send_detail
  ib_multicast_send_detail-Leaves fuel mr buffer size header ah qpn qkey = state-Leaves _ (λ s.
      ib_multi_send-Leaves fuel s.multicast_qp s.multicast_send_cq (v.mr_lkey mr) buffer size header
        ah qpn qkey)

  ib_rdma_send-Leaves :
      (fuel mr buffer size imm : ℕ) (inline_data : Bool)
      → Leaves work (ib_rdma_send v fuel mr buffer size imm inline_data)
  unfolding ib_rdma_send
  ib_rdma_send-Leaves fuel mr buffer size imm inline_data = state-Leaves _ (λ s.
      ib_send-Leaves fuel s.qp s.send_cq send_with_imm (v.mr_lkey mr) buffer size imm 0 0
        inline_data)

  pub answer_commit-Leaves :
      (fuel : ℕ) (wc : Wc) (inline_data : Bool) → Leaves work (answer_commit v fuel wc inline_data)
  unfolding answer_commit
  answer_commit-Leaves fuel wc inline_data = search (leaves, ib_rdma_send-Leaves)
