-- ===== src/Server/Send.antt =====
-- lib/ib.c: send requests and the wait for their completion.
pub mod Deliver
use maruswap.Base.{ℕ, zero, suc, ◌+◌, Bool, true, false, ◌==◌, leb}
use maruswap.Base.Run.{out_of_fuel, Cmd, pure, ◌>>=◌, ◌>>◌, gets, stop, test◌then◌else◌}
use maruswap.Drive.Net.{empty, failed, completed}
use maruswap.Server.State.{
  WrOpcode, send_with_imm, rdma_write, rdma_read, SendWr, Call, Verbs, Server, ask,
}

module _ (v : Verbs) where
  -- `while (!done)`: an error of the poll is polled again.
  unfoldable pub await_done : (fuel cq mine : ℕ) → Cmd Server Bool
  await_done zero cq mine = λ _. out_of_fuel
  await_done (suc n) cq mine = do
    polled ← ask (Call.poll_cq cq) (λ log. v.poll_cq log cq)
    elim polled [
      | empty ↦ await_done n cq mine
      | failed ↦ await_done n cq mine
      | completed wc ↦
          test wc.success
          then (test wc.wr_id == mine then pure true else await_done n cq mine)
          else pure false
    ]

  -- `assert(!bad_wr)` after a post
  unfoldable pub post_send : (qp : ℕ) → SendWr → Cmd Server (Unit {0})
  post_send qp wr = do
    bad ← ask (Call.post_send qp wr) (λ log. v.bad_wr log (Call.post_send qp wr))
    test bad then stop else pure tt

  -- The remote address and key are set for RDMA writes and reads alone.
  unfoldable pub send_wr :
      WrOpcode
      → (mine lkey buffer size imm_data remote_addr remote_rkey : ℕ) → (inline_data : Bool) → SendWr
  send_wr send_with_imm mine lkey buffer size imm_data remote_addr remote_rkey inline_data =
      record {
        opcode = send_with_imm;
        imm_data = imm_data;
        wr_id = mine;
        addr = buffer;
        length = size;
        lkey = lkey;
        signaled = true;
        inline_data = inline_data;
        remote_addr = 0;
        rkey = 0;
        ah = 0;
        remote_qpn = 0;
        remote_qkey = 0;
      }
  send_wr opcode mine lkey buffer size imm_data remote_addr remote_rkey inline_data = record {
    opcode = opcode;
    imm_data = imm_data;
    wr_id = mine;
    addr = buffer;
    length = size;
    lkey = lkey;
    signaled = true;
    inline_data = inline_data;
    remote_addr = remote_addr;
    rkey = remote_rkey;
    ah = 0;
    remote_qpn = 0;
    remote_qkey = 0;
  }

  unfoldable pub ib_send :
      (fuel qp send_cq : ℕ)
      → WrOpcode
      → (lkey buffer size imm_data remote_addr remote_rkey : ℕ) → (inline_data : Bool)
      → Cmd Server Bool
  unfolding send_wr post_send await_done
  ib_send fuel qp send_cq opcode lkey buffer size imm_data remote_addr remote_rkey inline_data = do
    mine ← gets (λ s. v.local s.log)
    post_send qp (send_wr opcode mine lkey buffer size imm_data remote_addr remote_rkey inline_data)
    await_done fuel send_cq mine

  -- `inline_data` is not used.
  unfoldable pub multi_send_wr :
      (mine lkey buffer size imm_data ah remote_qpn remote_qkey : ℕ) → SendWr
  multi_send_wr mine lkey buffer size imm_data ah remote_qpn remote_qkey = record {
    opcode = send_with_imm;
    imm_data = imm_data;
    wr_id = mine;
    addr = buffer;
    length = size;
    lkey = lkey;
    signaled = true;
    inline_data = false;
    remote_addr = 0;
    rkey = 0;
    ah = ah;
    remote_qpn = remote_qpn;
    remote_qkey = remote_qkey;
  }

  unfoldable pub ib_multi_send :
      (fuel qp send_cq lkey buffer size imm_data ah remote_qpn remote_qkey : ℕ) → Cmd Server Bool
  unfolding multi_send_wr post_send await_done
  ib_multi_send fuel qp send_cq lkey buffer size imm_data ah remote_qpn remote_qkey = do
    mine ← gets (λ s. v.local s.log)
    post_send qp (multi_send_wr mine lkey buffer size imm_data ah remote_qpn remote_qkey)
    await_done fuel send_cq mine

  -- On the handler's own connection.
  unfoldable pub ib_rdma_send :
      (fuel mr buffer size imm_data : ℕ) → (inline_data : Bool) → Cmd Server Bool
  unfolding ib_send
  ib_rdma_send fuel mr buffer size imm_data inline_data s =
      ib_send fuel s.qp s.send_cq send_with_imm (v.mr_lkey mr) buffer size imm_data 0 0 inline_data
        s

  unfoldable pub ib_rdma_write :
      (fuel mr buffer size remote_addr remote_rkey : ℕ) → (inline_data : Bool) → Cmd Server Bool
  unfolding ib_send
  ib_rdma_write fuel mr buffer size remote_addr remote_rkey inline_data s =
      ib_send fuel s.qp s.send_cq rdma_write (v.mr_lkey mr) buffer size 0 remote_addr remote_rkey
        inline_data s

  unfoldable pub ib_rdma_read :
      (fuel mr buffer size remote_addr remote_rkey : ℕ) → (inline_data : Bool) → Cmd Server Bool
  unfolding ib_send
  ib_rdma_read fuel mr buffer size remote_addr remote_rkey inline_data s =
      ib_send fuel s.qp s.send_cq rdma_read (v.mr_lkey mr) buffer size 0 remote_addr remote_rkey
        inline_data s

  unfoldable pub ib_multicast_send_detail :
      (fuel mr buffer size header ah remote_qpn remote_qkey : ℕ) → Cmd Server Bool
  unfolding ib_multi_send
  ib_multicast_send_detail fuel mr buffer size header ah remote_qpn remote_qkey s =
      ib_multi_send fuel s.multicast_qp s.multicast_send_cq (v.mr_lkey mr) buffer size header ah
        remote_qpn remote_qkey s

  -- To the group that `mcm` joined.
  unfoldable pub ib_multicast_send : (fuel mr buffer size imm_data : ℕ) → Cmd Server Bool
  unfolding ib_multicast_send_detail
  ib_multicast_send fuel mr buffer size imm_data s =
      ib_multicast_send_detail fuel mr buffer size imm_data s.multicast_ah s.remote_qpn
        s.remote_qkey s

  -- Nothing waits for the completion: the request is not signaled.
  unfoldable pub ib_multicast_inline_send :
      (qp imm buffer size ah remote_qpn remote_qkey : ℕ) → Cmd Server Bool
  unfolding post_send multi_send_wr
  ib_multicast_inline_send qp imm buffer size ah remote_qpn remote_qkey = do
    mine ← gets (λ s. v.local s.log)
    let wr = multi_send_wr mine 0 buffer size imm ah remote_qpn remote_qkey
    test leb (64 + 1) size
        then stop
        else do post_send qp (record wr { signaled = false; inline_data = true }); pure true

  -- With its assertion.
  unfoldable pub ib_putback_recv_work : (qp rw : ℕ) → Cmd Server (Unit {0})
  ib_putback_recv_work qp rw = do
    bad ← ask (Call.post_recv qp rw) (λ log. v.bad_wr log (Call.post_recv qp rw))
    test bad then stop else pure tt
