-- ===== src/Drive/Rpc.antt =====
-- drive/sib.c, `__ib_rpc`: a request to a server, and the wait for its answer.
pub mod Leak
pub mod Wait
use maruswap.Base.{ℕ, zero, suc, Option, none, some, ◌==◌}
use maruswap.Base.Run.{
  ok, fault, out_of_fuel, Cmd, pure, ◌>>=◌, ◌>>◌, gets, modify, stop, test◌then◌else◌,
}
use maruswap.Drive.Header.{rpc_imm, answer_slot}
use maruswap.Drive.Net.{
  Qp, SendWr, send_with_imm, Wc, Poll, empty, failed, completed, RdmaInfo, Call, Verbs, Net, ask,
  tell,
}
use maruswap.Drive.Net
use maruswap.Drive.Binder.{binder_at, flags_at, file_answer, get_random, get_binder, put_binder}

-- How a polling loop of `__ib_rpc` ends: by its condition, by `break`, or by `return 1`.
pub data Outcome : Type 0 where
  finished : Outcome
  broken : Outcome
  refused : Outcome

module _ (v : Verbs) where
  -- `while (!done)` over the send queue. A completion of another request sets another `done`.
  unfoldable pub await_send : (fuel cq mine : ℕ) → Cmd Net Outcome
  await_send zero cq mine = λ _. out_of_fuel
  await_send (suc n) cq mine = do
    polled ← ask (Call.poll_cq cq) (λ log. v.poll_cq log cq)
    elim polled [
      | empty ↦ await_send n cq mine
      | failed ↦ pure broken
      | completed wc ↦
          test wc.success
          then (test wc.wr_id == mine then pure finished else await_send n cq mine)
          else pure refused
    ]

  -- `while (flags != 2)` over the receive queue. An answer is filed under its own slot.
  unfoldable pub await_answer : (fuel cq binder : ℕ) → Cmd Net Outcome
  await_answer zero cq binder = λ _. out_of_fuel
  await_answer (suc n) cq binder = do
    flags ← gets (λ s. flags_at s.binders binder)
    test flags == 2 then pure finished else do
      polled ← ask (Call.poll_cq cq) (λ log. v.poll_cq log cq)
      elim polled [
        | empty ↦ await_answer n cq binder
        | failed ↦ pure broken
        | completed wc ↦
            test wc.success
            then (do
              modify (λ s. record s {
                binders = file_answer (answer_slot wc.imm_data) wc.wr_id s.binders;
              })
              await_answer n cq binder)
            else pure refused
      ]

  -- The error of a refused receive is only printed.
  unfoldable pub ib_putback_recv_work : Qp → (work : ℕ) → Cmd Net (Unit {0})
  ib_putback_recv_work qp work = tell (Call.post_recv qp.handle work)

  -- `memcpy(res, rw->buffer, res_size)` and what follows it
  unfoldable pub take_answer : Qp → (binder : ℕ) → Cmd Net (Option RdmaInfo)
  unfolding ib_putback_recv_work
  take_answer qp binder = do
    work ← gets (λ s. (binder_at s.binders binder).private)
    test work == 0 then stop else do
      answer ← gets (λ s. v.received s.log work)
      ib_putback_recv_work qp work
      put_binder binder
      pure (some answer)

  unfoldable pub rpc_request : Qp → (opcode binder req req_size mine : ℕ) → SendWr
  rpc_request qp opcode binder req req_size mine = record {
    opcode = send_with_imm;
    imm_data = rpc_imm opcode binder;
    wr_id = mine;
    addr = req;
    length = req_size;
    lkey = qp.lkey;
    remote_addr = 0;
    rkey = 0;
    ah = 0;
    remote_qpn = 0;
    remote_qkey = 0;
  }

  -- After the answer's wait: `break` goes on to read the binder all the same.
  unfoldable pub ib_rpc_answer : (fuel : ℕ) → Qp → (binder : ℕ) → Cmd Net (Option RdmaInfo)
  unfolding take_answer
  ib_rpc_answer fuel qp binder = do
    got ← await_answer fuel qp.recv_cq binder
    elim got [ refused ↦ pure none | _ ↦ take_answer qp binder ]

  -- From the posted request on.
  unfoldable pub ib_rpc_reserved :
      (fuel : ℕ) → Qp → (opcode req req_size mine binder : ℕ) → Cmd Net (Option RdmaInfo)
  unfolding ib_rpc_answer rpc_request
  ib_rpc_reserved fuel qp opcode req req_size mine binder = do
    let wr = rpc_request qp opcode binder req req_size mine
    rejected ← ask (Call.post_send qp.handle wr) (λ log. v.bad_wr log qp.handle wr)
    test rejected then pure none else do
      sent ← await_send fuel qp.send_cq mine
      elim sent [ refused ↦ pure none | _ ↦ ib_rpc_answer fuel qp binder ]

  -- `none` is the return of 1. What the caller copies to `res` is the answer returned.
  unfoldable pub ib_rpc : (fuel : ℕ) → Qp → (opcode req req_size : ℕ) → Cmd Net (Option RdmaInfo)
  unfolding ib_rpc_reserved
  ib_rpc fuel qp opcode req req_size = do
    mine ← gets (λ s. v.local s.log)
    binder ← get_binder v fuel
    ib_rpc_reserved fuel qp opcode req req_size mine binder
