-- ===== src/Server/Send/Deliver.antt =====
-- lib/ib.c: sends, and the completions that a poll gives.
use maruswap.Base.{ℕ, zero, suc, ◌<◌, ◌≡◌, refl, Bool, true, false, ◌∷◌, eq→==, arith}
use maruswap.Base.Run.{ok}
use maruswap.Drive.Net.{Wc, empty, completed}
use maruswap.Server.State.{send_with_imm, SendWr, Call, History, Verbs, Server}
use maruswap.Server.Send.{await_done, post_send, send_wr, ib_send, ib_rdma_send}

-- what a server's requests go over: its connection, the group's queue pair, its buffer
pub record Line : Type 0 where
  pub qp : ℕ
  pub send_cq : ℕ
  pub multicast_qp : ℕ
  pub rpc_mr : ℕ
  pub rpc_buffer : ℕ

abbrev pub line : Server → Line
line s = record {
  qp = s.qp;
  send_cq = s.send_cq;
  multicast_qp = s.multicast_qp;
  rpc_mr = s.rpc_mr;
  rpc_buffer = s.rpc_buffer;
}

-- the calls after `n` looks at a queue
abbrev pub looked : (cq n : ℕ) → History → History
looked cq zero log = log
looked cq (suc n) log = looked cq n (Call.poll_cq cq ∷ log)

module _ (v : Verbs) where
  -- The queue is empty `k` times, and then has the good completion of the request `mine`.
  pub data Comes (cq mine : ℕ) : ℕ → History → Type 0 where
    now :
        {log : History} {wc : Wc}
        → v.poll_cq log cq ≡ completed wc
        → wc.success ≡ true
        → wc.wr_id ≡ mine
        → Comes cq mine 0 log
    later :
        {k : ℕ} {log : History}
        → v.poll_cq log cq ≡ empty
        → Comes cq mine k (Call.poll_cq cq ∷ log)
        → Comes cq mine (suc k) log

  await_done-finishes :
      {k : ℕ} {cq mine : ℕ} (fuel : ℕ) (s : Server)
      → Comes cq mine k s.log
      → k < fuel
      → await_done v fuel cq mine s ≡ ok true (record s { log = looked cq (suc k) s.log })
  unfolding await_done
  await_done-finishes zero s a h = absurd (omega arith)
  await_done-finishes {cq} {mine} (suc n) s (now {wc} e good own) h =
      rw (e, good, eq→== wc.wr_id mine own) refl
  await_done-finishes {cq} (suc n) s (later e a) h =
      rw e (await_done-finishes n (record s { log = Call.poll_cq cq ∷ s.log }) a (omega arith))

  -- Each request is taken, and its completion comes within `fuel` looks at the queue.
  abbrev pub Delivers : (fuel cq : ℕ) → Type 0
  Delivers fuel cq =
      (log : History) (qp : ℕ) (wr : SendWr)
      → (v.bad_wr log (Call.post_send qp wr) ≡ false)
        × (k : ℕ) × (k < fuel)
        × Comes cq wr.wr_id k (Call.post_send qp wr ∷ log)

  -- The request that answers the driver: `size` bytes of the server's buffer, with the header of
  -- the driver's request.
  abbrev pub answer : (mine lkey buffer size imm_data : ℕ) (inline_data : Bool) → SendWr
  answer mine lkey buffer size imm_data inline_data = record {
    opcode = send_with_imm;
    imm_data = imm_data;
    wr_id = mine;
    addr = buffer;
    length = size;
    lkey = lkey;
    signaled = true;
    inline_data = inline_data;
    remote_addr = 0;
    rkey = 0;
    ah = 0;
    remote_qpn = 0;
    remote_qkey = 0;
  }

  -- the calls of an answer, after `k` looks at an empty queue
  abbrev pub sent_answer :
      Line → (size imm_data : ℕ) (inline_data : Bool) (k : ℕ) → History → History
  sent_answer l size imm_data inline_data k log =
      let wr = answer (v.local log) (v.mr_lkey l.rpc_mr) l.rpc_buffer size imm_data inline_data in
      looked l.send_cq (suc k) (Call.post_send l.qp wr ∷ log)

  pub ib_rdma_send-Delivers :
      (fuel size imm_data : ℕ) (inline_data : Bool) (s : Server)
      → Delivers fuel s.send_cq
      → (k : ℕ) × (ib_rdma_send v fuel s.rpc_mr s.rpc_buffer size imm_data inline_data s
          ≡ ok true (record s { log = sent_answer (line s) size imm_data inline_data k s.log }))
  unfolding ib_rdma_send ib_send post_send send_wr
  ib_rdma_send-Delivers fuel size imm_data inline_data s delivers =
      let mine = v.local s.log in
      let wr =
        send_wr v send_with_imm mine (v.mr_lkey s.rpc_mr) s.rpc_buffer size imm_data 0 0
          inline_data in
      let (taken, k, lt, comes) = delivers s.log s.qp wr in
      (
        k,
        rw taken
            (await_done-finishes fuel (record s { log = Call.post_send s.qp wr ∷ s.log }) comes lt),
      )
