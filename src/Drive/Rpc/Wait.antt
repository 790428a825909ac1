-- ===== src/Drive/Rpc/Wait.antt =====
-- How long an RPC waits for its answer.
use maruswap.Base.{
  ℕ, zero, suc, ◌%◌, ◌^◌, ◌<◌, ◌≡◌, refl, ◌≢◌, inl, inr, true, ◌∷◌, length, eq→==, ne→==, arith,
}
use maruswap.Base.Run.{ok, out_of_fuel}
use maruswap.Drive.Header.{answer_slot, open_opcode, rpc_imm}
use maruswap.Drive.Net.{Qp, Wc, empty, failed, completed, Verbs, Net, Call, History, Poll-cases}
use maruswap.Drive.Binder.{nr_binders, flags_at, file_answer}
use maruswap.Drive.Binder.Reserve.{flags_at-file_answer, length-file_answer}
use maruswap.Drive.Rpc.Leak.{answer_slot-lt}
use maruswap.Protocol.RoundTrip.{answer_slot-open_opcode}
use maruswap.Drive.Rpc.{finished, await_send, await_answer, ib_rpc_answer}

module _ (v : Verbs) where
  -- the calls after `k` more polls of a queue
  abbrev pub polls : (cq k : ℕ) → History → History
  polls cq zero log = log
  polls cq (suc k) log = polls cq k (Call.poll_cq cq ∷ log)

  -- The queue is empty `k` times, and then has a good completion.
  pub data Arrives (cq : ℕ) (wc : Wc) : ℕ → History → Type 0 where
    now :
        {log : History} → v.poll_cq log cq ≡ completed wc → wc.success ≡ true → Arrives cq wc 0 log
    later :
        {k : ℕ} {log : History}
        → v.poll_cq log cq ≡ empty
        → Arrives cq wc k (Call.poll_cq cq ∷ log)
        → Arrives cq wc (suc k) log

  -- The wait for a sent request ends with its completion, given more rounds than empty polls before
  -- it. It changes nothing but the calls made.
  await_send-finishes :
      {k : ℕ} {cq : ℕ} {wc : Wc} (fuel : ℕ) (s : Net)
      → Arrives cq wc k s.log
      → k < fuel
      → await_send v fuel cq wc.wr_id s ≡ ok finished (record s { log = polls cq (suc k) s.log })
  unfolding await_send
  await_send-finishes zero s a h = absurd (omega arith)
  await_send-finishes {cq} {wc} (suc n) s (now e good) h =
      rw (e, good, eq→== wc.wr_id wc.wr_id refl)
  await_send-finishes {cq} (suc n) s (later e a) h =
      rw e (await_send-finishes n (record s { log = Call.poll_cq cq ∷ s.log }) a (omega arith))

  -- The answer is filed, and one more look at the flags ends the loop.
  pub await_answer-finishes :
      {k : ℕ} {cq : ℕ} {wc : Wc} (fuel : ℕ) (s : Net)
      → Arrives cq wc k s.log
      → suc k < fuel
      → length s.binders ≡ nr_binders
      → answer_slot wc.imm_data < nr_binders
      → flags_at s.binders (answer_slot wc.imm_data) ≢ 2
      → await_answer v fuel cq (answer_slot wc.imm_data) s
        ≡ ok finished (record {
          binders = file_answer (answer_slot wc.imm_data) wc.wr_id s.binders;
          log = polls cq (suc k) s.log;
        })
  unfolding await_answer
  await_answer-finishes zero s a h size lt ne = absurd (omega arith)
  await_answer-finishes (suc zero) s a h size lt ne = absurd (omega arith)
  await_answer-finishes {cq} {wc} (suc (suc n)) s (now e good) h size lt ne =
      let slot = answer_slot wc.imm_data in
      let filed : flags_at (file_answer slot wc.wr_id s.binders) slot ≡ 2 =
        ground (arith, flags_at-file_answer s.binders slot wc.wr_id slot (omega arith)) in
      rw (ne→== _ _ ne, e, good, filed)
  await_answer-finishes {cq} (suc (suc n)) s (later e a) h size lt ne =
      rw (ne→== _ _ ne, e)
        (await_answer-finishes (suc n) (record s { log = Call.poll_cq cq ∷ s.log }) a (omega arith)
          size lt ne)

  -- Every completion of the queue, if any comes, is a good one with this immediate data.
  abbrev pub Only : (cq imm : ℕ) → Type 0
  Only cq imm =
      (log : History) (wc : Wc)
      → v.poll_cq log cq ≡ completed wc
      → (wc.success ≡ true) × (wc.imm_data ≡ imm)

  abbrev pub Works : (cq : ℕ) → Type 0
  Works cq = (log : History) → v.poll_cq log cq ≢ failed

  await_answer-starves :
      (fuel cq binder imm : ℕ) (s : Net)
      → Only cq imm
      → Works cq
      → answer_slot imm ≢ binder
      → answer_slot imm < nr_binders
      → length s.binders ≡ nr_binders
      → flags_at s.binders binder ≢ 2
      → await_answer v fuel cq binder s ≡ out_of_fuel
  unfolding await_answer
  await_answer-starves zero cq binder imm s only works other lt size ne = refl
  await_answer-starves (suc n) cq binder imm s only works other lt size ne =
      let s' : Net = record s { log = Call.poll_cq cq ∷ s.log } in
      elim (Poll-cases (v.poll_cq s.log cq)) [
        | inl e ↦
            rw (ne→== _ _ ne, e)
              (await_answer-starves n cq binder imm s' only works other lt size ne)
        | inr (inl e) ↦ absurd (works s.log e)
        | inr (inr (wc, e)) ↦
            let (good, same) = only s.log wc e in
            let bs = file_answer (answer_slot imm) wc.wr_id s.binders in
            rw (ne→== _ _ ne, e, good, same)
              (await_answer-starves n cq binder imm (record s' { binders = bs }) only works other lt
                (omega (arith, length-file_answer (answer_slot imm) wc.wr_id s.binders, size))
                (ground (
                  arith,
                  flags_at-file_answer s.binders (answer_slot imm) wc.wr_id binder (omega arith),
                )))
      ]

  -- The bug of the open request: where the server's only answer echoes the request's header, as
  -- the server does, and the low byte of the page number exceeds the binder, the driver waits for
  -- ever: no number of rounds is enough.
  pub open_starves :
      (fuel : ℕ) (qp : Qp) (offset binder : ℕ) (s : Net)
      → offset < 2 ^ 28
      → binder < offset % 2 ^ 8
      → Only qp.recv_cq (rpc_imm (open_opcode offset) binder)
      → Works qp.recv_cq
      → length s.binders ≡ nr_binders
      → flags_at s.binders binder ≡ 1
      → ib_rpc_answer v fuel qp binder s ≡ out_of_fuel
  unfolding ib_rpc_answer
  open_starves fuel qp offset binder s ho hb only works size reserved =
      let imm = rpc_imm (open_opcode offset) binder in
      rw (
        await_answer-starves fuel qp.recv_cq binder imm s only works
          ((answer_slot-open_opcode offset binder ho (omega arith)).2 hb) (answer_slot-lt imm) size
          (omega arith))
