-- ===== src/Drive/Rpc/Leak.antt =====
-- What becomes of the reserved binder when an RPC returns.
use maruswap.Base.{
  ℕ, zero, suc, ◌<◌, ◌≡◌, ◌≢◌, Option, none, ◌∷◌, length, Bool-cases, inl, inr, arith, bit_and-ones,
}
use maruswap.Base.Run.{ok, and_then-eq-ok}
use maruswap.Drive.Header.{answer_slot}
use maruswap.Drive.Net.{Qp, Wc, RdmaInfo, Verbs, Net, Call, Poll-cases}
use maruswap.Drive.Binder.{nr_binders, flags_at, file_answer, get_binder, put_binder}
use maruswap.Drive.Binder.Reserve.{
  flags_at-set_flags, flags_at-file_answer, length-set_flags, length-file_answer,
  get_binder-reserves,
}
use maruswap.Drive.Rpc.{
  Outcome, ib_putback_recv_work, await_send, await_answer, take_answer, ib_rpc_answer,
  ib_rpc_reserved, ib_rpc, rpc_request,
}

pub answer_slot-lt : (imm : ℕ) → answer_slot imm < nr_binders
unfolding answer_slot
answer_slot-lt imm = omega (arith, bit_and-ones 8 imm)

module _ (v : Verbs) where
  await_send-binders :
      (fuel cq mine : ℕ) (s : Net) {w : Outcome} {t : Net}
      → await_send v fuel cq mine s ≡ ok w t
      → t.binders ≡ s.binders
  unfolding await_send
  await_send-binders zero cq mine s h = cc
  await_send-binders (suc n) cq mine s {w} {t} h = ground (
    arith,
    await_send-binders n cq mine (record s { log = Call.poll_cq cq ∷ s.log }) {w = w} {t = t},
  )

  abbrev InUse : ℕ → Net → Type 0
  InUse j s = (length s.binders ≡ nr_binders) × (flags_at s.binders j ≢ 0)

  abbrev asked : ℕ → Net → Net
  asked cq s = record s { log = Call.poll_cq cq ∷ s.log }

  abbrev filed : Wc → Net → Net
  filed wc s = record s { binders = file_answer (answer_slot wc.imm_data) wc.wr_id s.binders }

  file_answer-InUse : (j : ℕ) (wc : Wc) (s : Net) → InUse j s → InUse j (filed wc s)
  file_answer-InUse j wc s u = ground (
    arith,
    length-file_answer (answer_slot wc.imm_data) wc.wr_id s.binders,
    answer_slot-lt wc.imm_data,
    flags_at-file_answer s.binders (answer_slot wc.imm_data) wc.wr_id j
        (omega (arith, answer_slot-lt wc.imm_data)),
  )

  -- A wait for an answer frees no binder.
  await_answer-InUse :
      (fuel cq binder j : ℕ) (s : Net) {w : Outcome} {t : Net}
      → await_answer v fuel cq binder s ≡ ok w t
      → InUse j s
      → InUse j t
  unfolding await_answer
  await_answer-InUse zero cq binder j s h u = cc
  await_answer-InUse (suc n) cq binder j s {w} {t} h u = elim (Poll-cases (v.poll_cq s.log cq)) [
    | inl e ↦ ground (arith, await_answer-InUse n cq binder j (asked cq s) {w = w} {t = t})
    | inr (inl e) ↦ ground arith
    | inr (inr (wc, e)) ↦ ground (
      arith,
      file_answer-InUse j wc (asked cq s) u,
      await_answer-InUse n cq binder j (filed wc (asked cq s)) {w = w} {t = t},
    )
  ]

  take_answer-some :
      (qp : Qp) (binder : ℕ) (s : Net) {r : Option RdmaInfo} {t : Net}
      → take_answer v qp binder s ≡ ok r t
      → r ≢ none
  unfolding take_answer ib_putback_recv_work put_binder
  take_answer-some qp binder s h e = ground arith

  ib_rpc_answer-InUse :
      (fuel : ℕ) (qp : Qp) (binder j : ℕ) (s : Net) {t : Net}
      → ib_rpc_answer v fuel qp binder s ≡ ok none t
      → InUse j s
      → InUse j t
  unfolding ib_rpc_answer
  ib_rpc_answer-InUse fuel qp binder j s {t} h u =
      let (w, s', e, h') = and_then-eq-ok (await_answer v fuel qp.recv_cq binder s) _ h in
      ground (
        arith,
        await_answer-InUse fuel qp.recv_cq binder j s e u,
        take_answer-some qp binder s' {r = none} {t = t},
      )

  ib_rpc_reserved-InUse :
      (fuel : ℕ) (qp : Qp) (opcode req req_size mine binder j : ℕ) (s : Net) {t : Net}
      → ib_rpc_reserved v fuel qp opcode req req_size mine binder s ≡ ok none t
      → InUse j s
      → InUse j t
  unfolding ib_rpc_reserved
  ib_rpc_reserved-InUse fuel qp opcode req req_size mine binder j s {t} h u =
      let wr = rpc_request v qp opcode binder req req_size mine in
      let s' : Net = record s { log = Call.post_send qp.handle wr ∷ s.log } in
      elim (Bool-cases (v.bad_wr s.log qp.handle wr)) [
        | inl bad ↦ ground arith
        | inr good ↦
            let (w, s'', e, h') =
              and_then-eq-ok (await_send v fuel qp.send_cq mine s') _ (rw good at h) in
            ground (
              arith,
              await_send-binders fuel qp.send_cq mine s' e,
              ib_rpc_answer-InUse fuel qp binder j s'' {t = t},
            )
      ]

  -- An RPC that returns an error leaves its binder reserved: an entry that was free is in use
  -- afterwards, so each error takes one of the 256 entries for good.
  pub ib_rpc-leaks :
      (fuel : ℕ) (qp : Qp) (opcode req req_size : ℕ) (s : Net) {t : Net}
      → length s.binders ≡ nr_binders
      → ib_rpc v fuel qp opcode req req_size s ≡ ok none t
      → (i : ℕ) × (i < nr_binders) × (flags_at s.binders i ≡ 0) × (flags_at t.binders i ≢ 0)
  unfolding ib_rpc
  ib_rpc-leaks fuel qp opcode req req_size s {t} size h =
      let (i, s', e, h') = and_then-eq-ok (get_binder v fuel s) _ h in
      let (free, lt, made) = get_binder-reserves v fuel s e in
      let u : InUse i s' =
        ground (
          arith,
          length-set_flags i 1 s.binders,
          flags_at-set_flags s.binders i 1 i (omega arith),
        ) in
      (
        i,
        lt,
        free,
        (ib_rpc_reserved-InUse fuel qp opcode req req_size (v.local s.log) i i s' h' u).1,
      )
