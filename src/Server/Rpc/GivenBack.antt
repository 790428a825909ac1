-- ===== src/Server/Rpc/GivenBack.antt =====
-- What becomes of the binder that a request of the library takes.
use maruswap.Base.{
  ℕ, zero, suc, ◌%◌, ◌≡◌, refl, sym, ap, ◌∙◌, Bool, true, false, not, List, [], ◌∷◌, ◌==◌, get_or,
  set, Bool-cases, inl, inr, ==→eq,
}
use maruswap.Base.Run.{ok, Cmd, pure, and_then-eq-ok, stop, ◌>>=◌, ◌>>◌, test◌then◌else◌}
use maruswap.Drive.Net.{empty, failed, completed, Poll}
use maruswap.Server.State.{Call, Verbs}
use maruswap.Server.Rpc.{
  Binder, free, Client, binder_at, set_binder_flags, nr_binders, get_binder, put_binder, take_work,
  await_binder, await_sent, post_request, client_wr, ib_rpc,
}

abbrev pub flags_at : Client → ℕ → ℕ
flags_at s i = (binder_at s i).flags

get_or-set_free :
    (l : List Binder) (i : ℕ) (x : Binder) → x.flags ≡ 0 → (get_or (set l i x) i free).flags ≡ 0
get_or-set_free [] i x h = refl
get_or-set_free (y ∷ l) zero x h = h
get_or-set_free (y ∷ l) (suc i) x h = get_or-set_free l i x h

module _ (v : Verbs) where
  put_binder-frees :
      (i : ℕ) (s : Client) {t : Client} → put_binder v i s ≡ ok tt t → flags_at t i ≡ 0
  unfolding put_binder set_binder_flags
  put_binder-frees i s {t} h = elim (Bool-cases (flags_at s i == 2)) [
    | inr other ↦ let h' = rw other at h in cc
    | inl same ↦
        let x : Binder = record (binder_at s i) { flags = 0 } in
        let after : Client = record s { binders = set s.binders i x } in
        let h' : ok tt after ≡ ok tt t = rw same at h in
        let e : t ≡ after = cc in ap (λ y. flags_at y i) e ∙ get_or-set_free s.binders i x refl
  ]

  -- a binder that is taken
  abbrev pub taken : List Binder → (binder : ℕ) → List Binder
  taken bs binder = set bs binder (record (get_or bs binder free) { flags = 1 })

  get_binder-takes :
      (fuel : ℕ) (s : Client) {b : ℕ} {t : Client}
      → get_binder v fuel s ≡ ok b t
      → (flags_at s b ≡ 0) × (t.binders ≡ taken s.binders b)
  unfolding get_binder set_binder_flags
  get_binder-takes zero s h = cc
  get_binder-takes (suc n) s {b} {t} h =
      let index = v.answer s.log Call.rand % nr_binders in
      let m : Client = record s { log = Call.rand ∷ s.log } in
      elim (Bool-cases (flags_at s index == 0)) [
        | inl same ↦
            let h' : ok index (set_binder_flags index 1 m) ≡ ok b t = rw same at h in
            let e : b ≡ index = cc in
            let e' : t ≡ record m { binders = taken s.binders index } = cc in
            (
              ap (flags_at s) e ∙ ==→eq _ _ same,
              ap (λ y. y.binders) e' ∙ ap (taken s.binders) (sym e),
            )
        | inr other ↦ get_binder-takes n m {b = b} {t = t} (rw other at h)
      ]

  -- what a poll of the send queue leads to
  abbrev sent : (fuel cq mine : ℕ) → Poll → Cmd Client Bool
  sent fuel cq mine polled = elim polled [
    | empty ↦ await_sent v fuel cq mine
    | failed ↦ pure true
    | completed wc ↦
        test wc.success
        then (test wc.wr_id == mine then pure true else await_sent v fuel cq mine)
        else pure false
  ]

  abbrev Keeps : Cmd Client Bool → Type 0
  Keeps c = (s : Client) (r : Bool) (t : Client) → c s ≡ ok r t → t.binders ≡ s.binders

  pure-Keeps : (b : Bool) → Keeps (pure b)
  pure-Keeps b s r t h = let e : t ≡ s = cc in ap (λ y. y.binders) e

  test-Keeps : (b : Bool) (c d : Cmd Client Bool) → Keeps c → Keeps d → Keeps (test b then c else d)
  test-Keeps true c d hc hd = hc
  test-Keeps false c d hc hd = hd

  sent-Keeps :
      (fuel cq mine : ℕ) (polled : Poll)
      → Keeps (await_sent v fuel cq mine)
      → Keeps (sent fuel cq mine polled)
  sent-Keeps fuel cq mine empty again = again
  sent-Keeps fuel cq mine failed again = pure-Keeps true
  sent-Keeps fuel cq mine (completed wc) again =
      test-Keeps wc.success _ _ (test-Keeps (wc.wr_id == mine) _ _ (pure-Keeps true) again)
        (pure-Keeps false)

  await_sent-Keeps : (fuel cq mine : ℕ) → Keeps (await_sent v fuel cq mine)
  unfolding await_sent
  await_sent-Keeps zero cq mine s r t h = cc
  await_sent-Keeps (suc n) cq mine s r t h =
      let m : Client = record s { log = Call.poll_cq cq ∷ s.log } in
      sent-Keeps n cq mine (v.poll_cq s.log cq) (await_sent-Keeps n cq mine) m r t h

  past_stop :
      {A : Type 0} (b : Bool) (c : Cmd Client A) (s : Client) {a : A} {t : Client}
      → (test b then stop else c) s ≡ ok a t
      → c s ≡ ok a t
  past_stop true c s h = cc
  past_stop false c s h = h

  take_work-frees :
      (qp binder : ℕ) (s : Client) {t : Client}
      → take_work v qp binder s ≡ ok tt t
      → flags_at t binder ≡ 0
  unfolding take_work
  take_work-frees qp binder s {t} h =
      let work = (binder_at s binder).private in
      let post = Call.post_recv qp work in
      let m : Client = record s { log = post ∷ s.log } in
      let next : Cmd Client (Unit {0}) = λ x.
        (test v.bad_wr x.log post then stop else put_binder v binder)
          (record x { log = post ∷ x.log }) in
      let h1 =
        past_stop (v.bad_wr s.log post) (put_binder v binder) m (past_stop (work == 0) next s h) in
      put_binder-frees binder m h1

  -- the end of a request, whose answer has or has not come
  abbrev ends : (fuel qp send_cq mr mine binder : ℕ) → Bool → Cmd Client Bool
  ends fuel qp send_cq mr mine binder came =
      test not came
      then pure false
      else do take_work v qp binder; test mr == 0 then pure true else await_sent v fuel send_cq mine

  ends-frees :
      (fuel qp send_cq mr mine binder : ℕ) (came : Bool) (s : Client) {t : Client}
      → ends fuel qp send_cq mr mine binder came s ≡ ok true t
      → flags_at t binder ≡ 0
  ends-frees fuel qp send_cq mr mine binder false s h = cc
  ends-frees fuel qp send_cq mr mine binder true s {t} h =
      let (_, m, e, h1) =
        and_then-eq-ok (take_work v qp binder s)
          (λ _. test mr == 0 then pure true else await_sent v fuel send_cq mine) h in
      let same =
        test-Keeps (mr == 0) (pure true) (await_sent v fuel send_cq mine) (pure-Keeps true)
          (await_sent-Keeps fuel send_cq mine) m true t h1 in
      ap (λ l. (get_or l binder free).flags) same ∙ take_work-frees qp binder s e

  -- A request that returns true took a binder that was free: its mark, and no other, was set to 1.
  -- It has freed that one again.
  pub ib_rpc-frees :
      (fuel qp send_cq recv_cq opcode req req_size mr : ℕ) (s : Client) {t : Client}
      → ib_rpc v fuel qp send_cq recv_cq opcode req req_size mr s ≡ ok true t
      → (binder : ℕ) × (m : Client) × (get_binder v fuel s ≡ ok binder m)
        × (flags_at s binder ≡ 0)
        × (m.binders ≡ taken s.binders binder)
        × (flags_at t binder ≡ 0)
  unfolding ib_rpc
  ib_rpc-frees fuel qp send_cq recv_cq opcode req req_size mr s {t} h =
      let mine = v.local s.log in
      let wr = λ (binder : ℕ). client_wr v mine opcode binder req req_size mr true 0 0 0 in
      let last = λ (binder : ℕ). λ (came : Bool). ends fuel qp send_cq mr mine binder came in
      let (binder, m, e, h1) =
        and_then-eq-ok (get_binder v fuel s)
          (λ binder.
            post_request v qp (wr binder) >> (await_binder v fuel recv_cq binder >>= last binder))
          h in
      let (_, n, e1, h2) =
        and_then-eq-ok (post_request v qp (wr binder) m)
          (λ _. await_binder v fuel recv_cq binder >>= last binder) h1 in
      let (came, k, e2, h3) =
        and_then-eq-ok (await_binder v fuel recv_cq binder n) (last binder) h2 in
      let (was_free, now_taken) = get_binder-takes fuel s {t = m} e in
      (
        binder,
        m,
        e,
        was_free,
        now_taken,
        ends-frees fuel qp send_cq mr mine binder came k {t = t} h3,
      )
