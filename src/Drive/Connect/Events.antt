-- ===== src/Drive/Connect/Events.antt =====
-- What the events of a connection to a server leave behind.
use maruswap.Base.{
  ℕ, zero, suc, ◌+◌, ◌≤◌, ◌<◌, ◌≡◌, ◌≢◌, ◌⊎◌, ◌↔◌, inl, inr, true, List, [], ◌∷◌, length, ◌==◌,
  Bool-cases, ==→eq, if◌then◌else◌, arith,
}
use maruswap.Base.Run.{ok, and_then-eq-ok}
use maruswap.Drive.Header.{page_size}
use maruswap.Drive.Connect.{
  Event, Call, Kernel, Setup, nr_recv, recv_work, post_works, alive_now, get_req_for_buf,
  rdma_connect_established, on_event, ib_rdma_cm_handler,
}

-- Of the receive works that are posted to a connection, just the first 16 lie inside the page that
-- is allocated and mapped for them.
recv_work-in_bounds :
    (rcv_buffer dma i : ℕ)
    → i < nr_recv
    → let w = recv_work rcv_buffer dma i in
      (w.buffer + w.size ≤ rcv_buffer + page_size ↔ i < 16)
      × (w.addr + w.size ≤ dma + page_size ↔ i < 16)
unfolding recv_work
recv_work-in_bounds rcv_buffer dma i h =
    ((λ k. omega arith, λ k. omega arith), (λ k. omega arith, λ k. omega arith))

-- the receive requests posted on a queue pair
abbrev pub posts : (qp : ℕ) → List Call → ℕ
posts qp [] = 0
posts qp (Call.post_recv q work ∷ log) = (if q == qp then 1 else 0) + posts qp log
posts qp (c ∷ log) = posts qp log

module _ (k : Kernel) where
  -- The handler's result is the error on record: that of this event if it fails, and else the one
  -- that was there. A failed event wakes whoever waits for the connection.
  ib_rdma_cm_handler-error :
      (ev : Event) (s : Setup) {r : ℕ} {t : Setup}
      → ib_rdma_cm_handler k ev s ≡ ok r t
      → (e : ℕ) × (m : Setup) × (on_event k ev s ≡ ok e m)
        × (r ≡ t.cm_error)
        × (t.cm_error ≡ (if e == 0 then m.cm_error else e))
        × (t.log ≡ (if e == 0 then m.log else Call.complete ∷ m.log))
        × (t.alive ≡ m.alive)
  unfolding ib_rdma_cm_handler
  ib_rdma_cm_handler-error ev s {r} {t} h =
      let (e, m, first, rest) = and_then-eq-ok (on_event k ev s) _ h in
      let after : (r ≡ t.cm_error)
          × (t.cm_error ≡ (if e == 0 then m.cm_error else e))
          × (t.log ≡ (if e == 0 then m.log else Call.complete ∷ m.log))
          × (t.alive ≡ m.alive) =
        elim (Bool-cases (e == 0)) [
          | inl fine ↦ ground (arith, fine, rest)
          | inr bad ↦ ground (arith, bad, rest)
        ] in
      (e, m, first, after.0, after.1, after.2, after.3)

  post_works-cases :
      (dma n i : ℕ) (s : Setup) {r : ℕ} {t : Setup}
      → post_works k dma n i s ≡ ok r t
      → (t.alive ≡ s.alive)
        × (t.nr_rdma_ctrl ≡ s.nr_rdma_ctrl)
        × ((r ≡ 0)
              × (length t.recv_works ≡ n + length s.recv_works)
              × (posts s.qp t.log ≡ n + posts s.qp s.log)
            ⊎ (r ≢ 0))
  unfolding post_works
  post_works-cases dma zero i s h = ground arith
  post_works-cases dma (suc n) i s h =
      let log1 = Call.kzalloc_work ∷ s.log in
      let work = k.answer s.log Call.kzalloc_work in
      let post = Call.post_recv s.qp work in
      let m : Setup = record s {
        recv_works = recv_work s.rcv_buffer dma i ∷ s.recv_works;
        log = post ∷ log1;
      } in
      elim (Bool-cases (work == 0)) [
        | inl null ↦ ground (arith, null, h)
        | inr got ↦ elim (Bool-cases (k.answer log1 post == 0)) [
          | inr bad ↦ ground (arith, got, bad, h)
          | inl fine ↦
              let rest = post_works-cases dma n (suc i) m (rw (got, fine) at h) in
              ground (arith, rest)
        ]
      ]

  -- what `rdma_connect_established` comes to
  abbrev pub Established : (s t : Setup) → (r : ℕ) → Type 0
  Established s t r =
      ((r ≡ 0)
        × (t.alive ≡ true)
        × (t.nr_rdma_ctrl ≡ s.nr_rdma_ctrl + 1)
        × (length t.recv_works ≡ nr_recv + length s.recv_works)
        × (posts s.qp t.log ≡ nr_recv + posts s.qp s.log))
      ⊎ ((r ≢ 0) × (t.alive ≡ s.alive) × (t.nr_rdma_ctrl ≡ s.nr_rdma_ctrl))

  alive_now-Established :
      (dma : ℕ) (s : Setup) {r : ℕ} {t : Setup} → alive_now k dma s ≡ ok r t → Established s t r
  unfolding alive_now
  alive_now-Established dma s {r} {t} h =
      let (e, m, first, rest) = and_then-eq-ok (post_works k dma nr_recv 0 s) _ h in
      let done = post_works-cases dma nr_recv 0 s first in
      elim (Bool-cases (e == 0)) [
        | inl fine ↦
            let zero_now = ==→eq e 0 fine in
            let (all, ret, living, more, made) = counted done zero_now (rw fine at rest) in
            inl (ret, living, more, all, made)
        | inr bad ↦ unchanged done (ground arith) (rw bad at rest)
      ]
    where
      Works : (e : ℕ) → Setup → Type 0
      Works e m =
          (m.alive ≡ s.alive)
          × (m.nr_rdma_ctrl ≡ s.nr_rdma_ctrl)
          × ((e ≡ 0)
                × (length m.recv_works ≡ nr_recv + length s.recv_works)
                × (posts s.qp m.log ≡ nr_recv + posts s.qp s.log)
              ⊎ (e ≢ 0))

      counted :
          {e : ℕ} {m : Setup}
          → Works e m
          → e ≡ 0
          → ok 0 (record m { nr_rdma_ctrl = m.nr_rdma_ctrl + 1; alive = true }) ≡ ok r t
          → (length t.recv_works ≡ nr_recv + length s.recv_works)
            × (r ≡ 0)
            × (t.alive ≡ true)
            × (t.nr_rdma_ctrl ≡ s.nr_rdma_ctrl + 1)
            × (posts s.qp t.log ≡ nr_recv + posts s.qp s.log)
      counted done e h = ground (arith, done)

      unchanged : {e : ℕ} {m : Setup} → Works e m → e ≢ 0 → ok e m ≡ ok r t → Established s t r
      unchanged done ne h = ground (arith, done)

  -- An established connection is alive and counted, with all its 32 receive works made and as many
  -- more receive requests posted on its queue pair, exactly if 0 is returned; on an error it is as alive as before, and not counted.
  pub rdma_connect_established-alive :
      (s : Setup) {r : ℕ} {t : Setup} → rdma_connect_established k s ≡ ok r t → Established s t r
  unfolding rdma_connect_established get_req_for_buf
  rdma_connect_established-alive s h =
      let p = k.answer s.log (Call.kzalloc page_size) in
      let log1 = Call.kzalloc page_size ∷ s.log in
      let log2 = Call.map_single p page_size ∷ log1 in
      let dma = k.answer log1 (Call.map_single p page_size) in
      let log3 = Call.sync_single dma page_size ∷ log2 in
      let log4 = Call.map_single s.buffer page_size ∷ log3 in
      let own = k.answer log3 (Call.map_single s.buffer page_size) in
      let m : Setup = record s {
        rcv_buffer = p;
        dma_buffer = own;
        log = Call.sync_single own page_size ∷ log4;
      } in
      elim (Bool-cases (p == 0)) [
        | inl null ↦ ground (arith, null, h)
        | inr got ↦ elim (Bool-cases (k.mapping_error dma)) [
          | inl bad ↦ ground (arith, got, bad, h)
          | inr mapped ↦ elim (Bool-cases (k.mapping_error own)) [
            | inl bad ↦ ground (arith, got, mapped, bad, h)
            | inr fine ↦
                let done = alive_now-Established dma m (rw (got, mapped, fine) at h) in
                ground (arith, done)
          ]
        ]
      ]
