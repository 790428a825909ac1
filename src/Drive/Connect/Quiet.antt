-- ===== src/Drive/Connect/Quiet.antt =====
-- What the handlers of events leave alone: which connection it is, and which ids there are.
use maruswap.Base.{
  ℕ, zero, suc, ◌==◌, ◌≡◌, refl, ◌∙◌, Bool, true, false, List, [], ◌∷◌, Bool-cases, inl, inr, arith,
}
use maruswap.Base.Run.{Run, ok, fault, out_of_fuel, and_then, Cmd}
use maruswap.Drive.Header.{page_size}
use maruswap.Drive.Connect.{
  Event, Call, History, Kernel, Setup, create_id, destroy_id, nr_recv, recv_work, out_alloc_cq,
  out_alloc_qp, make_cqs, rdma_addr_resolved, make_qp, rdma_ctrl_create_qp, rdma_route_resolved,
  post_works, alive_now, get_req_for_buf, rdma_connect_established, on_event, ib_rdma_cm_handler,
  addr_resolved, route_resolved, established, rejected, failed, multicast_join, multicast_error,
  other,
}

-- Neither makes an id nor destroys one.
abbrev pub plain : Call → Bool
plain create_id = false
plain (destroy_id rdma) = false
plain _ = true

-- the ids that a history destroys, the last one first
abbrev pub destroyed : History → List ℕ
destroyed [] = []
destroyed (destroy_id rdma ∷ log) = rdma ∷ destroyed log
destroyed (_ ∷ log) = destroyed log

module _ (k : Kernel) where
  -- the ids that it makes, the last one first
  abbrev pub created : History → List ℕ
  created [] = []
  created (create_id ∷ log) = k.answer log create_id ∷ created log
  created (_ ∷ log) = created log

  -- the same connection, and the same ids
  abbrev pub Same : Setup → Setup → Type 0
  Same s t =
      (t.self ≡ s.self)
      × (t.id ≡ s.id)
      × (t.rdma ≡ s.rdma)
      × (created t.log ≡ created s.log)
      × (destroyed t.log ≡ destroyed s.log)

  Same-trans : (s t u : Setup) → Same s t → Same t u → Same s u
  Same-trans s t u p q = (q.0 ∙ p.0, q.1 ∙ p.1, q.2 ∙ p.2, q.3 ∙ p.3, q.4 ∙ p.4)

  -- if it returned, then the same
  abbrev pub Quiet : {A : Type 0} → Setup → Run Setup A → Type 0
  Quiet s (ok a t) = Same s t
  Quiet s fault = Unit {0}
  Quiet s out_of_fuel = Unit {0}

  pub and_then-Quiet :
      {A B : Type 0} (s : Setup) (r : Run Setup A) (f : A → Cmd Setup B)
      → Quiet s r
      → ((a : A) (u : Setup) → Quiet u (f a u))
      → Quiet s (and_then r f)
  and_then-Quiet s (ok a u) f q rest = widen (f a u) (rest a u)
    where
      widen : {B : Type 0} (r : Run Setup B) → Quiet u r → Quiet s r
      widen (ok b t) p = Same-trans s u t q p
      widen fault p = tt
      widen out_of_fuel p = tt
  and_then-Quiet s fault f q rest = tt
  and_then-Quiet s out_of_fuel f q rest = tt

  rdma_addr_resolved-Quiet : (s : Setup) → Quiet s (rdma_addr_resolved k s)
  unfolding rdma_addr_resolved make_cqs make_qp out_alloc_qp rdma_ctrl_create_qp out_alloc_cq
  rdma_addr_resolved-Quiet s = ground arith

  rdma_route_resolved-Quiet : (s : Setup) → Quiet s (rdma_route_resolved k s)
  unfolding rdma_route_resolved
  rdma_route_resolved-Quiet s = ground arith

  post_works-Quiet : (dma n i : ℕ) (s : Setup) → Quiet s (post_works k dma n i s)
  unfolding post_works
  post_works-Quiet dma zero i s = ground arith
  post_works-Quiet dma (suc n) i s =
      let log1 = Call.kzalloc_work ∷ s.log in
      let work = k.answer s.log Call.kzalloc_work in
      let post = Call.post_recv s.qp work in
      let m : Setup = record s {
        recv_works = recv_work s.rcv_buffer dma i ∷ s.recv_works;
        log = post ∷ log1;
      } in
      elim (Bool-cases (work == 0)) [
        | inl null ↦ rw null tt
        | inr got ↦ elim (Bool-cases (k.answer log1 post == 0)) [
          | inr bad ↦ rw (got, bad) (refl, refl, refl, refl, refl)
          | inl fine ↦ rw (got, fine) (post_works-Quiet dma n (suc i) m)
        ]
      ]

  alive_now-Quiet : (dma : ℕ) (s : Setup) → Quiet s (alive_now k dma s)
  unfolding alive_now
  alive_now-Quiet dma s =
      and_then-Quiet s (post_works k dma nr_recv 0 s) _ (post_works-Quiet dma nr_recv 0 s)
        (λ e u. ground arith)

  rdma_connect_established-Quiet : (s : Setup) → Quiet s (rdma_connect_established k s)
  unfolding rdma_connect_established get_req_for_buf
  rdma_connect_established-Quiet s =
      let p = k.answer s.log (Call.kzalloc page_size) in
      let log1 = Call.kzalloc page_size ∷ s.log in
      let log2 = Call.map_single p page_size ∷ log1 in
      let dma = k.answer log1 (Call.map_single p page_size) in
      let log3 = Call.sync_single dma page_size ∷ log2 in
      let log4 = Call.map_single s.buffer page_size ∷ log3 in
      let own = k.answer log3 (Call.map_single s.buffer page_size) in
      let m : Setup = record s {
        rcv_buffer = p;
        dma_buffer = own;
        log = Call.sync_single own page_size ∷ log4;
      } in
      elim (Bool-cases (p == 0)) [
        | inl null ↦ ground (arith, null)
        | inr got ↦ elim (Bool-cases (k.mapping_error dma)) [
          | inl bad ↦ ground (arith, got, bad)
          | inr mapped ↦ elim (Bool-cases (k.mapping_error own)) [
            | inl bad ↦ ground (arith, got, mapped, bad)
            | inr fine ↦ rw (got, mapped, fine) (alive_now-Quiet dma m)
          ]
        ]
      ]

  on_event-Quiet : (ev : Event) (s : Setup) → Quiet s (on_event k ev s)
  unfolding on_event
  on_event-Quiet addr_resolved s = rdma_addr_resolved-Quiet s
  on_event-Quiet route_resolved s = rdma_route_resolved-Quiet s
  on_event-Quiet established s =
      and_then-Quiet s (rdma_connect_established k s) _ (rdma_connect_established-Quiet s)
        (λ e u. ground arith)
  on_event-Quiet rejected s = ground arith
  on_event-Quiet failed s = ground arith
  on_event-Quiet multicast_join s = ground arith
  on_event-Quiet multicast_error s = ground arith
  on_event-Quiet other s = ground arith

  -- A connection's handler makes no id, destroys none, and leaves the connection's own alone.
  pub ib_rdma_cm_handler-Quiet : (ev : Event) (s : Setup) → Quiet s (ib_rdma_cm_handler k ev s)
  unfolding ib_rdma_cm_handler
  ib_rdma_cm_handler-Quiet ev s =
      and_then-Quiet s (on_event k ev s) _ (on_event-Quiet ev s) (λ e u. ground arith)
