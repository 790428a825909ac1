-- ===== src/Drive/Swap/Posted.antt =====
-- What a write of a page sends to the group.
use maruswap.Base.{
  ℕ, zero, suc, ◌≡◌, refl, ap, ◌∙◌, ◌≢◌, ◌⊎◌, inl, inr, Bool, true, false, some, ◌+◌, [], ◌∷◌, ◌==◌,
  Bool-cases, arith,
}
use maruswap.Base.Run.{ok, Cmd, pure, ◌>>◌, test◌then◌else◌, and_then-eq-ok, test_not-eq-ok}
use maruswap.Drive.Header.{page_size, flow_header}
use maruswap.Drive.Xarray.{Xarray}
use maruswap.Drive.Net.{
  Qp, Poll, empty, failed, completed, send_with_imm, SendWr, Call, History, Verbs, Net, tell,
}
use maruswap.Drive.Ctrl.{UdPackage, RdmaCtrl, Drive, find_ctrl, on_net, deref, get_main_rdma_ctrl}
use maruswap.Drive.Ctrl.Opened.{on_net-eq-ok, deref-eq-ok}
use maruswap.Drive.Swap.{
  einval, await_done, finish_transfer, get_req_for_page, page_wr, stage, ib_multicast_send,
  open_if_closed, commit_if_full, send_page, write_opened, write_mapped, maruswap_multicast_write,
}
use maruswap.Drive.Swap.Wrote.{Reports, open_if_closed-Quiet, commit_if_full-cases}

-- The call has been made.
abbrev pub Made : Call → History → Type 0
Made c [] = ⊥
Made c (x ∷ log) = (x ≡ c) ⊎ Made c log

-- A command keeps a call that has been made.
abbrev Saves : {A : Type 0} → Call → Cmd Net A → Type 0
Saves {A} c m = (s : Net) (r : A) (t : Net) → m s ≡ ok r t → Made c s.log → Made c t.log

module _ (c : Call) where
  pure-Saves : {A : Type 0} (a : A) → Saves c (pure a)
  pure-Saves a s r t h made = let e : t ≡ s = cc in rw e made

  test-Saves :
      {A : Type 0} (b : Bool) (m k : Cmd Net A)
      → Saves c m
      → Saves c k
      → Saves c (test b then m else k)
  test-Saves true m k hm hk = hm
  test-Saves false m k hm hk = hk

module _ (v : Verbs) (c : Call) where
  -- what a poll leads to
  abbrev polled : (fuel cq mine : ℕ) → Poll → Cmd Net Bool
  polled fuel cq mine p = elim p [
    | empty ↦ await_done v fuel cq mine
    | failed ↦ await_done v fuel cq mine
    | completed wc ↦
        test wc.success
        then (test wc.wr_id == mine then pure true else await_done v fuel cq mine)
        else pure false
  ]

  polled-Saves :
      (fuel cq mine : ℕ) (p : Poll)
      → Saves c (await_done v fuel cq mine)
      → Saves c (polled fuel cq mine p)
  polled-Saves fuel cq mine empty again = again
  polled-Saves fuel cq mine failed again = again
  polled-Saves fuel cq mine (completed wc) again =
      test-Saves c wc.success _ _ (test-Saves c (wc.wr_id == mine) _ _ (pure-Saves c true) again)
        (pure-Saves c false)

  await_done-Saves : (fuel cq mine : ℕ) → Saves c (await_done v fuel cq mine)
  unfolding await_done
  await_done-Saves zero cq mine s r t h made = cc
  await_done-Saves (suc n) cq mine s r t h made =
      let m : Net = record s { log = Call.poll_cq cq ∷ s.log } in
      polled-Saves n cq mine (v.poll_cq s.log cq) (await_done-Saves n cq mine) m r t h (inr made)

  finish_transfer-Saves :
      (fuel : ℕ) (qp : Qp) (dma mine ret : ℕ) → Saves c (finish_transfer v fuel qp dma mine ret)
  unfolding finish_transfer
  finish_transfer-Saves fuel qp dma mine ret s r t h made =
      let (sent, m, e, h') = and_then-eq-ok (await_done v fuel qp.send_cq mine s) _ h in
      let still = await_done-Saves fuel qp.send_cq mine s sent m e made in unmapped sent m h' still
    where
      unmapped :
          (sent : Bool) (m : Net)
          → (test sent then (tell (Call.unmap_page qp.device dma) >> pure ret) else pure einval) m
            ≡ ok r t
          → Made c m.log
          → Made c t.log
      unmapped true m h' still =
          let e : t ≡ record m { log = Call.unmap_page qp.device dma ∷ m.log } = cc in
          rw e (inr still)
      unmapped false m h' still = let e : t ≡ m = cc in rw e still

module _ (xa : Xarray) (v : Verbs) where
  stage-net :
      (content offset : ℕ) (s t : Drive xa.Arr)
      → stage xa v content offset s ≡ ok tt t
      → t.net ≡ s.net
  unfolding stage
  stage-net content offset s t h = ground arith

  -- a message to the group's members, on the queue pair of its package and by its address, with
  -- this header and from this DMA address, of one page
  abbrev pub Message : UdPackage → (dma header : ℕ) → History → Type 0
  Message ud dma header log =
      (wr : SendWr) × Made (Call.post_send ud.qp.handle wr) log
      × (wr.opcode ≡ send_with_imm)
      × (wr.ah ≡ ud.ah)
      × (wr.remote_qpn ≡ ud.remote_qpn)
      × (wr.remote_qkey ≡ ud.remote_qkey)
      × (wr.lkey ≡ ud.qp.lkey)
      × (wr.imm_data ≡ header)
      × (wr.addr ≡ dma)
      × (wr.length ≡ page_size)

  ib_multicast_send-Message :
      (fuel dma header page offset : ℕ) (s t : Drive xa.Arr)
      → Reports xa v
      → ib_multicast_send xa v fuel dma header page offset s ≡ ok 0 t
      → Message s.ud_package dma header t.net.log
  unfolding ib_multicast_send page_wr
  ib_multicast_send-Message fuel dma header page offset s t reports h =
      let ud = s.ud_package in
      let mine = v.local s.net.log in
      let wr = page_wr v ud dma header mine in
      let post = Call.post_send ud.qp.handle wr in
      let ret = v.post_send s.net.log ud.qp.handle wr in
      let s' : Drive xa.Arr = record s { net = record s.net { log = post ∷ s.net.log } } in
      elim (Bool-cases (v.bad_wr s.net.log ud.qp.handle wr)) [
        | inl bad ↦
            let refused : ret ≢ 0 = reports s.net.log ud.qp.handle wr bad in
            let h' : ok ret s' ≡ ok 0 t = rw bad at h in let e : ret ≡ 0 = cc in absurd (refused e)
        | inr good ↦
            let (u, m, e, h') =
              and_then-eq-ok (stage xa v (s.frame page) offset s') _ (rw good at h) in
            let (n, e', last) =
              on_net-eq-ok xa v m (finish_transfer v fuel ud.qp dma mine ret m.net) h' in
            let before : Made post m.net.log =
              rw (stage-net (s.frame page) offset s' m e) (inl refl) in
            let after = finish_transfer-Saves v post fuel ud.qp dma mine ret m.net 0 n e' before in
            (wr, rw last after, refl, refl, refl, refl, refl, refl, refl, refl)
      ]

  get_req_for_page-dma :
      (device page : ℕ) (s : Net) (r : ℕ × ℕ) (t : Net)
      → get_req_for_page v device page s ≡ ok r t
      → r.1 ≡ v.map_page s.log device page
  unfolding get_req_for_page
  get_req_for_page-dma device page s r t h =
      elim (Bool-cases (v.mapping_error device (v.map_page s.log device page))) [
        | inl bad ↦ let h' = rw bad at h in cc
        | inr good ↦ let h' = rw good at h in cc
      ]

  write_opened-Message :
      (fuel dma page offset : ℕ) (s t : Drive xa.Arr)
      → Reports xa v
      → write_opened xa v fuel dma page offset s ≡ ok 0 t
      → Message s.ud_package dma (flow_header offset) t.net.log
  unfolding write_opened send_page
  write_opened-Message fuel dma page offset s t reports h =
      let (emptied, m, e, h') = and_then-eq-ok (commit_if_full xa v fuel s) _ h in
      elim (test_not-eq-ok emptied 1 (send_page xa v fuel dma page offset) m h') [
        | inl (_, er, et) ↦ absurd (omega (arith, er))
        | inr (_, x) ↦
            let same : m.ud_package ≡ s.ud_package =
              elim (commit_if_full-cases xa v fuel s {t = m} e) [
                | inl (room, as_before) ↦ ap (λ y. y.ud_package) as_before
                | inr (full, done) ↦ done.ud_package
              ] in
            rw same at (
              ib_multicast_send-Message fuel dma (flow_header offset) page offset
                (record m { batch = m.batch + 1 }) t reports x)
      ]

  write_mapped-Message :
      (fuel dma page offset : ℕ) (s t : Drive xa.Arr)
      → Reports xa v
      → write_mapped xa v fuel dma page offset s ≡ ok 0 t
      → Message s.ud_package dma (flow_header offset) t.net.log
  unfolding write_mapped
  write_mapped-Message fuel dma page offset s t reports h =
      let (opened, m, e, h') = and_then-eq-ok (open_if_closed xa v fuel offset s) _ h in
      elim (test_not-eq-ok opened 1 (write_opened xa v fuel dma page offset) m h') [
        | inl (_, er, et) ↦ absurd (omega (arith, er))
        | inr (_, x) ↦
            rw ((open_if_closed-Quiet xa v fuel offset s opened m e).ud_package) at
              (write_opened-Message fuel dma page offset m t reports x)
      ]

  Message-from :
      {u u' : UdPackage} {dma dma' : ℕ} (header : ℕ) (log : History)
      → u ≡ u'
      → dma ≡ dma'
      → Message u dma header log
      → Message u' dma' header log
  Message-from header log same same' h = rw (same, same') at h

  -- A write that returns 0 has posted a message to the group, on the queue pair that the group's
  -- package names, to the address, number and key in it, with the local key of that queue pair. Its
  -- immediate data are the header of the page number, and it is one page long, from the address
  -- that the page was mapped to for the main connection's device when the write began.
  pub maruswap_multicast_write-Message :
      (fuel page offset : ℕ) (s : Drive xa.Arr) {t : Drive xa.Arr}
      → Reports xa v
      → maruswap_multicast_write xa v fuel page offset s ≡ ok 0 t
      → (c : RdmaCtrl) × (find_ctrl s.main_rdma_ctrl s.rdma_ctrl_list ≡ some c)
        × Message s.ud_package
            (v.map_page s.net.log c.qp.device page)
            (flow_header offset)
            t.net.log
  unfolding maruswap_multicast_write get_main_rdma_ctrl
  maruswap_multicast_write-Message fuel page offset s {t} reports h =
      let (c, m, e, h1) = and_then-eq-ok (deref xa v s.main_rdma_ctrl s) _ h in
      let (found, same) = deref-eq-ok xa v s (find_ctrl s.main_rdma_ctrl s.rdma_ctrl_list) e in
      let (mapped, n, e', h2) =
        and_then-eq-ok (on_net xa v (get_req_for_page v c.qp.device page) m) _ h1 in
      let (net, e2, last) = on_net-eq-ok xa v m (get_req_for_page v c.qp.device page m.net) e' in
      let dma : mapped.1 ≡ v.map_page m.net.log c.qp.device page =
        get_req_for_page-dma c.qp.device page m.net mapped net e2 in
      elim (test_not-eq-ok (mapped.0 == 0) mapped.0 (write_mapped xa v fuel mapped.1 page offset) n
        h2) [
          | inl (bad, er, et) ↦ absurd (ground (arith, bad, er))
          | inr (good, x) ↦ (
            c,
            found,
            Message-from (flow_header offset) t.net.log
                (ap (λ y. y.ud_package) last ∙ ap (λ (y : Drive xa.Arr). y.ud_package) same)
                (dma ∙ ap (λ (y : Drive xa.Arr). v.map_page y.net.log c.qp.device page) same)
                (write_mapped-Message fuel mapped.1 page offset n t reports x),
          )
        ]
