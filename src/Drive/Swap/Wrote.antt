-- ===== src/Drive/Swap/Wrote.antt =====
-- What a write of a page does to the driver's memory, on each way out of `maruswap_multicast_write`.
use maruswap.Base.{
  ℕ, ◌+◌, ◌≤◌, ◌<◌, ◌≡◌, refl, ◌≢◌, ◌⊎◌, inl, inr, Bool, true, false, ◌∷◌, ◌==◌, leb, Bool-cases,
  arith,
}
use maruswap.Base.Run.{ok, pure, and_then-eq-ok, test_not-eq-ok}
use maruswap.Drive.Header.{config_batch, get_num_memblock, flow_header}
use maruswap.Drive.Xarray.{Xarray}
use maruswap.Drive.Net.{SendWr, Verbs, Net, Call, History}
use maruswap.Drive.Stage.{put_entry, stage_buffer_full, stage_buffer_store}
use maruswap.Drive.Stage.Window.{IsWindow, stage_buffer_commit-IsWindow}
use maruswap.Drive.Stage.Refine.{count-commit}
use maruswap.Drive.Ctrl.{Drive, on_net, deref, ib_rpc_commit_all, get_main_rdma_ctrl}
use maruswap.Drive.Ctrl.Keeps.{
  Keeps, Quiet, Committed, bind-Quiet, test-Quiet, pure-Quiet, check_rdma_info-Quiet,
  ib_rpc_open_all-Quiet, ib_rpc_commit_all-Committed,
}
use maruswap.Drive.Swap.{
  get_req_for_page, stage, ib_multicast_send, open_if_closed, commit_if_full, send_page,
  write_opened, write_mapped, maruswap_multicast_write, page_wr,
}

module _ (xa : Xarray) (v : Verbs) where
  -- At most `CONFIG_BATCH` pages are out, and each staged copy is of one of them.
  pub record Sound (s : Drive xa.Arr) : Type 0 where
    pub window : IsWindow xa s.stage_buffer
    pub batch_le : s.batch ≤ config_batch
    pub counted : s.stage_buffer.count ≤ s.batch

  pub Sound-Keeps : {s t : Drive xa.Arr} → Keeps xa v s t → Sound s → Sound t
  Sound-Keeps {s} {t} k h = record {
    window = rw k.stage_buffer h.window;
    batch_le = rw k.batch h.batch_le;
    counted = rw (k.stage_buffer, k.batch) h.counted;
  }

  pub Sound-Committed : {s t : Drive xa.Arr} → Committed xa v s t → Sound s → Sound t
  Sound-Committed {s} {t} k h = record {
    window = rw k.stage_buffer (stage_buffer_commit-IsWindow xa h.window);
    batch_le = omega (arith, k.batch);
    counted = rw (k.stage_buffer, count-commit xa s.stage_buffer) (omega arith);
  }

  pub open_if_closed-Quiet : (fuel offset : ℕ) → Quiet xa v (open_if_closed xa v fuel offset)
  unfolding open_if_closed
  open_if_closed-Quiet fuel offset =
      bind-Quiet xa v _ _ (check_rdma_info-Quiet xa v (get_num_memblock offset)) λ closed.
        test-Quiet xa v closed _ (pure true)
          (bind-Quiet xa v _ _ (ib_rpc_open_all-Quiet xa v fuel offset)
            λ ret. pure-Quiet xa v (ret == 0))
          (pure-Quiet xa v true)

  -- Before the increment: the state is as it was if there is room, and committed if not.
  pub commit_if_full-cases :
      (fuel : ℕ) (s : Drive xa.Arr) {b : Bool} {t : Drive xa.Arr}
      → commit_if_full xa v fuel s ≡ ok b t
      → ((s.batch < config_batch) × (t ≡ s)) ⊎ ((config_batch ≤ s.batch) × Committed xa v s t)
  unfolding commit_if_full
  commit_if_full-cases fuel s {b} {t} h = elim (Bool-cases (leb config_batch s.batch)) [
    | inl full ↦
        let (ret, s', e, h') = and_then-eq-ok (ib_rpc_commit_all xa v fuel s) _ (rw full at h) in
        let done = ib_rpc_commit_all-Committed xa v fuel s e in
        inr (ground arith, ground (arith, done))
    | inr room ↦ inl (ground arith, ground arith)
  ]

  -- The page is staged: nothing else of the state is touched, but the network.
  pub record Put (page offset : ℕ) (s t : Drive xa.Arr) : Type 0 where
    pub stage_buffer : t.stage_buffer ≡ put_entry xa s.stage_buffer (s.frame page) offset
    pub batch : t.batch ≡ s.batch
    pub frame : t.frame ≡ s.frame
    pub main_rdma_ctrl : t.main_rdma_ctrl ≡ s.main_rdma_ctrl

  -- `ib_post_send` that sets `bad_wr` returns an error.
  abbrev pub Reports : Type 0
  Reports =
      (log : History) (qp : ℕ) (wr : SendWr) → v.bad_wr log qp wr ≡ true → v.post_send log qp wr ≢ 0

  stage-Put :
      (page offset : ℕ) (s : Drive xa.Arr) {t : Drive xa.Arr}
      → IsWindow xa s.stage_buffer
      → s.stage_buffer.count < config_batch
      → stage xa v (s.frame page) offset s ≡ ok tt t
      → Put page offset s t
  unfolding stage stage_buffer_store stage_buffer_full
  stage-Put page offset s w room h = ground (arith, w.allocated)

  ib_multicast_send-cases :
      (fuel dma header page offset : ℕ) (s : Drive xa.Arr) {r : ℕ} {t : Drive xa.Arr}
      → IsWindow xa s.stage_buffer
      → s.stage_buffer.count < config_batch
      → ib_multicast_send xa v fuel dma header page offset s ≡ ok r t
      → Put page offset s t ⊎ (Keeps xa v s t × (Reports → r ≢ 0))
  unfolding ib_multicast_send
  ib_multicast_send-cases fuel dma header page offset s {r} {t} w room h =
      let ud = s.ud_package in
      let wr = page_wr v ud dma header (v.local s.net.log) in
      let n : Net = record s.net { log = Call.post_send ud.qp.handle wr ∷ s.net.log } in
      let s' : Drive xa.Arr = record s { net = n } in
      elim (Bool-cases (v.bad_wr s.net.log ud.qp.handle wr)) [
        | inl bad ↦
            inr (
              ground (arith, bad),
              λ reports. ground (arith, bad, reports s.net.log ud.qp.handle wr),
            )
        | inr good ↦
            let (u, s'', e, h') =
              and_then-eq-ok (stage xa v (s.frame page) offset s') _ (rw good at h) in
            let put = stage-Put page offset s' {t = s''} w room e in inl (ground (arith, put))
      ]

  -- What a write does to the driver's memory, if it returns: it fails before its page is sent,
  -- leaving all as it was or just committed, or it counts its page and stages it, unless the post
  -- of the page is refused.
  pub data Wrote (page offset r : ℕ) (s t : Drive xa.Arr) : Type 0 where
    kept : r ≢ 0 → Keeps xa v s t → Wrote page offset r s t
    only_committed : r ≢ 0 → Committed xa v s t → Wrote page offset r s t
    counted :
        (m n : Drive xa.Arr)
        → (Keeps xa v s m × (s.batch < config_batch))
          ⊎ (Committed xa v s m × (config_batch ≤ s.batch))
        → n ≡ record m { batch = m.batch + 1 }
        → Put page offset n t ⊎ (Keeps xa v n t × (Reports → r ≢ 0))
        → Wrote page offset r s t

  -- From a sound state there is room for the page once the batch has been looked at.
  send_counted :
      (fuel dma page offset : ℕ) (s m : Drive xa.Arr) {r : ℕ} {t : Drive xa.Arr}
      → Sound m
      → (Keeps xa v s m × (s.batch < config_batch))
        ⊎ (Committed xa v s m × (config_batch ≤ s.batch))
      → send_page xa v fuel dma page offset m ≡ ok r t
      → Wrote page offset r s t
  unfolding send_page
  send_counted fuel dma page offset s m sound from h = counted m _ from refl (
      ib_multicast_send-cases fuel dma (flow_header offset) page offset _ sound.window (less from)
        h)
    where
      less :
          (Keeps xa v s m × (s.batch < config_batch))
            ⊎ (Committed xa v s m × (config_batch ≤ s.batch))
          → m.stage_buffer.count < config_batch
      less (inl (k, lt)) = omega (arith, k.batch, sound.counted)
      less (inr (k, le)) = omega (arith, k.batch, sound.counted)

  Keeps-refl : (s : Drive xa.Arr) → Keeps xa v s s
  Keeps-refl s = ground arith

  Keeps-trans : {s t u : Drive xa.Arr} → Keeps xa v s t → Keeps xa v t u → Keeps xa v s u
  Keeps-trans h k = ground (arith, h, k)

  Keeps-Committed :
      {s t u : Drive xa.Arr} → Keeps xa v s t → Committed xa v t u → Committed xa v s u
  Keeps-Committed h k = ground (arith, h, k)

  write_opened-Wrote :
      (fuel dma page offset : ℕ) (s : Drive xa.Arr) {r : ℕ} {t : Drive xa.Arr}
      → Sound s
      → write_opened xa v fuel dma page offset s ≡ ok r t
      → Wrote page offset r s t
  unfolding write_opened
  write_opened-Wrote fuel dma page offset s {r} {t} sound h =
      let (emptied, m, e, h') = and_then-eq-ok (commit_if_full xa v fuel s) _ h in
      go m (commit_if_full-cases fuel s e)
        (test_not-eq-ok emptied 1 (send_page xa v fuel dma page offset) m h')
    where
      go :
          {b : Bool} (m : Drive xa.Arr)
          → ((s.batch < config_batch) × (m ≡ s)) ⊎ ((config_batch ≤ s.batch) × Committed xa v s m)
          → ((b ≡ false) × (r ≡ 1) × (t ≡ m))
            ⊎ ((b ≡ true) × (send_page xa v fuel dma page offset m ≡ ok r t))
          → Wrote page offset r s t
      go m (inl (lt, e)) (inl (_, er, et)) = kept (omega (arith, er)) (rw (et, e) (Keeps-refl s))
      go m (inr (le, c)) (inl (_, er, et)) = only_committed (omega (arith, er)) (rw et c)
      go m (inl (lt, e)) (inr (_, x)) =
          let k : Keeps xa v s m = rw e (Keeps-refl s) in
          send_counted fuel dma page offset s m (Sound-Keeps k sound) (inl (k, lt)) x
      go m (inr (le, c)) (inr (_, x)) =
          send_counted fuel dma page offset s m (Sound-Committed c sound) (inr (c, le)) x

  Keeps-Wrote :
      {page offset r : ℕ} {s m t : Drive xa.Arr}
      → Keeps xa v s m
      → Wrote page offset r m t
      → Wrote page offset r s t
  Keeps-Wrote k (kept ne h) = kept ne (Keeps-trans k h)
  Keeps-Wrote k (only_committed ne h) = only_committed ne (Keeps-Committed k h)
  Keeps-Wrote k (counted m n (inl (h, lt)) e p) =
      counted m n (inl (Keeps-trans k h, omega (arith, k.batch))) e p
  Keeps-Wrote k (counted m n (inr (h, le)) e p) =
      counted m n (inr (Keeps-Committed k h, omega (arith, k.batch))) e p

  write_mapped-Wrote :
      (fuel dma page offset : ℕ) (s : Drive xa.Arr) {r : ℕ} {t : Drive xa.Arr}
      → Sound s
      → write_mapped xa v fuel dma page offset s ≡ ok r t
      → Wrote page offset r s t
  unfolding write_mapped
  write_mapped-Wrote fuel dma page offset s {r} {t} sound h =
      let (opened, m, e, h') = and_then-eq-ok (open_if_closed xa v fuel offset s) _ h in
      let keep = open_if_closed-Quiet fuel offset s opened m e in
      elim (test_not-eq-ok opened 1 (write_opened xa v fuel dma page offset) m h') [
        | inl (_, er, et) ↦ kept (omega (arith, er)) (rw et keep)
        | inr (_, x) ↦
            Keeps-Wrote keep (write_opened-Wrote fuel dma page offset m (Sound-Keeps keep sound) x)
      ]

  -- Every write that returns does one of these.
  pub maruswap_multicast_write-Wrote :
      (fuel page offset : ℕ) (s : Drive xa.Arr) {r : ℕ} {t : Drive xa.Arr}
      → Sound s
      → maruswap_multicast_write xa v fuel page offset s ≡ ok r t
      → Wrote page offset r s t
  unfolding maruswap_multicast_write get_main_rdma_ctrl
  maruswap_multicast_write-Wrote fuel page offset s {r} {t} sound h =
      let (c, m, e, h1) = and_then-eq-ok (deref xa v s.main_rdma_ctrl s) _ h in
      let (mapped, n, e', h2) =
        and_then-eq-ok (on_net xa v (get_req_for_page v c.qp.device page) m) _ h1 in
      let keep : Keeps xa v s n = ground (arith, e, e') in
      elim (test_not-eq-ok (mapped.0 == 0) mapped.0 (write_mapped xa v fuel mapped.1 page offset) n
        h2) [
          | inl (bad, er, et) ↦ kept (ground arith) (rw et keep)
          | inr (good, x) ↦
              Keeps-Wrote keep
                (write_mapped-Wrote fuel mapped.1 page offset n (Sound-Keeps keep sound) x)
        ]
