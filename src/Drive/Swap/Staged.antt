-- ===== src/Drive/Swap/Staged.antt =====
-- drive/sib.c: writes and reads of pages, and the staged copies.
use maruswap.Base.{
  ℕ, ◌+◌, ◌%◌, ◌≡◌, refl, inl, inr, Option, none, some, ◌==◌, leb, if◌then◌else◌, Bool-cases,
  Option-cases, arith,
}
use maruswap.Base.Run.{ok, test◌then◌else◌}
use maruswap.Drive.Header.{config_batch}
use maruswap.Drive.Xarray.{Xarray}
use maruswap.Drive.Net.{Verbs}
use maruswap.Drive.Stage.Refine.{view, view-put_entry, view-commit}
use maruswap.Drive.Ctrl.{
  RdmaCtrl, Drive, find_ctrl, get_sub, get_sub_rdma_ctrl, deref, get_main_rdma_ctrl,
}
use maruswap.Drive.Swap.{maruswap_multicast_write, pick_server, maruswap_rdma_read}
use maruswap.Drive.Swap.Wrote.{
  Sound, Put, Reports, Wrote, kept, only_committed, counted, maruswap_multicast_write-Wrote,
}
use maruswap.Drive.Swap.Sound.{From, From-Sound}

module _ (xa : Xarray) (v : Verbs) where
  -- What a read of page number `i` finds staged.
  abbrev pub staged : Drive xa.Arr → ℕ → Option ℕ
  staged s i = view xa s.stage_buffer i

  abbrev Shows : (page offset : ℕ) → Drive xa.Arr → Drive xa.Arr → Type 0
  Shows page offset s t =
      (i : ℕ)
      → staged t i ≡ (
          if offset == i
          then some (s.frame page)
          else if leb config_batch s.batch
          then none
          else staged s i)

  staged-Put :
      {page offset : ℕ} {s : Drive xa.Arr} (m n t : Drive xa.Arr)
      → Sound xa v s
      → From xa v s m
      → n ≡ record m { batch = m.batch + 1 }
      → Put xa v page offset n t
      → Shows page offset s t
  staged-Put {page} {offset} {s} m n t sound from e p i =
      let (ready, lt) = From-Sound xa v s m sound from in
      let same : n.stage_buffer ≡ m.stage_buffer = ground (arith, e) in
      let framed : n.frame page ≡ m.frame page = ground (arith, e) in
      let now : staged t i ≡ (if offset == i then some (n.frame page) else staged n i) =
        rw (p.stage_buffer) (
          view-put_entry xa n.stage_buffer (n.frame page) offset i (rw same ready.window)
            (rw same (omega (arith, ready.counted)))) in
      rw (now, same, framed) (before from)
    where
      before :
          From xa v s m
          → (if offset == i then some (m.frame page) else staged m i) ≡ (
              if offset == i
              then some (s.frame page)
              else if leb config_batch s.batch
              then none
              else staged s i)
      before (inl (k, room)) = ground (arith, k.frame, k.stage_buffer)
      before (inr (c, full)) =
          rw (c.frame, c.stage_buffer, view-commit xa s.stage_buffer i) (ground arith)

  staged-Wrote :
      {page offset : ℕ} {s t : Drive xa.Arr}
      → Reports xa v
      → Sound xa v s
      → Wrote xa v page offset 0 s t
      → Shows page offset s t
  staged-Wrote reports sound (kept ne k) i = absurd (ne refl)
  staged-Wrote reports sound (only_committed ne c) i = absurd (ne refl)
  staged-Wrote {t} reports sound (counted m n from e (inl p)) i = staged-Put m n t sound from e p i
  staged-Wrote reports sound (counted m n from e (inr (k, ne))) i = absurd (ne reports refl)

  -- A write that returns 0 has staged its page; the copies of other pages are still there, unless
  -- the batch was full, in which case the write has committed and there are none.
  pub staged-maruswap_multicast_write :
      (fuel page offset : ℕ) (s : Drive xa.Arr) {t : Drive xa.Arr}
      → Reports xa v
      → Sound xa v s
      → maruswap_multicast_write xa v fuel page offset s ≡ ok 0 t
      → (i : ℕ)
      → staged t i ≡ (
          if offset == i
          then some (s.frame page)
          else if leb config_batch s.batch
          then none
          else staged s i)
  staged-maruswap_multicast_write fuel page offset s {t} reports sound h i =
      staged-Wrote reports sound (maruswap_multicast_write-Wrote xa v fuel page offset s sound h) i

  -- The connection that a read on processor `cpu` takes.
  unfoldable pub serves : (cpu : ℕ) → Drive xa.Arr → Option RdmaCtrl
  serves cpu s =
      if cpu % 2 == 0
      then elim (get_sub s.main_rdma_ctrl s.rdma_ctrl_list) [
        | none ↦ none
        | some sub ↦ find_ctrl sub s.rdma_ctrl_list
      ]
      else find_ctrl s.main_rdma_ctrl s.rdma_ctrl_list

  pub pick_server-serves :
      (cpu : ℕ) (s : Drive xa.Arr) (c : RdmaCtrl)
      → serves cpu s ≡ some c
      → (i : ℕ) × (pick_server xa v cpu s ≡ ok i s) × (find_ctrl i s.rdma_ctrl_list ≡ some c)
  unfolding serves pick_server get_main_rdma_ctrl get_sub_rdma_ctrl
  pick_server-serves cpu s c h = elim (Bool-cases (cpu % 2 == 0)) [
    | inl even ↦ elim (Option-cases (get_sub s.main_rdma_ctrl s.rdma_ctrl_list)) [
      | inl e ↦ ground (arith, h, even, e)
      | inr (sub, e) ↦ (sub, rw (even, e) refl, rw (even, e) at h)
    ]
    | inr odd ↦ (s.main_rdma_ctrl, rw odd refl, rw odd at h)
  ]

  pub deref-found :
      (i : ℕ) (s : Drive xa.Arr) (c : RdmaCtrl)
      → find_ctrl i s.rdma_ctrl_list ≡ some c
      → deref xa v i s ≡ ok c s
  deref-found i s c h = rw (h, deref) refl

  -- A read of a staged page copies the staged content to the page and returns 0, whatever the
  -- processor, as long as it has a connection. It makes no call and changes nothing else.
  pub maruswap_rdma_read-staged :
      (fuel cpu page i content : ℕ) (s : Drive xa.Arr) (c : RdmaCtrl)
      → staged s i ≡ some content
      → serves cpu s ≡ some c
      → maruswap_rdma_read xa v fuel cpu page i s
        ≡ ok 0 (record s { frame = λ p. if p == page then content else s.frame p })
  unfolding maruswap_rdma_read
  maruswap_rdma_read-staged fuel cpu page i content s c there which =
      let (server, picked, found) = pick_server-serves cpu s c which in
      rw (picked, deref-found server s c found, there) refl
