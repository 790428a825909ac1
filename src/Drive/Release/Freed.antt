-- ===== src/Drive/Release/Freed.antt =====
-- What is left when the module has taken its connections down.
use maruswap.Base.{==→eq, ℕ, ◌≡◌, refl, ap, ◌∙◌, List, [], ◌∷◌, ◌==◌, Bool-cases, inl, inr}
use maruswap.Base.Run.{ok}
use maruswap.Drive.Xarray.{Xarray}
use maruswap.Drive.Stage.{Stage}
use maruswap.Drive.Connect.{Call, History, Setup, destroy_id, destroy_qp, kfree, dereg_mr}
use maruswap.Drive.Connect.Quiet.{destroyed}
use maruswap.Drive.Wait.{Ib}
use maruswap.Drive.Release.{
  release_if, release_stage, release_ctrl, release_list, release_group, cleanup_ib,
}
use maruswap.Drive.Release.Traces.{
  returned, present, ids, logged, logged-same, logged-destroy_id, Blind, destroyed-Blind,
  returned-Blind, owned_log, owned_log-same, freed-same,
}

-- a list that is not empty takes the staging buffer with it
abbrev pub Emptied : List Setup → ℕ → ℕ → Type 0
Emptied [] before after = after ≡ before
Emptied (_ ∷ _) before after = after ≡ 0

module _ (xa : Xarray) where
  release_if-logs :
      (p : ℕ) (c : Call) (d : Ib xa.Arr)
      → release_if xa p c d ≡ ok tt (record d { log = logged p c d.log })
  unfolding release_if
  release_if-logs p c d = elim (Bool-cases (p == 0)) [ inl e ↦ rw e refl | inr e ↦ rw e refl ]

  -- What a part of the clean-up did: the buffer that is left, the ids that were destroyed, and
  -- nothing given back.
  record Releases (d : Ib xa.Arr) (more : List ℕ → List ℕ) (t : Ib xa.Arr) : Type 0 where
    pub group : t.multicast_ctrl ≡ d.multicast_ctrl
    pub gone : destroyed t.log ≡ more (destroyed d.log)
    pub kept : returned t.log ≡ returned d.log

  abbrev stage_log : Ib xa.Arr → History
  stage_log d = logged d.stage_buffer.buffer (kfree d.stage_buffer.buffer) d.log

  release_stage-empties :
      (d : Ib xa.Arr)
      → (st : Stage xa.Arr) × (st.buffer ≡ 0)
        × (release_stage xa d ≡ ok tt (record d { stage_buffer = st; log = stage_log d }))
  unfolding release_stage
  release_stage-empties d =
      let p = d.stage_buffer.buffer in
      elim (Bool-cases (p == 0)) [
        | inl e ↦ (d.stage_buffer, ==→eq p 0 e, rw e refl)
        | inr e ↦ (record d.stage_buffer { buffer = 0; check_list = xa.empty }, refl, rw e refl)
      ]

  abbrev ctrl_log : Setup → History → History
  ctrl_log c log =
      logged c.qp (destroy_qp c.rdma)
        (logged c.buffer (kfree c.buffer) (logged c.mr (dereg_mr c.mr) log))

  ctrl_log-same :
      (f : History → List ℕ) (c : Setup) (d : Ib xa.Arr)
      → Blind f
      → f (ctrl_log c (stage_log d)) ≡ f d.log
  unfolding Blind
  ctrl_log-same f c d b =
      logged-same f c.qp _ _ (b _ c.rdma).2
      ∙ freed-same f c.buffer _ b
      ∙ logged-same f c.mr _ _ (b _ c.mr).1
      ∙ freed-same f d.stage_buffer.buffer d.log b

  release_ctrl-Releases :
      (c : Setup) (d : Ib xa.Arr)
      → (t : Ib xa.Arr) × (release_ctrl xa c d ≡ ok tt t)
        × (t.stage_buffer.buffer ≡ 0)
        × Releases d (present c.rdma) t
  unfolding release_ctrl
  release_ctrl-Releases c d =
      let (st, empty, first) = release_stage-empties d in
      let log = ctrl_log c (stage_log d) in
      (
        record d { stage_buffer = st; log = logged c.rdma (destroy_id c.rdma) log },
        rw (first, release_if-logs, release_if-logs, release_if-logs, release_if-logs) refl,
        empty,
        record {
          group = refl;
          gone =
              logged-destroy_id c.rdma log
              ∙ ap (present c.rdma) (ctrl_log-same destroyed c d destroyed-Blind);
          kept =
              logged-same returned c.rdma (destroy_id c.rdma) log refl
              ∙ ctrl_log-same returned c d returned-Blind;
        },
      )

  release_group-Releases :
      (d : Ib xa.Arr)
      → let g = d.multicast_ctrl in
        (t : Ib xa.Arr) × (release_group xa g d ≡ ok tt t)
        × (t.rdma_ctrl_list ≡ d.rdma_ctrl_list)
        × (t.stage_buffer ≡ d.stage_buffer)
        × Releases d (present g.rdma) t
  unfolding release_group
  release_group-Releases d =
      let g = d.multicast_ctrl in
      let left = Call.leave_multicast g.rdma ∷ d.log in
      let log = owned_log g left in
      (
        record d { log = logged g.rdma (destroy_id g.rdma) log },
        rw (release_if-logs, release_if-logs, release_if-logs) refl,
        refl,
        refl,
        record {
          group = refl;
          gone =
              logged-destroy_id g.rdma log
              ∙ ap (present g.rdma) (owned_log-same destroyed g left destroyed-Blind);
          kept =
              logged-same returned g.rdma (destroy_id g.rdma) log refl
              ∙ owned_log-same returned g left returned-Blind;
        },
      )

  release_list-Releases :
      (cs : List Setup) (d : Ib xa.Arr)
      → d.rdma_ctrl_list ≡ cs
      → (t : Ib xa.Arr) × (release_list xa cs d ≡ ok tt t)
        × (t.rdma_ctrl_list ≡ [])
        × Emptied cs d.stage_buffer.buffer t.stage_buffer.buffer
        × Releases d (ids cs) t
  unfolding release_list
  release_list-Releases [] d h =
      (d, refl, h, refl, record { group = refl; gone = refl; kept = refl })
  release_list-Releases (c ∷ cs) d h =
      let (m, first, empty, done) = release_ctrl-Releases c d in
      let (t, rest, none_left, buffer, more) =
        release_list-Releases cs (record m { rdma_ctrl_list = cs }) refl in
      (
        t,
        rw first rest,
        none_left,
        stays_empty cs empty buffer,
        record {
          group = more.group ∙ done.group;
          gone = more.gone ∙ ap (ids cs) done.gone;
          kept = more.kept ∙ done.kept;
        },
      )
    where
      stays_empty : (cs : List Setup) {a b : ℕ} → a ≡ 0 → Emptied cs a b → b ≡ 0
      stays_empty [] p q = q ∙ p
      stays_empty (x ∷ xs) p q = q

  -- The clean-up returns. It destroys the id of each connection on the list, in the list's order,
  -- and then the group's, each once and unless it is NULL, and no other. The list is left empty,
  -- and if it was not, the staging buffer is NULL. No protection domain and no completion queue
  -- is given back.
  pub cleanup_ib-destroys :
      (d : Ib xa.Arr)
      → (t : Ib xa.Arr) × (cleanup_ib xa d ≡ ok tt t)
        × (t.rdma_ctrl_list ≡ [])
        × (destroyed t.log ≡ present d.multicast_ctrl.rdma (ids d.rdma_ctrl_list (destroyed d.log)))
        × Emptied d.rdma_ctrl_list d.stage_buffer.buffer t.stage_buffer.buffer
        × (returned t.log ≡ returned d.log)
  unfolding cleanup_ib
  cleanup_ib-destroys d =
      let (m, first, none_left, buffer, done) = release_list-Releases d.rdma_ctrl_list d refl in
      let (t, rest, list, stage, more) = release_group-Releases m in
      (
        record t { log = Call.unregister_client ∷ t.log },
        rw (first, rest) refl,
        list ∙ none_left,
        more.gone ∙ (λ i. present (done.group i).rdma (done.gone i)),
        rw stage buffer,
        more.kept ∙ done.kept,
      )
