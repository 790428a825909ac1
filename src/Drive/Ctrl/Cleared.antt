-- ===== src/Drive/Ctrl/Cleared.antt =====
-- drive/sib.c, `ib_rpc_commit_all`: what is left of the staged pages.
use maruswap.Base.{ℕ, ◌≡◌, ap, ◌∙◌, none}
use maruswap.Base.Run.{ok}
use maruswap.Drive.Xarray.{Xarray}
use maruswap.Drive.Net.{Verbs}
use maruswap.Drive.Stage.{Stage}
use maruswap.Drive.Stage.Refine.{view, view-commit, count-commit}
use maruswap.Drive.Ctrl.{Drive, ib_rpc_commit_all}
use maruswap.Drive.Ctrl.Keeps.{ib_rpc_commit_all-Committed}

module _ (xa : Xarray) (v : Verbs) where
  -- What a commit of all connections leaves.
  pub record Cleared (s t : Drive xa.Arr) : Type 0 where
    pub none_staged : (i : ℕ) → view xa t.stage_buffer i ≡ none
    pub none_counted : t.stage_buffer.count ≡ 0
    pub batch : t.batch ≡ 0
    pub frame : t.frame ≡ s.frame
    pub main_rdma_ctrl : t.main_rdma_ctrl ≡ s.main_rdma_ctrl
    pub ud_package : t.ud_package ≡ s.ud_package

  -- After a commit to all servers that returns, whatever the servers said, no page number reads as
  -- staged, and the copies and the pages of the batch are counted from 0 again. The page frames,
  -- the main connection and the group's package are as before.
  pub ib_rpc_commit_all-Cleared :
      (fuel : ℕ) (s : Drive xa.Arr) {r : ℕ} {t : Drive xa.Arr}
      → ib_rpc_commit_all xa v fuel s ≡ ok r t
      → Cleared s t
  ib_rpc_commit_all-Cleared fuel s h =
      let done = ib_rpc_commit_all-Committed xa v fuel s h in
      record {
        none_staged = λ i.
            ap (λ (st : Stage xa.Arr). view xa st i) done.stage_buffer
            ∙ view-commit xa s.stage_buffer i;
        none_counted =
            ap (λ (st : Stage xa.Arr). st.count) done.stage_buffer ∙ count-commit xa s.stage_buffer;
        batch = done.batch;
        frame = done.frame;
        main_rdma_ctrl = done.main_rdma_ctrl;
        ud_package = done.ud_package;
      }
