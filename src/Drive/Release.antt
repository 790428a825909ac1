-- ===== src/Drive/Release.antt =====
-- drive/sib.c: how the module takes its connections down. No event comes meanwhile.
pub mod Traces
pub mod Freed
pub mod Undone
use maruswap.Base.{
  ℕ, ◌≡◌, refl, ap, sym, ◌∙◌, List, [], ◌∷◌, ◌++◌, ◌==◌, Bool-cases, inl, inr, if◌then◌else◌, arith,
}
use maruswap.Base.Run.{ok, Cmd, pure, ◌>>=◌, ◌>>◌, gets, modify, test◌then◌else◌}
use maruswap.Drive.Xarray.{Xarray}
use maruswap.Drive.Stage.{Stage}
use maruswap.Drive.Connect.{Call, History, Setup}
use maruswap.Drive.Wait.{Ib}

module _ (xa : Xarray) where
  abbrev State : Type 0
  State = Ib xa.Arr

  abbrev tell : Call → Cmd State (Unit {0})
  tell c d = ok tt (record d { log = c ∷ d.log })

  -- a call for a pointer that is not NULL
  unfoldable pub release_if : (p : ℕ) → Call → Cmd State (Unit {0})
  release_if p c = test p == 0 then pure tt else tell c

  -- the staging buffer, by the first connection on the list
  unfoldable pub release_stage : Cmd State (Unit {0})
  release_stage = do
    buffer ← gets (λ d. d.stage_buffer.buffer)
    test buffer == 0 then pure tt else do
      tell (Call.kfree buffer)
      modify (λ d. record d {
        stage_buffer = record d.stage_buffer { buffer = 0; check_list = xa.empty };
      })

  unfoldable pub release_ctrl : Setup → Cmd State (Unit {0})
  unfolding release_if release_stage
  release_ctrl c = do
    release_stage
    release_if c.mr (Call.dereg_mr c.mr)
    release_if c.buffer (Call.kfree c.buffer)
    release_if c.qp (Call.destroy_qp c.rdma)
    release_if c.rdma (Call.destroy_id c.rdma)

  -- each connection in turn, which `list_del_init` takes off
  unfoldable pub release_list : List Setup → Cmd State (Unit {0})
  unfolding release_ctrl
  release_list [] = pure tt
  release_list (c ∷ cs) = do
    release_ctrl c
    modify (λ d. record d { rdma_ctrl_list = cs })
    release_list cs

  unfoldable pub release_group : Setup → Cmd State (Unit {0})
  unfolding release_if
  release_group g = do
    tell (Call.leave_multicast g.rdma)
    release_if g.mr (Call.dereg_mr g.mr)
    release_if g.qp (Call.destroy_qp g.rdma)
    release_if g.rdma (Call.destroy_id g.rdma)

  unfoldable pub cleanup_ib : Cmd State (Unit {0})
  unfolding release_list release_group
  cleanup_ib = do
    cs ← gets (λ d. d.rdma_ctrl_list)
    release_list cs
    g ← gets (λ d. d.multicast_ctrl)
    release_group g
    tell Call.unregister_client
