-- ===== src/Drive/Start/Loaded.antt =====
-- What a module that has been loaded holds.
use maruswap.Base.{ℕ, ◌≡◌, [], ◌∷◌, map}
use maruswap.Base.Run.{Run}
use maruswap.Drive.Xarray.{Xarray}
use maruswap.Drive.Stage.{Stage}
use maruswap.Drive.Connect.{Kernel}
use maruswap.Drive.Connect.Quiet.{created, destroyed}
use maruswap.Drive.Wait.{Params, Ib, find_setup, error_of}
use maruswap.Drive.Start.Held.{tag, Held}

module _ (xa : Xarray) (k : Kernel) (params : Params) where
  -- The group has this id, which is a new one, and the connections are as before.
  abbrev Joins : ℕ → (d t : Ib xa.Arr) → Type 0
  Joins rdma d t =
      (map tag t.rdma_ctrl_list ≡ map tag d.rdma_ctrl_list)
      × (t.multicast_ctrl.rdma ≡ rdma)
      × (t.main_rdma_ctrl ≡ d.main_rdma_ctrl)
      × (created k t.log ≡ rdma ∷ created k d.log)
      × (destroyed t.log ≡ destroyed d.log)

  -- Two connections and a group, each with an id of its own that was made for it.
  pub record Loaded (d t : Ib xa.Arr) : Type 0 where
    pub main_self : ℕ
    pub sub_self : ℕ
    pub main_rdma : ℕ
    pub sub_rdma : ℕ
    pub group_rdma : ℕ
    pub list : map tag t.rdma_ctrl_list ≡ (sub_self, 1, sub_rdma) ∷ (main_self, 0, main_rdma) ∷ []
    pub main : t.main_rdma_ctrl ≡ main_self
    pub group : t.multicast_ctrl.rdma ≡ group_rdma
    pub made : created k t.log ≡ group_rdma ∷ sub_rdma ∷ main_rdma ∷ created k d.log
    pub kept : destroyed t.log ≡ destroyed d.log
    pub sub_error : error_of xa k params (find_setup sub_self t.rdma_ctrl_list) ≡ 0
