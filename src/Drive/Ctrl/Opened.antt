-- ===== src/Drive/Ctrl/Opened.antt =====
-- What an open request to one server leaves in its connection.
use maruswap.Base.{ℕ, ◌≡◌, Option, none, some, get_or}
use maruswap.Base.Run.{Run, ok, fault, out_of_fuel, Cmd, pure, ◌>>◌}
use maruswap.Drive.Header.{get_num_memblock, open_opcode}
use maruswap.Drive.Xarray.{Xarray}
use maruswap.Drive.Net.{RdmaInfo, Verbs, Net}
use maruswap.Drive.Rpc.{ib_rpc}
use maruswap.Drive.Ctrl.{RdmaCtrl, Drive, find_ctrl, no_info, store_info, change}

module _ (xa : Xarray) (v : Verbs) where
  -- A command on the network that returned.
  pub on_net-eq-ok :
      {A : Type 0} (s : Drive xa.Arr) (r : Run Net A) {a : A} {t : Drive xa.Arr}
      → (elim r [
        | ok a n ↦ ok a (record s { net = n })
        | fault ↦ fault
        | out_of_fuel ↦ out_of_fuel
      ])
        ≡ ok a t
      → (n : Net) × (r ≡ ok a n) × (t ≡ record s { net = n })
  on_net-eq-ok s (ok b n) h = (n, cc, cc)
  on_net-eq-ok s fault h = cc
  on_net-eq-ok s out_of_fuel h = cc

  -- A connection that was looked up.
  pub deref-eq-ok :
      (s : Drive xa.Arr) (found : Option RdmaCtrl) {c : RdmaCtrl} {t : Drive xa.Arr}
      → (elim found [ none ↦ fault | some c ↦ ok c s ]) ≡ ok c t
      → (found ≡ some c) × (t ≡ s)
  deref-eq-ok s none h = cc
  deref-eq-ok s (some c) h = (cc, cc)

  -- The server has answered with `info`, and the connection keeps the answer.
  pub record Answered (fuel i offset : ℕ) (c : RdmaCtrl) (s t : Drive xa.Arr) : Type 0 where
    pub info : RdmaInfo
    pub net : Net
    pub asked : ib_rpc v fuel c.qp (open_opcode offset) c.dma_buffer 16 s.net ≡ ok (some info) net
    pub found :
        (k : RdmaCtrl) × (find_ctrl i t.rdma_ctrl_list ≡ some k)
        × (get_or k.rdma_info (get_num_memblock offset) no_info ≡ info)

  -- What an open request does with the answer of `ib_rpc`.
  abbrev keep_answer : (i offset : ℕ) (answer : Option RdmaInfo) → Cmd (Drive xa.Arr) ℕ
  keep_answer i offset none = pure 1
  keep_answer i offset (some info) =
      change xa v i (store_info xa v (get_num_memblock offset) info) >> pure 0
