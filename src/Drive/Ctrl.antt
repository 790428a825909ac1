-- ===== src/Drive/Ctrl.antt =====
-- drive/sib.c, drive/ib.h: the connections to the servers, and the requests to all of them.
pub mod Keeps
pub mod Cleared
pub mod Opened
use maruswap.Base.{
  ℕ, ◌+◌, ◌%◌, ◌^◌, Bool, true, false, ◌||◌, not, Option, none, some, List, [], ◌∷◌, ◌==◌, ltb,
  if◌then◌else◌, get_or, set, bit_or,
}
use maruswap.Base.Run.{
  ok, fault, out_of_fuel, Cmd, pure, ◌>>=◌, ◌>>◌, gets, modify, stop, test◌then◌else◌,
}
use maruswap.Drive.Header.{
  max_memblock, get_num_memblock, open_opcode, commit_opcode, qcommit_opcode,
}
use maruswap.Drive.Xarray.{Xarray}
use maruswap.Drive.Net.{Qp, RdmaInfo, Verbs, Net}
use maruswap.Drive.Rpc.{ib_rpc}
use maruswap.Drive.Stage.{
  Stage, clear_stage_buffer_addr, stage_buffer_count_reset, stage_buffer_commit,
}

-- `struct rdma_ctrl_t`; a pointer to one is its `id`. Of `buffer` the two parts in use are kept.
pub record RdmaCtrl : Type 0 where
  pub id : ℕ
  pub alive : Bool
  pub qp : Qp
  pub dma_buffer : ℕ
  pub rdma_info : List RdmaInfo
  pub commit : ℕ
  pub req_rdma_info : RdmaInfo

-- `struct ud_package_t`
pub record UdPackage : Type 0 where
  pub ah : ℕ
  pub qp : Qp
  pub remote_qpn : ℕ
  pub remote_qkey : ℕ

-- `struct ctrl_t`, whose `batch` and `stage_buffer` every connection points to, the binders and the
-- calls made, and the contents of page frames.
pub record Drive (Arr : Type 0) : Type 0 where
  pub rdma_ctrl_list : List RdmaCtrl
  pub main_rdma_ctrl : ℕ
  pub batch : ℕ
  pub stage_buffer : Stage Arr
  pub ud_package : UdPackage
  pub frame : ℕ → ℕ
  pub net : Net

abbrev pub no_info : RdmaInfo
no_info = record { remote_addr = 0; rkey = 0 }

abbrev pub find_ctrl : ℕ → List RdmaCtrl → Option RdmaCtrl
find_ctrl i [] = none
find_ctrl i (c ∷ cs) = if c.id == i then some c else find_ctrl i cs

abbrev pub update_ctrl : ℕ → (RdmaCtrl → RdmaCtrl) → List RdmaCtrl → List RdmaCtrl
update_ctrl i f [] = []
update_ctrl i f (c ∷ cs) = if c.id == i then f c ∷ cs else c ∷ update_ctrl i f cs

-- The first connection other than the main one. `none` is NULL, on an empty list, and the
-- list's head taken for a connection, where there is no other.
unfoldable pub get_sub : (main : ℕ) → List RdmaCtrl → Option ℕ
get_sub main [] = none
get_sub main (c ∷ cs) = if c.id == main then get_sub main cs else some c.id

-- Is the block closed at some connection?
unfoldable pub some_closed : (nr_memblock : ℕ) → List RdmaCtrl → Bool
some_closed nr [] = false
some_closed nr (c ∷ cs) = (get_or c.rdma_info nr no_info).rkey == 0 || some_closed nr cs

module _ (xa : Xarray) (v : Verbs) where
  abbrev pub State : Type 0
  State = Drive xa.Arr

  -- A command on the binders and the network leaves all else alone.
  abbrev pub on_net : {A : Type 0} → Cmd Net A → Cmd State A
  on_net m s = elim (m s.net) [
    | ok a n ↦ ok a (record s { net = n })
    | fault ↦ fault
    | out_of_fuel ↦ out_of_fuel
  ]

  unfoldable pub get_main_rdma_ctrl : Cmd State ℕ
  get_main_rdma_ctrl = gets (λ s. s.main_rdma_ctrl)

  unfoldable pub get_sub_rdma_ctrl : Cmd State (Option ℕ)
  unfolding get_sub
  get_sub_rdma_ctrl = gets (λ s. get_sub s.main_rdma_ctrl s.rdma_ctrl_list)

  -- The connection behind a pointer; NULL faults.
  abbrev pub deref : ℕ → Cmd State RdmaCtrl
  deref i s = elim (find_ctrl i s.rdma_ctrl_list) [ none ↦ fault | some c ↦ ok c s ]

  abbrev pub not_null : Option ℕ → Cmd State ℕ
  not_null none s = fault
  not_null (some i) s = ok i s

  abbrev pub change : ℕ → (RdmaCtrl → RdmaCtrl) → Cmd State (Unit {0})
  change i f = modify (λ s. record s { rdma_ctrl_list = update_ctrl i f s.rdma_ctrl_list })

  -- A block number from `MAX_MEMBLOCK` on reads outside the array.
  unfoldable pub check_rdma_info : (nr_memblock : ℕ) → Cmd State Bool
  unfolding some_closed
  check_rdma_info nr =
      test ltb nr max_memblock then gets (λ s. some_closed nr s.rdma_ctrl_list) else stop

  abbrev pub store_info : (moffset : ℕ) → RdmaInfo → RdmaCtrl → RdmaCtrl
  store_info moffset info c = record c {
    rdma_info = set c.rdma_info moffset info;
    req_rdma_info = no_info;
  }

  -- `sizeof(struct rdma_info_t)` is 16.
  unfoldable pub open_request : (fuel i offset : ℕ) → RdmaCtrl → Cmd State ℕ
  open_request fuel i offset c = do
    answer ← on_net (ib_rpc v fuel c.qp (open_opcode offset) c.dma_buffer 16)
    elim answer [
      | none ↦ pure 1
      | some info ↦ change i (store_info (get_num_memblock offset) info) >> pure 0
    ]

  -- A block that is open already is not asked for.
  unfoldable pub ib_rpc_open_unlocked : (fuel i offset : ℕ) → Cmd State ℕ
  unfolding open_request
  ib_rpc_open_unlocked fuel i offset = do
    let moffset = get_num_memblock offset
    c ← deref i
    test not (ltb moffset max_memblock)
        then stop
        else test (get_or c.rdma_info moffset no_info).rkey == 0
        then open_request fuel i offset c
        else pure 0

  -- `ret |= tret` twice: `tret` keeps the first result if the main connection is not alive.
  unfoldable pub ib_rpc_open_all : (fuel offset : ℕ) → Cmd State ℕ
  unfolding get_main_rdma_ctrl get_sub_rdma_ctrl ib_rpc_open_unlocked
  ib_rpc_open_all fuel offset = do
    main ← get_main_rdma_ctrl
    found ← get_sub_rdma_ctrl
    sub ← not_null found
    c ← deref sub
    first ← test c.alive then ib_rpc_open_unlocked fuel sub offset else pure 0
    c ← deref main
    last ← test c.alive then ib_rpc_open_unlocked fuel main offset else pure first
    pure (bit_or first last)

  -- The four bytes of the answer land in `buffer`, the low half of its first word.
  abbrev pub store_commit : RdmaInfo → RdmaCtrl → RdmaCtrl
  store_commit info c = record c { commit = info.remote_addr % 2 ^ 32 }

  -- A request with an empty body; `sizeof(struct rdma_commit_t)` is 4.
  unfoldable pub commit_request : (fuel opcode i : ℕ) → Cmd State ℕ
  commit_request fuel opcode i = do
    c ← deref i
    answer ← on_net (ib_rpc v fuel c.qp opcode c.dma_buffer 4)
    elim answer [ none ↦ pure 1 | some info ↦ change i (store_commit info) >> pure 0 ]

  unfoldable pub ib_rpc_commit_unlocked : (fuel i : ℕ) → Cmd State ℕ
  unfolding commit_request
  ib_rpc_commit_unlocked fuel i = commit_request fuel commit_opcode i

  unfoldable pub ib_rpc_qcommit_unlocked : (fuel i count : ℕ) → Cmd State ℕ
  unfolding commit_request
  ib_rpc_qcommit_unlocked fuel i count = commit_request fuel (qcommit_opcode count) i

  unfoldable pub ib_rpc_commit : (fuel i : ℕ) → Cmd State ℕ
  unfolding ib_rpc_commit_unlocked
  ib_rpc_commit fuel i = do
    ret ← ib_rpc_commit_unlocked fuel i
    modify (λ s. record s { stage_buffer = clear_stage_buffer_addr xa s.stage_buffer })
    pure ret

  unfoldable pub ib_rpc_qcommit : (fuel i count : ℕ) → Cmd State ℕ
  unfolding ib_rpc_qcommit_unlocked
  ib_rpc_qcommit fuel i count = do
    ret ← ib_rpc_qcommit_unlocked fuel i count
    modify (λ s. record s { stage_buffer = clear_stage_buffer_addr xa s.stage_buffer })
    pure ret

  -- `list_for_each_entry`: a request to each connection that is alive, results joined by `|`.
  unfoldable pub request_each : (ℕ → Cmd State ℕ) → List RdmaCtrl → (ret : ℕ) → Cmd State ℕ
  request_each request [] ret = pure ret
  request_each request (c ∷ cs) ret =
      test c.alive
      then (do tret ← request c.id; request_each request cs (bit_or ret tret))
      else request_each request cs ret

  -- What a commit leaves behind, whatever the servers said.
  abbrev pub after_commit : State → State
  after_commit s = record s { batch = 0; stage_buffer = stage_buffer_commit xa s.stage_buffer }

  unfoldable pub commit_all : (ℕ → Cmd State ℕ) → Cmd State ℕ
  unfolding get_main_rdma_ctrl request_each
  commit_all request = do
    all ← gets (λ s. s.rdma_ctrl_list)
    ret ← request_each request all 0
    main ← get_main_rdma_ctrl
    _ ← deref main
    modify after_commit
    pure ret

  unfoldable pub ib_rpc_commit_all : (fuel : ℕ) → Cmd State ℕ
  unfolding commit_all ib_rpc_commit_unlocked
  ib_rpc_commit_all fuel = commit_all (ib_rpc_commit_unlocked fuel)

  unfoldable pub ib_rpc_qcommit_all : (fuel count : ℕ) → Cmd State ℕ
  unfolding commit_all ib_rpc_qcommit_unlocked
  ib_rpc_qcommit_all fuel count = commit_all (λ i. ib_rpc_qcommit_unlocked fuel i count)
