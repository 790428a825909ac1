-- ===== src/Drive/Net.antt =====
-- What drive/sib.c asks of the kernel's RDMA stack, and the part of the driver's memory that an
-- RPC works on. The stack is a parameter: each answer may depend on all calls made so far.
use maruswap.Base.{ℕ, ◌≡◌, refl, ◌⊎◌, inl, inr, Bool, List, ◌∷◌}
use maruswap.Base.Run.{ok, Cmd}

-- `enum ib_wr_opcode`, as far as it is used
pub data WrOpcode : Type 0 where
  send_with_imm : WrOpcode
  rdma_read : WrOpcode

-- `struct ib_qp`, with the `local_dma_lkey` of its protection domain
pub record Qp : Type 0 where
  pub handle : ℕ
  pub send_cq : ℕ
  pub recv_cq : ℕ
  pub device : ℕ
  pub lkey : ℕ

-- A send work request with its one `struct ib_sge`. A field that the code leaves out is 0.
pub record SendWr : Type 0 where
  pub opcode : WrOpcode
  pub imm_data : ℕ
  pub wr_id : ℕ
  pub addr : ℕ
  pub length : ℕ
  pub lkey : ℕ
  pub remote_addr : ℕ
  pub rkey : ℕ
  pub ah : ℕ
  pub remote_qpn : ℕ
  pub remote_qkey : ℕ

-- `struct ib_wc`, as far as it is read
pub record Wc : Type 0 where
  pub success : Bool
  pub imm_data : ℕ
  pub wr_id : ℕ

-- `nr_completed` of `ib_poll_cq(cq, 1, &wc)`: 0, negative, or 1
pub data Poll : Type 0 where
  empty : Poll
  failed : Poll
  completed : Wc → Poll

-- `struct rdma_info_t`
pub record RdmaInfo : Type 0 where
  pub remote_addr : ℕ
  pub rkey : ℕ

-- A call out of the driver.
pub data Call : Type 0 where
  clock : Call
  post_send : (qp : ℕ) → SendWr → Call
  post_recv : (qp work : ℕ) → Call
  poll_cq : (cq : ℕ) → Call
  map_page : (device page : ℕ) → Call
  sync_page : (device dma : ℕ) → Call
  unmap_page : (device dma : ℕ) → Call

-- The calls made so far, the latest first.
abbrev pub History : Type 0
History = List Call

pub record Verbs : Type 0 where
  -- `ktime_get_ns`
  pub clock : History → ℕ
  -- the address of a local `done`
  pub local : History → ℕ
  -- the value of `ib_post_send`, and whether it sets `bad_wr`
  pub post_send : History → ℕ → SendWr → ℕ
  pub bad_wr : History → ℕ → SendWr → Bool
  pub poll_cq : History → ℕ → Poll
  -- what a receive buffer holds when it is read
  pub received : History → (work : ℕ) → RdmaInfo
  -- `ib_dma_map_page`, and `ib_dma_mapping_error` of its value
  pub map_page : History → (device page : ℕ) → ℕ
  pub mapping_error : (device dma : ℕ) → Bool

-- `struct binder`
pub record Binder : Type 0 where
  pub flags : ℕ
  pub private : ℕ

pub record Net : Type 0 where
  pub binders : List Binder
  pub log : History

-- Make a call, and read its answer.
abbrev pub ask : {A : Type 0} → Call → (History → A) → Cmd Net A
ask c answer s = ok (answer s.log) (record s { log = c ∷ s.log })

abbrev pub tell : Call → Cmd Net (Unit {0})
tell c s = ok tt (record s { log = c ∷ s.log })

pub Poll-cases : (p : Poll) → (p ≡ empty) ⊎ ((p ≡ failed) ⊎ ((wc : Wc) × (p ≡ completed wc)))
Poll-cases empty = inl refl
Poll-cases failed = inr (inl refl)
Poll-cases (completed wc) = inr (inr (wc, refl))
