-- ===== src/Server/State.antt =====
-- The state of the server's handlers, include/ib.h, and the calls that lib/ makes of libibverbs,
-- librdmacm and the C library. Those are a parameter: an answer may depend on all calls so far.
use maruswap.Base.{ℕ, ◌==◌, Bool, true, false, Option, List, ◌∷◌, if◌then◌else◌}
use maruswap.Base.Run.{ok, out_of_fuel, Cmd, modify}
use maruswap.Drive.Net.{Wc, Poll}

-- `enum ibv_wr_opcode`, as far as it is used
pub data WrOpcode : Type 0 where
  send_with_imm : WrOpcode
  rdma_write : WrOpcode
  rdma_read : WrOpcode

-- `struct ibv_send_wr` with its one `struct ibv_sge`. A field that the code leaves out is 0.
pub record SendWr : Type 0 where
  pub opcode : WrOpcode
  pub imm_data : ℕ
  pub wr_id : ℕ
  pub addr : ℕ
  pub length : ℕ
  pub lkey : ℕ
  pub signaled : Bool
  pub inline_data : Bool
  pub remote_addr : ℕ
  pub rkey : ℕ
  pub ah : ℕ
  pub remote_qpn : ℕ
  pub remote_qkey : ℕ

-- A call out of the library.
pub data Call : Type 0 where
  malloc : Call
  free : (p : ℕ) → Call
  mmap : (size : ℕ) → Call
  munmap : (p size : ℕ) → Call
  reg_mr : (pd addr size : ℕ) → Call
  dereg_mr : (mr : ℕ) → Call
  post_send : (qp : ℕ) → SendWr → Call
  post_recv : (qp rw : ℕ) → Call
  poll_cq : (cq : ℕ) → Call
  rand : Call
  create_event_channel : Call
  destroy_event_channel : (channel : ℕ) → Call
  create_id : (channel : ℕ) → Call
  destroy_id : (id : ℕ) → Call
  bind_addr : (id : ℕ) → Call
  listen : (id backlog : ℕ) → Call
  getaddrinfo : Call
  resolve_addr : (id timeout_ms : ℕ) → Call
  resolve_route : (id timeout_ms : ℕ) → Call
  create_qp : (id : ℕ) → Call
  destroy_qp : (id : ℕ) → Call
  connect : (id : ℕ) → Call
  accept : (id : ℕ) → Call
  reject : (id : ℕ) → Call
  join_multicast : (id : ℕ) → Call
  create_ah : (id : ℕ) → Call
  get_cm_event : (channel : ℕ) → Call
  ack_cm_event : Call
  create_thread : Call

abbrev pub History : Type 0
History = List Call

pub record Verbs : Type 0 where
  -- the value of a call: a pointer, 0 for NULL, or an int
  pub answer : History → Call → ℕ
  -- whether `ibv_post_send` or `ibv_post_recv` sets `bad_wr`
  pub bad_wr : History → Call → Bool
  pub poll_cq : History → ℕ → Poll
  -- the address of a local `done`
  pub local : History → ℕ
  -- the pointer that `rdma_create_id` writes, which is kept if it fails
  pub new_id : History → ℕ
  -- `event->event` of the event taken, and `param.ud.qp_num` and `param.ud.qkey`
  pub event : History → ℕ
  pub ud_qp_num : History → ℕ
  pub ud_qkey : History → ℕ
  -- `event->id`
  pub event_id : History → ℕ
  -- `id->qp`, `id->send_cq`, `id->recv_cq`, `id->pd`
  pub id_qp : ℕ → ℕ
  pub id_send_cq : ℕ → ℕ
  pub id_recv_cq : ℕ → ℕ
  pub id_pd : ℕ → ℕ
  -- `mr->addr`, `mr->lkey`, `mr->rkey`
  pub mr_addr : ℕ → ℕ
  pub mr_lkey : ℕ → ℕ
  pub mr_rkey : ℕ → ℕ

-- `struct memblock`, at its address
pub record Memblock : Type 0 where
  pub address : ℕ
  pub memblock_id : ℕ
  pub buffer : ℕ
  pub mr : ℕ

-- `struct recv_work`, as far as it is read; `page` is what its buffer holds behind the first `UD_EXTRA` bytes.
pub record RecvWork : Type 0 where
  pub id : ℕ
  pub size : ℕ
  pub buffer : ℕ
  pub page : ℕ
  pub wc : Wc
  pub convey : Bool

-- `struct rdma_open_t`
pub record RdmaOpen : Type 0 where
  pub remote_addr : ℕ
  pub rkey : ℕ

-- A `struct rdma_memory_handler_t` and its `struct multicast_memory_handler_t`, with the memory
-- that their pointers reach: `works` the receive works by address, `memory` the pages by address.
-- A lock is whether it is held.
pub record Server : Type 0 where
  pub qp : ℕ
  pub send_cq : ℕ
  pub pd : ℕ
  pub rpc_buffer : ℕ
  pub rpc_mr : ℕ
  pub multicast_qp : ℕ
  pub multicast_send_cq : ℕ
  pub multicast_ah : ℕ
  pub remote_qpn : ℕ
  pub remote_qkey : ℕ
  pub memblocks : List (Option Memblock)
  pub memblock_list : List ℕ
  pub memblock_lock : Bool
  pub response : RdmaOpen
  pub batch : ℕ
  pub works : ℕ → RecvWork
  pub commit_list : List ℕ
  pub lock : Bool
  pub memory : ℕ → ℕ
  pub log : History

abbrev pub tell : Call → Cmd Server (Unit {0})
tell c s = ok tt (record s { log = c ∷ s.log })

abbrev pub ask : {A : Type 0} → Call → (History → A) → Cmd Server A
ask c f s = ok (f s.log) (record s { log = c ∷ s.log })

abbrev pub change_work : ℕ → (RecvWork → RecvWork) → Server → Server
change_work rw f s = record s { works = λ p. if p == rw then f (s.works p) else s.works p }

-- A lock that is held is waited for without end: no other thread is in the model.
abbrev pub lock_memblocks : Cmd Server (Unit {0})
lock_memblocks s = elim s.memblock_lock [
  | true ↦ out_of_fuel
  | false ↦ ok tt (record s { memblock_lock = true })
]

abbrev pub unlock_memblocks : Cmd Server (Unit {0})
unlock_memblocks = modify (λ s. record s { memblock_lock = false })

abbrev pub lock_commits : Cmd Server (Unit {0})
lock_commits s = elim s.lock [ true ↦ out_of_fuel | false ↦ ok tt (record s { lock = true }) ]

abbrev pub unlock_commits : Cmd Server (Unit {0})
unlock_commits = modify (λ s. record s { lock = false })
