-- ===== src/Drive/Connect.antt =====
-- drive/sib.c: the connection to one server, event by event.
pub mod Events
pub mod Quiet
use maruswap.Base.{
  ℕ, zero, suc, ◌+◌, ◌-◌, ◌*◌, ◌/◌, ◌^◌, Bool, true, false, not, ◌||◌, List, [], ◌∷◌, ◌==◌, leb,
  if◌then◌else◌, Option,
}
use maruswap.Base.Run.{ok, Cmd, pure, ◌>>=◌, ◌>>◌, gets, modify, stop, test◌then◌else◌}
use maruswap.Drive.Header.{page_size}
use maruswap.Drive.Swap.{neg, einval, enomem}

abbrev pub econnreset : ℕ
econnreset = neg 104

abbrev pub connection_timeout_ms : ℕ
connection_timeout_ms = 60000

abbrev pub nr_recv : ℕ
nr_recv = 32

abbrev pub rpc_max_each_size : ℕ
rpc_max_each_size = 2 * page_size / nr_recv

-- `IS_ERR`: the last 4095 addresses
unfoldable pub is_err : ℕ → Bool
is_err p = leb (2 ^ 64 - 4095) p

-- `enum rdma_cm_event_type`, as far as the handlers tell its members apart
pub data Event : Type 0 where
  addr_resolved : Event
  route_resolved : Event
  established : Event
  rejected : Event
  -- an error of the address, the route or the connection, or an unreachable peer
  failed : Event
  multicast_join : Event
  multicast_error : Event
  -- disconnected, address change, time-wait exit, device removal, and any other
  other : Event

-- whom an event is for: the connection at an address, or the group
pub data Target : Type 0 where
  connection : (self : ℕ) → Target
  group : Target

-- A call out of the driver.
pub data Call : Type 0 where
  alloc_pd : Call
  dealloc_pd : (pd : ℕ) → Call
  alloc_mr : (pd : ℕ) → Call
  alloc_cq : Call
  free_cq : (cq : ℕ) → Call
  create_qp : (pd send_cq recv_cq : ℕ) → Call
  destroy_qp : (rdma : ℕ) → Call
  -- an address is the text it was parsed from
  resolve_addr : (rdma : ℕ) → (src dst : List ℕ) → (port : ℕ) → Call
  resolve_route : Call
  connect : Call
  join_multicast : (join_state : ℕ) → Call
  create_ah : (pd : ℕ) → Call
  kzalloc : (size : ℕ) → Call
  -- of the size of a `struct recv_work`, a `struct ud_package_t`, or a `struct rdma_ctrl_t`
  kzalloc_work : Call
  kzalloc_ud : Call
  kzalloc_ctrl : Call
  kfree : (p : ℕ) → Call
  map_single : (buffer size : ℕ) → Call
  sync_single : (dma size : ℕ) → Call
  post_recv : (qp work : ℕ) → Call
  create_id : Call
  destroy_id : (rdma : ℕ) → Call
  in4_pton : (ip : List ℕ) → Call
  wait_for_completion : Call
  complete : Call
  dereg_mr : (mr : ℕ) → Call
  leave_multicast : (rdma : ℕ) → Call
  register_client : Call
  unregister_client : Call

abbrev pub History : Type 0
History = List Call

pub record Kernel : Type 0 where
  -- the value of a call: a pointer, an error pointer, or an int
  pub answer : History → Call → ℕ
  pub mapping_error : (dma : ℕ) → Bool
  -- `rdma_ctrl->rdma->qp`
  pub cm_qp : History → ℕ
  -- `param.ud.qp_num`, `param.ud.qkey`
  pub ud_qp_num : History → ℕ
  pub ud_qkey : History → ℕ
  -- the events that come while the module waits, in their order
  pub events : History → List (Target × Event)

-- `struct recv_work`, with the address in its `struct ib_sge`
pub record RecvWork : Type 0 where
  pub id : ℕ
  pub size : ℕ
  pub buffer : ℕ
  pub addr : ℕ

-- `struct ud_package_t`
pub record UdPackage : Type 0 where
  pub ah : ℕ
  pub qp : ℕ
  pub remote_qpn : ℕ
  pub remote_qkey : ℕ

-- `struct rdma_ctrl_t` or `struct multicast_ctrl_t`, as far as the connection sets it, with the
-- receive works it has posted, `ctrl.nr_rdma_ctrl`, and the calls made. `self` is its address, and
-- `rdma` the field of that name, or `multicast`.
pub record Setup : Type 0 where
  pub self : ℕ
  pub id : ℕ
  pub rdma : ℕ
  pub pd : ℕ
  pub mr : ℕ
  pub snd_cq : ℕ
  pub rcv_cq : ℕ
  pub qp : ℕ
  pub buffer : ℕ
  pub dma_buffer : ℕ
  pub rcv_buffer : ℕ
  pub recv_works : List RecvWork
  pub alive : Bool
  pub nr_rdma_ctrl : ℕ
  pub cm_error : ℕ
  pub ud_package : Option UdPackage
  pub log : History

unfoldable pub recv_work : (rcv_buffer dma i : ℕ) → RecvWork
recv_work rcv_buffer dma i = record {
  id = i;
  size = rpc_max_each_size;
  buffer = rcv_buffer + i * rpc_max_each_size;
  addr = dma + i * rpc_max_each_size;
}

module _ (k : Kernel) where
  abbrev pub value : Call → Cmd Setup ℕ
  value c s = ok (k.answer s.log c) (record s { log = c ∷ s.log })

  abbrev pub tell : Call → Cmd Setup (Unit {0})
  tell c s = ok tt (record s { log = c ∷ s.log })

  -- The result, and the DMA address.
  unfoldable pub get_req_for_buf : (buf size : ℕ) → Cmd Setup (ℕ × ℕ)
  get_req_for_buf buf size = do
    dma ← value (Call.map_single buf size)
    test k.mapping_error dma
        then pure (enomem, dma)
        else do tell (Call.sync_single dma size); pure (0, dma)

  -- The value of `rdma_create_qp`; the queue pair is taken over even on an error.
  unfoldable pub rdma_ctrl_create_qp : Cmd Setup ℕ
  rdma_ctrl_create_qp s =
      let c = Call.create_qp s.pd s.snd_cq s.rcv_cq in
      ok (k.answer s.log c) (record s { qp = k.cm_qp (c ∷ s.log); log = c ∷ s.log })

  -- `out_alloc_cq`: a queue that could not be made is an error pointer, which is not NULL.
  unfoldable pub out_alloc_cq : Cmd Setup ℕ
  out_alloc_cq = do
    rcv ← gets (λ s. s.rcv_cq)
    test rcv == 0 then pure tt else tell (Call.free_cq rcv)
    snd ← gets (λ s. s.snd_cq)
    test snd == 0 then pure tt else tell (Call.free_cq snd)
    pure einval

  unfoldable pub out_alloc_qp : Cmd Setup ℕ
  unfolding out_alloc_cq
  out_alloc_qp = do pd ← gets (λ s. s.pd); tell (Call.dealloc_pd pd); out_alloc_cq

  unfoldable pub make_qp : Cmd Setup ℕ
  unfolding rdma_ctrl_create_qp out_alloc_qp
  make_qp = do
    ret ← rdma_ctrl_create_qp
    test not (ret == 0)
        then out_alloc_qp
        else do ret ← value Call.resolve_route; test not (ret == 0) then out_alloc_qp else pure ret

  unfoldable pub make_cqs : Cmd Setup ℕ
  unfolding out_alloc_cq make_qp
  make_cqs = do
    cq ← value Call.alloc_cq
    modify (λ s. record s { snd_cq = cq })
    test is_err cq then out_alloc_cq else do
      cq ← value Call.alloc_cq
      modify (λ s. record s { rcv_cq = cq })
      test is_err cq then out_alloc_cq else make_qp

  unfoldable pub rdma_addr_resolved : Cmd Setup ℕ
  unfolding make_cqs
  rdma_addr_resolved = do
    pd ← value Call.alloc_pd
    modify (λ s. record s { pd = pd })
    test is_err pd then pure einval else do
      mr ← value (Call.alloc_mr pd)
      modify (λ s. record s { mr = mr })
      test is_err mr then pure einval else make_cqs

  unfoldable pub rdma_route_resolved : Cmd Setup ℕ
  rdma_route_resolved = do
    ret ← value Call.connect
    test ret == 0
        then pure ret
        else do rdma ← gets (λ s. s.rdma); tell (Call.destroy_qp rdma); pure einval

  -- the loop over the receive works, with its rounds left and its counter
  unfoldable pub post_works : (dma rounds i : ℕ) → Cmd Setup ℕ
  unfolding recv_work
  post_works dma zero i = pure 0
  post_works dma (suc n) i = do
    rw ← value Call.kzalloc_work
    test rw == 0 then stop else do
      modify (λ s. record s { recv_works = recv_work s.rcv_buffer dma i ∷ s.recv_works })
      qp ← gets (λ s. s.qp)
      ret ← value (Call.post_recv qp rw)
      test not (ret == 0) then pure einval else post_works dma n (suc i)

  unfoldable pub alive_now : (dma : ℕ) → Cmd Setup ℕ
  unfolding post_works
  alive_now dma = do
    ret ← post_works dma nr_recv 0
    test not (ret == 0)
        then pure ret
        else do modify (λ s. record s { nr_rdma_ctrl = s.nr_rdma_ctrl + 1; alive = true }); pure 0

  unfoldable pub rdma_connect_established : Cmd Setup ℕ
  unfolding get_req_for_buf alive_now
  rdma_connect_established = do
    p ← value (Call.kzalloc page_size)
    modify (λ s. record s { rcv_buffer = p })
    test p == 0 then pure 1 else do
      (ret, dma) ← get_req_for_buf p page_size
      test not (ret == 0) then pure ret else do
        buffer ← gets (λ s. s.buffer)
        (ret, own) ← get_req_for_buf buffer page_size
        modify (λ s. record s { dma_buffer = own })
        test not (ret == 0) then pure ret else alive_now dma

  -- what the handler does with an event, and its error
  unfoldable pub on_event : Event → Cmd Setup ℕ
  unfolding rdma_addr_resolved rdma_route_resolved rdma_connect_established
  on_event addr_resolved = rdma_addr_resolved
  on_event route_resolved = rdma_route_resolved
  on_event established = do ret ← rdma_connect_established; tell Call.complete; pure ret
  on_event rejected = pure einval
  on_event failed = pure econnreset
  on_event _ = pure 0

  unfoldable pub ib_rdma_cm_handler : Event → Cmd Setup ℕ
  unfolding on_event
  ib_rdma_cm_handler ev = do
    cm_error ← on_event ev
    test cm_error == 0
        then pure tt
        else do modify (λ s. record s { cm_error = cm_error }); tell Call.complete
    gets (λ s. s.cm_error)
