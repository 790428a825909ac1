-- ===== src/Drive/Start.antt =====
-- drive/sib.c, drive/ib.h: how the module makes its connections.
pub mod Held
pub mod Made
pub mod Sendable
pub mod Loaded
use maruswap.Base.{
  ℕ, ◌*◌, Bool, true, false, not, none, some, List, [], ◌∷◌, ◌==◌, ltb, length, Option,
  if◌then◌else◌,
}
use maruswap.Base.Run.{
  Run, ok, fault, out_of_fuel, Cmd, pure, ◌>>=◌, ◌>>◌, gets, modify, stop, test◌then◌else◌,
}
use maruswap.Drive.Header.{page_size, config_batch}
use maruswap.Drive.Xarray.{Xarray}
use maruswap.Drive.Stage.{Stage, init_stage_buffer}
use maruswap.Drive.Net.{Binder}
use maruswap.Drive.Binder.{init_binder}
use maruswap.Drive.Swap.{einval}
use maruswap.Drive.Connect.{
  Event, Target, connection, group, Call, History, Kernel, Setup, is_err, ib_rdma_cm_handler,
}
use maruswap.Drive.Group.{ib_multicast_cm_handler}
use maruswap.Drive.Wait.{
  Params, inet_addrstrlen, stage_buffer_size, zeroed, find_setup, put_setup, State, value, tell,
  lend, take_back, on_found, on_ctrl, take_back_group, on_group, handle, deliver,
  wait_for_completion, error_of, rdma_ctrl_wait_for_cm, parse_ipaddr, Ib,
}

module _ (xa : Xarray) (k : Kernel) (params : Params) where
  abbrev pub change_group : (Setup → Setup) → Cmd (Ib xa.Arr) (Unit {0})
  change_group f = modify (λ d. record d { multicast_ctrl = f d.multicast_ctrl })

  abbrev pub change_ctrl : (self : ℕ) → (Setup → Setup) → Cmd (Ib xa.Arr) ℕ
  change_ctrl self f = on_ctrl xa k params self (λ s. ok 0 (f s))

  -- `out_parse_ipaddr` and `out_alloc_buffer`
  abbrev pub destroy_and : {A : Type 0} → (rdma : ℕ) → A → Cmd (Ib xa.Arr) A
  destroy_and rdma a = tell xa k params (Call.destroy_id rdma) >> pure a

  -- an early return after a number other than 0, on which the id is destroyed
  abbrev pub unless : (rdma failed : ℕ) → Cmd (Ib xa.Arr) ℕ → (ret : ℕ) → Cmd (Ib xa.Arr) ℕ
  unless rdma failed m ret = test not (ret == 0) then destroy_and rdma failed else m

  unfoldable pub ask_resolve :
      (rdma : ℕ) → (dst : List ℕ) → (port failed : ℕ) → Cmd (Ib xa.Arr) ℕ → Cmd (Ib xa.Arr) ℕ
  ask_resolve rdma dst port failed m = do
    ret ← value xa k params (Call.resolve_addr rdma params.src_ip dst port)
    unless rdma failed m ret

  unfoldable pub parse_src :
      (rdma : ℕ) → (dst : List ℕ) → (port failed : ℕ) → Cmd (Ib xa.Arr) ℕ → Cmd (Ib xa.Arr) ℕ
  unfolding parse_ipaddr ask_resolve
  parse_src rdma dst port failed m = do
    ret ← parse_ipaddr xa k params params.src_ip
    unless rdma failed (ask_resolve rdma dst port failed m) ret

  -- The two addresses and the request to resolve them, and what follows if all is well; else
  -- `failed`.
  unfoldable pub resolve :
      (rdma : ℕ) → (dst : List ℕ) → (port failed : ℕ) → Cmd (Ib xa.Arr) ℕ → Cmd (Ib xa.Arr) ℕ
  unfolding parse_ipaddr parse_src
  resolve rdma dst port failed m = do
    ret ← parse_ipaddr xa k params dst
    unless rdma failed (parse_src rdma dst port failed m) ret

  -- 0 whatever the events were: `cm_error` is not looked at.
  unfoldable pub init_multicast_ctrl : Cmd (Ib xa.Arr) ℕ
  unfolding zeroed resolve wait_for_completion
  init_multicast_ctrl = do
    change_group (λ s. zeroed s.self)
    rdma ← value xa k params Call.create_id
    change_group (λ s. record s { rdma = rdma })
    test is_err rdma
        then pure einval
        else resolve rdma params.multicast_ip 0 einval (wait_for_completion xa k params >> pure 0)

  -- the wait for the connection at `self`, whose error is only printed
  unfoldable pub wait_ctrl : (self : ℕ) → Cmd (Ib xa.Arr) ℕ
  unfolding rdma_ctrl_wait_for_cm
  wait_ctrl self = do ret ← rdma_ctrl_wait_for_cm xa k params self; pure self

  -- the part from the id on
  unfoldable pub resolve_ctrl : (self : ℕ) → (ip : List ℕ) → Cmd (Ib xa.Arr) ℕ
  unfolding on_ctrl resolve wait_ctrl
  resolve_ctrl self ip = do
    rdma ← value xa k params Call.create_id
    ret ← change_ctrl self (λ s. record s { rdma = rdma })
    test is_err self then pure 0 else resolve rdma ip params.serverport 0 (wait_ctrl self)

  -- the part from the buffer on
  unfoldable pub buffer_ctrl : (self : ℕ) → (ip : List ℕ) → Cmd (Ib xa.Arr) ℕ
  unfolding resolve_ctrl on_ctrl
  buffer_ctrl self ip = do
    buffer ← value xa k params (Call.kzalloc page_size)
    ret ← change_ctrl self (λ s. record s { buffer = buffer })
    test buffer == 0 then pure 0 else resolve_ctrl self ip

  -- A pointer; NULL is 0. A connection that fails half-way stays on the list.
  unfoldable pub init_rdma_ctrl : (ip : List ℕ) → (id : ℕ) → Cmd (Ib xa.Arr) ℕ
  unfolding zeroed buffer_ctrl
  init_rdma_ctrl ip id = do
    self ← value xa k params Call.kzalloc_ctrl
    test self == 0 then pure 0 else do
      modify
          (λ d. record d { rdma_ctrl_list = (record (zeroed self) { id = id }) ∷ d.rdma_ctrl_list })
      buffer_ctrl self ip

  unfoldable pub init_ctrl : Ib xa.Arr → Ib xa.Arr
  unfolding zeroed
  init_ctrl d = record d {
    rdma_ctrl_list = [];
    main_rdma_ctrl = 0;
    multicast_ctrl = zeroed d.multicast_ctrl.self;
    nr_rdma_ctrl = 0;
    batch = 0;
    stage_buffer = record {
      buffer = 0;
      slot = λ _. 0;
      index = 0;
      check_list = xa.empty;
      count = 0;
    };
  }

  -- The staging buffer, and the error of the connection that was made last.
  unfoldable pub init_stage : (self : ℕ) → Cmd (Ib xa.Arr) ℕ
  unfolding init_stage_buffer find_setup
  init_stage self = do
    memory ← value xa k params (Call.kzalloc stage_buffer_size)
    (ret, stage) ← gets (λ d. init_stage_buffer xa memory d.stage_buffer)
    modify (λ d. record d { stage_buffer = stage })
    test not (ret == 0)
        then pure einval
        else gets (λ d. error_of xa k params (find_setup self d.rdma_ctrl_list))

  unfoldable pub init_rest : (self : ℕ) → Cmd (Ib xa.Arr) ℕ
  unfolding init_multicast_ctrl init_stage
  init_rest self = do
    ret ← init_multicast_ctrl
    test not (ret == 0) then pure einval else init_stage self

  -- Where a connection is NULL, its `id` is read for the message.
  unfoldable pub init_ib : Cmd (Ib xa.Arr) ℕ
  unfolding init_ctrl init_rdma_ctrl init_rest
  init_ib = do
    modify init_ctrl
    modify (λ d. record d { binders = init_binder d.binders })
    tell xa k params Call.register_client
    main ← init_rdma_ctrl params.fip 0
    test main == 0 then stop else do
      modify (λ d. record d { main_rdma_ctrl = main })
      sub ← init_rdma_ctrl params.sip 1
      test sub == 0 then stop else init_rest sub
