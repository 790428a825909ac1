-- ===== src/Drive/Wait.antt =====
-- drive/sib.c, drive/ib.h: the module's connections together, and how it waits for one of them.
use maruswap.Base.{
  ℕ, ◌*◌, false, none, some, List, [], ◌∷◌, ◌==◌, ltb, length, Option, if◌then◌else◌,
}
use maruswap.Base.Run.{Run, ok, fault, out_of_fuel, Cmd, pure, ◌>>=◌, ◌>>◌, gets, test◌then◌else◌}
use maruswap.Drive.Header.{page_size, config_batch}
use maruswap.Drive.Xarray.{Xarray}
use maruswap.Drive.Stage.{Stage}
use maruswap.Drive.Net.{Binder}
use maruswap.Drive.Swap.{einval}
use maruswap.Drive.Connect.{
  Event, Target, connection, group, Call, History, Kernel, Setup, ib_rdma_cm_handler,
}
use maruswap.Drive.Group.{ib_multicast_cm_handler}

-- the module's parameters
pub record Params : Type 0 where
  pub multicast_ip : List ℕ
  pub src_ip : List ℕ
  pub fip : List ℕ
  pub sip : List ℕ
  pub serverport : ℕ

-- `struct ctrl_t ctrl`, the binders, and the calls made. A connection's own `nr_rdma_ctrl` and `log`
-- are these two, which it is lent while a command runs on it.
pub record Ib (Arr : Type 0) : Type 0 where
  pub rdma_ctrl_list : List Setup
  pub main_rdma_ctrl : ℕ
  pub multicast_ctrl : Setup
  pub nr_rdma_ctrl : ℕ
  pub batch : ℕ
  pub stage_buffer : Stage Arr
  pub binders : List Binder
  pub log : History

abbrev pub inet_addrstrlen : ℕ
inet_addrstrlen = 16

abbrev pub stage_buffer_size : ℕ
stage_buffer_size = config_batch * page_size

-- as `kzalloc` and `memset` leave it
unfoldable pub zeroed : (self : ℕ) → Setup
zeroed self = record {
  self = self;
  id = 0;
  rdma = 0;
  pd = 0;
  mr = 0;
  snd_cq = 0;
  rcv_cq = 0;
  qp = 0;
  buffer = 0;
  dma_buffer = 0;
  rcv_buffer = 0;
  recv_works = [];
  alive = false;
  nr_rdma_ctrl = 0;
  cm_error = 0;
  ud_package = none;
  log = [];
}

-- The connection at an address, and the list with another in its place.
unfoldable pub find_setup : (self : ℕ) → List Setup → Option Setup
find_setup self [] = none
find_setup self (c ∷ cs) = if c.self == self then some c else find_setup self cs

unfoldable pub put_setup : (self : ℕ) → Setup → List Setup → List Setup
put_setup self s [] = []
put_setup self s (c ∷ cs) = if c.self == self then s ∷ cs else c ∷ put_setup self s cs

module _ (xa : Xarray) (k : Kernel) (params : Params) where
  abbrev pub State : Type 0
  State = Ib xa.Arr

  abbrev pub value : Call → Cmd State ℕ
  value c d = ok (k.answer d.log c) (record d { log = c ∷ d.log })

  abbrev pub tell : Call → Cmd State (Unit {0})
  tell c d = ok tt (record d { log = c ∷ d.log })

  -- A command on one connection; there is no event for one that is not on the list.
  abbrev pub lend : Setup → State → Setup
  lend c d = record c { nr_rdma_ctrl = d.nr_rdma_ctrl; log = d.log }

  unfoldable pub take_back : (self : ℕ) → State → Run Setup ℕ → Run State ℕ
  unfolding put_setup
  take_back self d (ok a c) = ok a (record d {
    rdma_ctrl_list = put_setup self c d.rdma_ctrl_list;
    nr_rdma_ctrl = c.nr_rdma_ctrl;
    log = c.log;
  })
  take_back self d fault = fault
  take_back self d out_of_fuel = out_of_fuel

  unfoldable pub on_found : (self : ℕ) → Cmd Setup ℕ → State → Option Setup → Run State ℕ
  unfolding take_back
  on_found self m d none = ok 0 d
  on_found self m d (some c) = take_back self d (m (lend c d))

  unfoldable pub on_ctrl : (self : ℕ) → Cmd Setup ℕ → Cmd State ℕ
  unfolding find_setup on_found
  on_ctrl self m d = on_found self m d (find_setup self d.rdma_ctrl_list)

  unfoldable pub take_back_group : State → Run Setup ℕ → Run State ℕ
  take_back_group d (ok a c) =
      ok a (record d { multicast_ctrl = c; nr_rdma_ctrl = c.nr_rdma_ctrl; log = c.log })
  take_back_group d fault = fault
  take_back_group d out_of_fuel = out_of_fuel

  unfoldable pub on_group : Cmd Setup ℕ → Cmd State ℕ
  unfolding take_back_group
  on_group m d = take_back_group d (m (lend d.multicast_ctrl d))

  -- the callback of the id that an event belongs to
  unfoldable pub handle : Target → Event → Cmd State ℕ
  unfolding on_ctrl on_group
  handle (connection self) ev = on_ctrl self (ib_rdma_cm_handler k ev)
  handle group ev = on_group (ib_multicast_cm_handler k ev)

  unfoldable pub deliver : List (Target × Event) → Cmd State (Unit {0})
  unfolding handle
  deliver [] = pure tt
  deliver ((target, ev) ∷ rest) = do ret ← handle target ev; deliver rest

  -- Until `complete`, a signal or the timeout: the events of that time are delivered.
  unfoldable pub wait_for_completion : Cmd State (Unit {0})
  unfolding deliver
  wait_for_completion = do
    tell Call.wait_for_completion
    evs ← gets (λ d. k.events d.log)
    deliver evs

  abbrev pub error_of : Option Setup → ℕ
  error_of none = 0
  error_of (some c) = c.cm_error

  unfoldable pub rdma_ctrl_wait_for_cm : (self : ℕ) → Cmd State ℕ
  unfolding wait_for_completion find_setup
  rdma_ctrl_wait_for_cm self = do
    wait_for_completion
    gets (λ d. error_of (find_setup self d.rdma_ctrl_list))

  unfoldable pub parse_ipaddr : (ip : List ℕ) → Cmd State ℕ
  parse_ipaddr ip =
      test ltb inet_addrstrlen (length ip)
      then pure einval
      else do got ← value (Call.in4_pton ip); test got == 0 then pure einval else pure 0
