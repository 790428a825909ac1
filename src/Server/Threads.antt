-- ===== src/Server/Threads.antt =====
-- lib/handler.c, lib/ib.c, server/main.c: how the server begins, what it does with the events of its
-- connection, and its threads.
pub mod Made
pub mod Ready
pub mod Accepts
pub mod Refused
use maruswap.Base.{
  ℕ, zero, suc, ◌+◌, Bool, true, false, not, ◌||◌, Option, none, some, List, [], ◌∷◌, ◌++◌, ◌==◌,
  if◌then◌else◌, replicate,
}
use maruswap.Base.Run.{
  Run, ok, fault, out_of_fuel, Cmd, pure, ◌>>=◌, ◌>>◌, gets, modify, stop, test◌then◌else◌,
}
use maruswap.Drive.Net.{Wc}
use maruswap.Drive.Header.{max_memblock}
use maruswap.Server.State.{Call, History, Verbs, RecvWork, Server}
use maruswap.Server.Alloc.{no_wc, alloc_rdma_memory_handler}
use maruswap.Server.Handler.{rdma_round}
use maruswap.Server.Multicast.{multicast_round}
use maruswap.Server.Connect.{
  Conn, init_rdma_connection_manager, init_multicast_connection_manager, ib_rdma_server_connect,
}
use maruswap.Server.Group.{ib_connect_multicast}
use maruswap.Server.Machine.{
  Handler, GroupHandler, Machine, tell, find_handler, put_handler, on_handler,
  alloc_multicast_memory_handler, rdma_connection_die, multicast_connection_die, stop_handlers,
}

abbrev pub event_connect_request : ℕ
event_connect_request = 4

module _ (v : Verbs) where
  -- A handler's state before it is set up, on a new id. What `malloc` leaves is not read.
  unfoldable pub fresh : (id : ℕ) → History → Server
  fresh id log = record {
    qp = v.id_qp id;
    send_cq = v.id_send_cq id;
    pd = v.id_pd id;
    rpc_buffer = 0;
    rpc_mr = 0;
    multicast_qp = 0;
    multicast_send_cq = 0;
    multicast_ah = 0;
    remote_qpn = 0;
    remote_qkey = 0;
    memblocks = [];
    memblock_list = [];
    memblock_lock = false;
    response = record { remote_addr = 0; rkey = 0 };
    batch = 0;
    works = λ p. record { id = 0; size = 0; buffer = 0; page = 0; wc = no_wc; convey = false };
    commit_list = [];
    lock = false;
    memory = λ p. 0;
    log = log;
  }

  -- `list_add_tail` of the handler that was made, and the count of users
  unfoldable pub filed : (id : ℕ) → Machine → Run Server ℕ → Run Machine ℕ
  filed id m (ok rmh s) =
      if rmh == 0
      then ok 0 (record m { log = s.log })
      else ok rmh (record m {
        rdma_memhandler_list =
            m.rdma_memhandler_list
            ++ (record { rmh = rmh; id = id; channel = m.conn.event_channel; mmh = 0; server = s }
                ∷ []);
        conn = record m.conn { nr_user = m.conn.nr_user + 1 };
        log = s.log;
      })
  filed id m fault = fault
  filed id m out_of_fuel = out_of_fuel

  unfoldable pub make_handler : (id : ℕ) → Cmd Machine ℕ
  unfolding fresh filed alloc_rdma_memory_handler
  make_handler id m = filed id m (alloc_rdma_memory_handler v id m.conn.rdma (fresh id m.log))

  -- The handler of the driver gets the address of the group's, which is stored already.
  unfoldable pub link : (mmh rmh : ℕ) → List Handler → List Handler
  link mmh rmh [] = []
  link mmh rmh (h ∷ hs) = if h.rmh == rmh then record h { mmh = mmh } ∷ hs else h ∷ link mmh rmh hs

  -- The handler of the group gets the address of the driver's.
  unfoldable pub link_back : (rmh : ℕ) → Option GroupHandler → Option GroupHandler
  link_back rmh none = none
  link_back rmh (some g) = some (record g { rdma_memory_handler = rmh })

  unfoldable pub set_up_handlers : (rmh mmh : ℕ) → Cmd Machine Bool
  unfolding link link_back
  set_up_handlers rmh mmh = test (rmh == 0) || (mmh == 0) then pure false else do
    modify (λ m. record m { rdma_memhandler_list = link mmh rmh m.rdma_memhandler_list })
    modify (λ m. record m { multicast_memory_handler = link_back rmh m.multicast_memory_handler })
    pure true

  -- what follows the making of both, `NR_RECVER` being 1
  unfoldable pub start_threads : (rmh : ℕ) → GroupHandler → Cmd Machine Bool
  unfolding set_up_handlers
  start_threads rmh g = do
    modify (λ m. record m { multicast_memory_handler = some g })
    linked ← set_up_handlers rmh g.mmh
    test not linked
        then pure false
        else do tell Call.create_thread; tell Call.create_thread; pure true

  unfoldable pub init_handlers : Cmd Machine Bool
  unfolding make_handler on_handler alloc_multicast_memory_handler start_threads
  init_handlers = do
    id ← gets (λ m. v.event_id m.log)
    rmh ← make_handler id
    test rmh == 0 then pure false else do
      mcm ← gets (λ m. m.conn)
      made ← on_handler rmh (alloc_multicast_memory_handler v mcm)
      elim made [ none ↦ pure false | some g ↦ start_threads rmh g ]

  -- The other events are only printed.
  unfoldable pub rdma_event_handler : (event : ℕ) → Cmd Machine (Unit {0})
  unfolding init_handlers stop_handlers
  rdma_event_handler event =
      test event == event_connect_request
      then (do done ← init_handlers; test done then pure tt else stop_handlers v)
      else pure tt

  -- `ib_process_event` with any event expected and `rdma_event_handler`
  unfoldable pub process_event : Cmd Machine Bool
  unfolding rdma_event_handler
  process_event = do
    channel ← gets (λ m. m.conn.event_channel)
    ret ← gets (λ m. v.answer m.log (Call.get_cm_event channel))
    tell (Call.get_cm_event channel)
    test not (ret == 0) then pure false else do
      event ← gets (λ m. v.event m.log)
      rdma_event_handler event
      tell Call.ack_cm_event
      pure true

  unfoldable pub ib_pevent : (fuel : ℕ) → Cmd Machine (Unit {0})
  unfolding process_event
  ib_pevent zero = λ _. out_of_fuel
  ib_pevent (suc n) = do
    alive ← gets (λ m. m.conn.alive)
    test alive then (do came ← process_event; ib_pevent n) else pure tt

  -- A thread's loop: its rounds go on while the library is alive and none says otherwise.
  unfoldable pub rounds : (rmh : ℕ) → Cmd Server Bool → (fuel : ℕ) → Cmd Machine (Unit {0})
  unfolding on_handler
  rounds rmh round zero = λ _. out_of_fuel
  rounds rmh round (suc n) = do
    alive ← gets (λ m. m.conn.alive)
    test alive
        then (do more ← on_handler rmh round; test more then rounds rmh round n else pure tt)
        else pure tt

  -- `other` is what the other thread does while a commit waits.
  unfoldable pub rdma_memory_thread :
      (other : Cmd Server (Unit {0})) → (rmh id polls fuel : ℕ) → Cmd Machine (Unit {0})
  unfolding rounds rdma_round rdma_connection_die
  rdma_memory_thread other rmh id polls fuel = do
    rounds rmh (rdma_round v other (v.id_recv_cq id) polls) fuel
    rdma_connection_die v

  unfoldable pub multicast_memory_thread : (rmh id polls fuel : ℕ) → Cmd Machine (Unit {0})
  unfolding rounds multicast_round multicast_connection_die
  multicast_memory_thread rmh id polls fuel = do
    modify (λ m. record m { conn = record m.conn { realloc = true } })
    rounds rmh (multicast_round v (v.id_recv_cq id) polls) fuel
    multicast_connection_die v

  -- a command on the connections alone
  unfoldable pub settle : {A : Type 0} → Machine → Run Conn A → Run Machine A
  settle m (ok a c) = ok a (record m { conn = c; log = c.log })
  settle m fault = fault
  settle m out_of_fuel = out_of_fuel

  unfoldable pub on_conn : {A : Type 0} → Cmd Conn A → Cmd Machine A
  unfolding settle
  on_conn c m = settle m (c (record m.conn { log = m.log }))

  -- The lists of handlers begin empty.
  unfoldable pub init_server : (server_port multi_ip : ℕ) → Cmd Machine Bool
  unfolding on_conn init_rdma_connection_manager init_multicast_connection_manager
      ib_rdma_server_connect ib_connect_multicast
  init_server server_port multi_ip = do
    on_conn (init_rdma_connection_manager v)
    modify (λ m. record m { rdma_memhandler_list = [] })
    on_conn (init_multicast_connection_manager v)
    listening ← on_conn (ib_rdma_server_connect v server_port)
    test not listening then pure false else on_conn (ib_connect_multicast v multi_ip false)

  unfoldable pub server_process : (fuel : ℕ) → Cmd Machine (Unit {0})
  unfolding ib_pevent
  server_process fuel = ib_pevent fuel
