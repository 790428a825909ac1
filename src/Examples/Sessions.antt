-- ===== src/Examples/Sessions.antt =====
-- A library that joins the group, one that takes a driver in and stops, and a client's request.
use maruswap.Base.{ℕ, ◌≡◌, refl, Bool, true, false, none, List, [], ◌∷◌, arith}
use maruswap.Base.Run.{Run, ok, fault, out_of_fuel}
use maruswap.Server.Connect.{Conn}
use maruswap.Server.Machine.{Handler, Machine, rdma_connection_die, stop_handlers}
use maruswap.Server.Machine.Twice.{channels, ids, rdma_connection_die-destroys}
use maruswap.Server.State.{Call, Verbs}
use maruswap.Server.Rpc.{
  Client, Binder, get_binder, await_binder, await_sent, take_work, post_request, client_wr, ib_rpc,
  put_binder, file_binder, set_binder_flags,
}
use maruswap.Server.Rpc
use maruswap.Server.Rpc.GivenBack.{taken, flags_at, ib_rpc-frees}
use maruswap.Server.Threads.{event_connect_request, rdma_event_handler, init_handlers}
use maruswap.Server.Alloc.Willing.{Willing}
use maruswap.Server.Threads.Accepts.{init_handlers-accepts}
use maruswap.Server.Threads.Refused.{rdma_event_handler-init_handlers}
use maruswap.Server.Threads.Ready.{Ready, stop_handlers-init_handlers}
use maruswap.Examples.Servers.{prompt, server0}

abbrev connected : Conn
connected = record {
  event_channel = 20;
  rdma = 21;
  alive = true;
  nr_user = 0;
  server_ip = 0;
  server_port = 50000;
  current_handler = 0;
  multicast_event_channel = 22;
  multicast = 23;
  multicast_ip = 0;
  realloc = false;
  ah = 24;
  remote_qpn = 0;
  remote_qkey = 0;
  log = [];
}

abbrev idle : Machine
idle = record {
  conn = connected;
  rdma_memhandler_list = [];
  multicast_memory_handler = none;
  log = [];
}

prompt-Willing : Willing prompt
prompt-Willing = record {
  malloc = λ log. refl;
  mmap = λ log size. refl;
  reg_mr = λ log pd addr size. refl;
  create_qp = λ log id. refl;
  accept = λ log id. refl;
  post_recv = λ log qp rw. refl;
  bad_wr = λ log qp rw. refl;
}

init_handlers-accepts_example :
    (t : Machine) × (init_handlers prompt idle ≡ ok true t) × Ready idle t
init_handlers-accepts_example = init_handlers-accepts prompt prompt-Willing idle refl

abbrev accepted : Machine
accepted = (init_handlers-accepts prompt prompt-Willing idle refl).0

accepted_ok : init_handlers prompt idle ≡ ok true accepted
accepted_ok = (init_handlers-accepts prompt prompt-Willing idle refl).1

stop_handlers-init_handlers_example :
    (u : Machine) × (stop_handlers prompt accepted ≡ ok tt u)
    × (channels u.log ≡ 22 ∷ 22 ∷ 20 ∷ 20 ∷ channels accepted.log)
    × (rest : List ℕ) × (ids u.log ≡ 23 ∷ 23 ∷ rest)
stop_handlers-init_handlers_example =
    stop_handlers-init_handlers prompt idle {t = accepted} refl accepted_ok (omega arith)
      (omega arith) (omega arith)

-- the handler of that driver, which shares the connection's channel
abbrev handler0 : Handler
handler0 = record { rmh = 16; id = 18; channel = 20; mmh = 16; server = server0 }

abbrev serving : Machine
serving = record idle { rdma_memhandler_list = handler0 ∷ [] }

rdma_connection_die-destroys_example :
    (t : Machine) × (rdma_connection_die prompt serving ≡ ok tt t)
    × (t.rdma_memhandler_list ≡ [])
    × (t.conn ≡ record connected { event_channel = 0; rdma = 0; alive = false })
    × (t.multicast_memory_handler ≡ none)
    × (channels t.log ≡ 20 ∷ 20 ∷ [])
    × (ids t.log ≡ 21 ∷ 18 ∷ [])
rdma_connection_die-destroys_example = rdma_connection_die-destroys prompt serving

-- no queue pair can be made
abbrev refusing : Verbs
refusing = record prompt { answer = λ log c. elim c [ Call.create_qp id ↦ 1 | _ ↦ 0 ] }

abbrev refused_driver : Machine
refused_driver = record idle { log = Call.reject 21 ∷ Call.create_qp 18 ∷ [] }

refused_driver_ok : init_handlers refusing idle ≡ ok false refused_driver
unfolding init_handlers
refused_driver_ok = refl

rdma_event_handler-init_handlers_example :
    rdma_event_handler refusing event_connect_request idle ≡ fault
rdma_event_handler-init_handlers_example =
    rdma_event_handler-init_handlers refusing idle {t = refused_driver} refl refused_driver_ok

-- a client of the library whose first binder is taken by a request for a page
abbrev client0 : Client
client0 = record { binders = Rpc.free ∷ Rpc.free ∷ []; log = [] }

abbrev client_of : Run Client Bool → Client
client_of (ok r t) = t
client_of fault = client0
client_of out_of_fuel = client0

abbrev client1 : Client
client1 = client_of (ib_rpc prompt 3 1 2 3 0x10000000 4096 64 16 client0)

client1_ok : ib_rpc prompt 3 1 2 3 0x10000000 4096 64 16 client0 ≡ ok true client1
unfolding ib_rpc get_binder await_binder await_sent take_work post_request client_wr put_binder
    file_binder set_binder_flags
client1_ok = refl

ib_rpc-frees_example :
    (binder : ℕ) × (m : Client) × (get_binder prompt 3 client0 ≡ ok binder m)
    × (flags_at client0 binder ≡ 0)
    × (m.binders ≡ taken prompt client0.binders binder)
    × (flags_at client1 binder ≡ 0)
ib_rpc-frees_example =
    ib_rpc-frees prompt 3 1 2 3 0x10000000 4096 64 16 client0 {t = client1} client1_ok
