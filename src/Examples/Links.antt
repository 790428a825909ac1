-- ===== src/Examples/Links.antt =====
-- Connections that come up, and one that does not.
use maruswap.Base.{ℕ, ◌≡◌, refl, true, false, [], none}
use maruswap.Base.Run.{Run, ok, fault, out_of_fuel}
use maruswap.Drive.Connect.{
  econnreset, Event, established, failed, Kernel, Setup, nr_recv, ib_rdma_cm_handler, on_event,
  rdma_connect_established, alive_now, post_works, recv_work, get_req_for_buf, is_err,
}
use maruswap.Drive.Connect.Events.{Established, rdma_connect_established-alive}
use maruswap.Drive.Connect
use maruswap.Server.Connect.{Conn}

abbrev unconnected : Conn
unconnected = record {
  event_channel = 0;
  rdma = 0;
  alive = true;
  nr_user = 0;
  server_ip = 0;
  server_port = 50000;
  current_handler = 0;
  multicast_event_channel = 0;
  multicast = 0;
  multicast_ip = 0;
  realloc = false;
  ah = 0;
  remote_qpn = 0;
  remote_qkey = 0;
  log = [];
}

-- memory and queue pairs are there, and mappings work
abbrev kernel0 : Kernel
kernel0 = record {
  answer =
      λ log c. elim c [ Connect.Call.kzalloc size ↦ 16 | Connect.Call.kzalloc_work ↦ 16 | _ ↦ 0 ];
  mapping_error = λ dma. false;
  cm_qp = λ log. 1;
  ud_qp_num = λ log. 0;
  ud_qkey = λ log. 0;
  events = λ log. [];
}

abbrev setup0 : Setup
setup0 = record {
  self = 4096;
  id = 0;
  rdma = 8192;
  pd = 1;
  mr = 1;
  snd_cq = 2;
  rcv_cq = 3;
  qp = 1;
  buffer = 4096;
  dma_buffer = 0;
  rcv_buffer = 0;
  recv_works = [];
  alive = false;
  nr_rdma_ctrl = 0;
  cm_error = 0;
  ud_package = none;
  log = [];
}

abbrev setup_of : Run Setup ℕ → Setup
setup_of (ok r t) = t
setup_of fault = setup0
setup_of out_of_fuel = setup0

abbrev setup1 : Setup
setup1 = setup_of (rdma_connect_established kernel0 setup0)

setup1_ok : rdma_connect_established kernel0 setup0 ≡ ok 0 setup1
unfolding rdma_connect_established get_req_for_buf alive_now post_works recv_work
setup1_ok = refl

rdma_connect_established-alive_example : Established kernel0 setup0 setup1 0
rdma_connect_established-alive_example =
    rdma_connect_established-alive kernel0 setup0 {r = 0} {t = setup1} setup1_ok

abbrev setup2 : Setup
setup2 = setup_of (ib_rdma_cm_handler kernel0 failed setup0)

setup2_ok : ib_rdma_cm_handler kernel0 failed setup0 ≡ ok econnreset setup2
unfolding ib_rdma_cm_handler on_event
setup2_ok = refl
