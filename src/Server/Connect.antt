-- ===== src/Server/Connect.antt =====
-- lib/ib.c: the server's and a client's connection, and the multicast group.
pub mod Opened
use maruswap.Base.{
  ℕ, ◌%◌, ◌^◌, Bool, true, false, not, Option, none, some, ◌∷◌, ◌==◌, if◌then◌else◌,
}
use maruswap.Base.Run.{ok, Cmd, pure, ◌>>=◌, ◌>>◌, gets, modify, test◌then◌else◌}
use maruswap.Server.State.{Call, History, Verbs}

abbrev pub max_rdma_user : ℕ
max_rdma_user = 10

abbrev pub mcm_rdma_resolve_timeout_ms : ℕ
mcm_rdma_resolve_timeout_ms = 2000

-- `enum rdma_cm_event_type`, as far as it is used
abbrev pub event_addr_resolved : ℕ
event_addr_resolved = 0

abbrev pub event_route_resolved : ℕ
event_route_resolved = 2

abbrev pub event_established : ℕ
event_established = 9

abbrev pub event_multicast_join : ℕ
event_multicast_join = 12

-- The globals `rcm` (`struct rdma_connection_manager_t`) and `mcm`
-- (`struct multicast_connection_manager_t`), as far as the connections use them.
pub record Conn : Type 0 where
  pub event_channel : ℕ
  pub rdma : ℕ
  pub alive : Bool
  pub nr_user : ℕ
  pub server_ip : ℕ
  pub server_port : ℕ
  pub current_handler : ℕ
  pub multicast_event_channel : ℕ
  pub multicast : ℕ
  pub multicast_ip : ℕ
  pub realloc : Bool
  pub ah : ℕ
  pub remote_qpn : ℕ
  pub remote_qkey : ℕ
  pub log : History

module _ (v : Verbs) where
  abbrev pub value : Call → Cmd Conn ℕ
  value c s = ok (v.answer s.log c) (record s { log = c ∷ s.log })

  abbrev pub tell : Call → Cmd Conn (Unit {0})
  tell c s = ok tt (record s { log = c ∷ s.log })

  -- `none` is an expectation of -1, any event. `false` is the return of false.
  unfoldable pub ib_process_event :
      (channel : ℕ) → (expect : Option ℕ) → (event_handler : Cmd Conn (Unit {0})) → Cmd Conn Bool
  ib_process_event channel expect event_handler = do
    ret ← value (Call.get_cm_event channel)
    test not (ret == 0) then pure false else do
      event ← gets (λ s. v.event s.log)
      test elim expect [ none ↦ false | some e ↦ not (e == event) ]
          then tell Call.ack_cm_event >> pure false
          else (do event_handler; tell Call.ack_cm_event; pure true)

  unfoldable pub process_event_multicast_set : Cmd Conn (Unit {0})
  process_event_multicast_set = do
    id ← gets (λ s. s.multicast)
    qpn ← gets (λ s. v.ud_qp_num s.log)
    qkey ← gets (λ s. v.ud_qkey s.log)
    ah ← value (Call.create_ah id)
    modify (λ s. record s { ah = ah })
    test ah == 0 then pure tt else modify (λ s. record s { remote_qpn = qpn; remote_qkey = qkey })

  unfoldable pub set_current_rdma_handler : (rmh : ℕ) → Cmd Conn (Unit {0})
  set_current_rdma_handler rmh = modify (λ s. record s { current_handler = rmh })

  unfoldable pub set_rdma_connection_manager : (server_ip port : ℕ) → Cmd Conn (Unit {0})
  set_rdma_connection_manager server_ip port =
      modify (λ s. record s { server_ip = server_ip; server_port = port % 2 ^ 16 })

  unfoldable pub set_multicast_connection_manager : (multicast_ip : ℕ) → Cmd Conn (Unit {0})
  set_multicast_connection_manager multicast_ip =
      modify (λ s. record s { multicast_ip = multicast_ip })

  -- The binders are initialised as well.
  unfoldable pub init_rdma_connection_manager : Cmd Conn (Unit {0})
  init_rdma_connection_manager =
      modify (λ s. record s { alive = true; nr_user = 0; event_channel = 0; rdma = 0 })

  unfoldable pub init_multicast_connection_manager : Cmd Conn (Unit {0})
  init_multicast_connection_manager = modify (λ s. record s { realloc = false })

  -- `out_error` of the two connections
  unfoldable pub out_error : Cmd Conn Bool
  out_error = do
    channel ← gets (λ s. s.event_channel)
    tell (Call.destroy_event_channel channel)
    modify (λ s. record s { event_channel = 0 })
    pure false

  unfoldable pub out_error_bind : Cmd Conn Bool
  unfolding out_error
  out_error_bind = do
    id ← gets (λ s. s.rdma)
    tell (Call.destroy_id id)
    modify (λ s. record s { rdma = 0 })
    out_error

  -- It destroys a queue pair on every path, even if none is there yet.
  unfoldable pub out_error_resolve : Cmd Conn Bool
  unfolding out_error_bind
  out_error_resolve = do id ← gets (λ s. s.rdma); tell (Call.destroy_qp id); out_error_bind

  -- `rdma_create_id`, which writes `rcm.rdma`
  unfoldable pub create_id : (channel : ℕ) → Cmd Conn ℕ
  create_id channel = do
    id ← gets (λ s. v.new_id s.log)
    ret ← value (Call.create_id channel)
    modify (λ s. if ret == 0 then record s { rdma = id } else s)
    pure ret

  unfoldable pub listen_on : Cmd Conn Bool
  unfolding out_error_bind
  listen_on = do
    id ← gets (λ s. s.rdma)
    ret ← value (Call.bind_addr id)
    test not (ret == 0) then out_error_bind else do
      ret ← value (Call.listen id max_rdma_user)
      test not (ret == 0) then out_error_bind else pure true

  -- how both connections begin
  unfoldable pub attempt : (rest : Cmd Conn Bool) → Cmd Conn Bool
  unfolding out_error create_id
  attempt rest = do
    channel ← value Call.create_event_channel
    modify (λ s. record s { event_channel = channel })
    test channel == 0
        then pure false
        else do ret ← create_id channel; test not (ret == 0) then out_error else rest

  -- The port goes into the address alone.
  unfoldable pub ib_rdma_server_connect : (port : ℕ) → Cmd Conn Bool
  unfolding attempt listen_on
  ib_rdma_server_connect port = attempt listen_on

  -- a step of the client's connection: the request, and its event
  unfoldable pub resolve_step : Call → (expect : ℕ) → Cmd Conn Bool → Cmd Conn Bool
  unfolding ib_process_event out_error_resolve
  resolve_step request expect rest = do
    ret ← value request
    test not (ret == 0) then out_error_resolve else do
      channel ← gets (λ s. s.event_channel)
      came ← ib_process_event channel (some expect) (pure tt)
      test not came then out_error_resolve else rest

  unfoldable pub client_qp : (id : ℕ) → Cmd Conn Bool
  unfolding resolve_step
  client_qp id = do
    ret ← value (Call.create_qp id)
    test not (ret == 0)
        then out_error_resolve
        else resolve_step (Call.connect id) event_established (pure true)

  unfoldable pub resolve : Cmd Conn Bool
  unfolding resolve_step client_qp
  resolve = do
    id ← gets (λ s. s.rdma)
    resolve_step (Call.resolve_addr id 10) event_addr_resolved
        (resolve_step (Call.resolve_route id 2000) event_route_resolved (client_qp id))

  -- Both arguments go into the address alone.
  unfoldable pub ib_rdma_client_connect : (server_ip server_port : ℕ) → Cmd Conn Bool
  unfolding attempt resolve
  ib_rdma_client_connect server_ip server_port = attempt resolve

  unfoldable pub ib_rdma_server_reconnect : Cmd Conn Bool
  unfolding ib_rdma_server_connect
  ib_rdma_server_reconnect = do port ← gets (λ s. s.server_port); ib_rdma_server_connect port
