-- ===== src/Server/Group.antt =====
-- lib/ib.c and client/main.c: the library's connection to the multicast group, and a client's start.
pub mod Joined
use maruswap.Base.{ℕ, Bool, true, false, not, some, ◌∷◌, ◌==◌, if◌then◌else◌}
use maruswap.Base.Run.{ok, Cmd, pure, ◌>>=◌, ◌>>◌, gets, modify, test◌then◌else◌}
use maruswap.Server.State.{Call, Verbs}
use maruswap.Server.Connect.{
  Conn, value, tell, init_rdma_connection_manager, init_multicast_connection_manager,
  ib_rdma_client_connect, ib_process_event, process_event_multicast_set, event_addr_resolved,
  event_multicast_join, mcm_rdma_resolve_timeout_ms,
}

module _ (v : Verbs) where
  -- The pointers of `mcm` are kept.
  unfoldable pub out_error : Cmd Conn Bool
  out_error = do
    id ← gets (λ s. s.multicast)
    tell v (Call.destroy_id id)
    channel ← gets (λ s. s.multicast_event_channel)
    tell v (Call.destroy_event_channel channel)
    pure false

  -- a call that is to return 0
  unfoldable pub try : Call → Cmd Conn Bool → Cmd Conn Bool
  unfolding out_error
  try c rest = do ret ← value v c; test not (ret == 0) then out_error else rest

  -- an event that is to come
  unfoldable pub await : (expect : ℕ) → Cmd Conn (Unit {0}) → Cmd Conn Bool → Cmd Conn Bool
  unfolding ib_process_event out_error
  await expect event_handler rest = do
    channel ← gets (λ s. s.multicast_event_channel)
    came ← ib_process_event v channel (some expect) event_handler
    test not came then out_error else rest

  -- from the queue pair on
  unfoldable pub join : (id : ℕ) → Cmd Conn Bool
  unfolding try await process_event_multicast_set
  join id = try (Call.create_qp id) (
      try (Call.join_multicast id)
        (await event_multicast_join (process_event_multicast_set v) (pure true)))

  -- A client resolves the group's address, and a server binds its own.
  unfoldable pub reach : (client : Bool) → (id : ℕ) → Cmd Conn Bool
  unfolding try await join
  reach client id =
      test client
      then try (Call.resolve_addr id mcm_rdma_resolve_timeout_ms)
          (await event_addr_resolved (pure tt) (join id))
      else try Call.getaddrinfo (try (Call.bind_addr id) (join id))

  -- `rdma_create_id`, which writes `mcm.multicast`, and what follows
  unfoldable pub open_group : (client : Bool) → (channel : ℕ) → Cmd Conn Bool
  unfolding out_error try reach
  open_group client channel = do
    id ← gets (λ s. v.new_id s.log)
    ret ← value v (Call.create_id channel)
    test not (ret == 0)
        then out_error
        else do modify (λ s. record s { multicast = id }); try Call.getaddrinfo (reach client id)

  -- The group's address goes into the address of the calls alone.
  unfoldable pub ib_connect_multicast : (multicast_ip : ℕ) → (client : Bool) → Cmd Conn Bool
  unfolding open_group
  ib_connect_multicast multicast_ip client = do
    channel ← value v Call.create_event_channel
    modify (λ s. record s { multicast_event_channel = channel })
    test channel == 0 then pure false else open_group client channel

  unfoldable pub init_client : (server_ip server_port : ℕ) → Cmd Conn Bool
  unfolding init_rdma_connection_manager ib_rdma_client_connect
  init_client server_ip server_port = do
    init_rdma_connection_manager v
    ib_rdma_client_connect v server_ip server_port

  unfoldable pub init_multicast : (multi_ip : ℕ) → Cmd Conn Bool
  unfolding init_multicast_connection_manager ib_connect_multicast
  init_multicast multi_ip = do
    init_multicast_connection_manager v
    ib_connect_multicast multi_ip true
