-- ===== src/Server/Machine.antt =====
-- lib/ib.c: the library's handlers together, how one for the group is made, and how all are taken
-- down.
pub mod Twice
use maruswap.Base.{
  ℕ, Bool, true, false, not, Option, none, some, List, [], ◌∷◌, ◌++◌, ◌==◌, if◌then◌else◌,
}
use maruswap.Base.Run.{
  Run, ok, fault, out_of_fuel, Cmd, pure, ◌>>=◌, ◌>>◌, gets, modify, stop, test◌then◌else◌,
}
use maruswap.Drive.Net.{Wc}
use maruswap.Server.Header.{page_size}
use maruswap.Server.State.{Call, History, Verbs, RecvWork, Server}
use maruswap.Server.State
use maruswap.Server.Alloc.{
  post_works, multicast_work, mcm_max_recv_wr, multicast_buffer_size, rdma_memory_handler_die,
}
use maruswap.Server.Connect.{Conn}

-- `struct rdma_memory_handler_t` on the list of `rcm`: its address, `rdma`, `event_channel`, the
-- address of its group handler, and the state of both.
pub record Handler : Type 0 where
  pub rmh : ℕ
  pub id : ℕ
  pub channel : ℕ
  pub mmh : ℕ
  pub server : Server

-- `struct multicast_memory_handler_t`, as far as only its end uses it, and the address of the
-- driver's handler, which is 0 until it is set: what `malloc` leaves there is not read.
pub record GroupHandler : Type 0 where
  pub mmh : ℕ
  pub rdma_memory_handler : ℕ
  pub multicast : ℕ
  pub channel : ℕ
  pub buffer : ℕ
  pub mr : ℕ

-- `rcm` and `mcm` with what they point to, and the calls made. The `log` of the connections and of
-- a handler is this one, which they are lent.
pub record Machine : Type 0 where
  pub conn : Conn
  pub rdma_memhandler_list : List Handler
  pub multicast_memory_handler : Option GroupHandler
  pub log : History

abbrev pub tell : Call → Cmd Machine (Unit {0})
tell c m = ok tt (record m { log = c ∷ m.log })

unfoldable pub find_handler : (rmh : ℕ) → List Handler → Option Handler
find_handler rmh [] = none
find_handler rmh (h ∷ hs) = if h.rmh == rmh then some h else find_handler rmh hs

unfoldable pub put_handler : (rmh : ℕ) → Handler → List Handler → List Handler
put_handler rmh h [] = []
put_handler rmh h (x ∷ xs) = if x.rmh == rmh then h ∷ xs else x ∷ put_handler rmh h xs

-- A command on the state of one handler.
abbrev pub lend : Handler → Machine → Server
lend h m = record h.server { log = m.log }

unfoldable pub take_back : {A : Type 0} → Handler → Machine → Run Server A → Run Machine A
unfolding put_handler
take_back h m (ok a s) = ok a (record m {
  rdma_memhandler_list = put_handler h.rmh (record h { server = s }) m.rdma_memhandler_list;
  log = s.log;
})
take_back h m fault = fault
take_back h m out_of_fuel = out_of_fuel

-- a handler that has been freed faults
unfoldable pub on_found : {A : Type 0} → Cmd Server A → Machine → Option Handler → Run Machine A
unfolding take_back
on_found c m none = fault
on_found c m (some h) = take_back h m (c (lend h m))

unfoldable pub on_handler : {A : Type 0} → (rmh : ℕ) → Cmd Server A → Cmd Machine A
unfolding on_found find_handler
on_handler rmh c m = on_found c m (find_handler rmh m.rdma_memhandler_list)

module _ (v : Verbs) where
  abbrev value : Call → Cmd Server ℕ
  value c = State.ask c (λ log. v.answer log c)

  -- `out_error_mr`. The registration is kept.
  unfoldable pub out_error_mr : (buffer : ℕ) → Cmd Server (Option GroupHandler)
  out_error_mr buffer = do State.tell (Call.munmap buffer multicast_buffer_size); pure none

  -- what the post of the receive works leads to
  unfoldable pub built_group :
      (mcm : Conn) → (mmh buffer mr : ℕ) → (posted : Bool) → Cmd Server (Option GroupHandler)
  unfolding out_error_mr
  built_group mcm mmh buffer mr true = pure (
      some (record {
        mmh = mmh;
        rdma_memory_handler = 0;
        multicast = mcm.multicast;
        channel = mcm.multicast_event_channel;
        buffer = buffer;
        mr = mr;
      }))
  built_group mcm mmh buffer mr false = out_error_mr buffer

  unfoldable pub post_group : (mcm : Conn) → (mmh buffer mr : ℕ) → Cmd Server (Option GroupHandler)
  unfolding post_works multicast_work built_group
  post_group mcm mmh buffer mr = do
    posted ← post_works v (multicast_work buffer) (v.id_qp mcm.multicast) mcm_max_recv_wr 0
    built_group mcm mmh buffer mr posted

  -- The second buffer and its registration are kept nowhere but in the handler, and on an error
  -- nowhere at all.
  unfoldable pub register_group : (mcm : Conn) → (mmh buffer : ℕ) → Cmd Server (Option GroupHandler)
  unfolding post_group out_error_mr
  register_group mcm mmh buffer = do
    let pd = v.id_pd mcm.multicast
    mr ← value (Call.reg_mr pd buffer multicast_buffer_size)
    test mr == 0 then out_error_mr buffer else do
      rpc_buffer ← value (Call.mmap page_size)
      test rpc_buffer == 0 then pure none else do
        rpc_mr ← value (Call.reg_mr pd rpc_buffer page_size)
        test rpc_mr == 0 then pure none else post_group mcm mmh buffer mr

  -- `none` is the return of NULL.
  unfoldable pub alloc_multicast_memory_handler : (mcm : Conn) → Cmd Server (Option GroupHandler)
  unfolding register_group
  alloc_multicast_memory_handler mcm = do
    mmh ← value Call.malloc
    test mmh == 0 then stop else do
      modify (λ s. record s {
        multicast_qp = v.id_qp mcm.multicast;
        multicast_send_cq = v.id_send_cq mcm.multicast;
        multicast_ah = mcm.ah;
        remote_qpn = mcm.remote_qpn;
        remote_qkey = mcm.remote_qkey;
        commit_list = [];
        lock = false;
      })
      buffer ← value (Call.mmap multicast_buffer_size)
      test buffer == 0 then pure none else register_group mcm mmh buffer

  unfoldable pub release_if : (p : ℕ) → Call → Cmd Machine (Unit {0})
  release_if p c = test p == 0 then pure tt else tell c

  unfoldable pub multicast_memory_handler_die : GroupHandler → Cmd Machine (Unit {0})
  unfolding release_if
  multicast_memory_handler_die g = do
    release_if g.mr (Call.dereg_mr g.mr)
    release_if g.buffer (Call.munmap g.buffer multicast_buffer_size)
    release_if g.multicast (Call.destroy_id g.multicast)
    release_if g.channel (Call.destroy_event_channel g.channel)
    tell (Call.free g.mmh)

  -- The handler of the group is read even if there is none.
  unfoldable pub multicast_connection_die : Cmd Machine (Unit {0})
  unfolding multicast_memory_handler_die
  multicast_connection_die = do
    conn ← gets (λ m. m.conn)
    tell (Call.destroy_event_channel conn.multicast_event_channel)
    tell (Call.destroy_id conn.multicast)
    modify (λ m. record m {
      conn = record conn { multicast_event_channel = 0; multicast = 0; alive = false };
    })
    last ← gets (λ m. m.multicast_memory_handler)
    elim last [ none ↦ stop | some g ↦ multicast_memory_handler_die g ]

  -- the log that a handler leaves, which is freed with its state
  unfoldable pub freed : Machine → Run Server (Unit {0}) → Run Machine (Unit {0})
  freed m (ok a s) = ok a (record m { log = s.log })
  freed m fault = fault
  freed m out_of_fuel = out_of_fuel

  unfoldable pub handlers_die : List Handler → Cmd Machine (Unit {0})
  unfolding freed rdma_memory_handler_die
  handlers_die [] = pure tt
  handlers_die (h ∷ hs) = do
    modify (λ m. record m { rdma_memhandler_list = hs })
    λ m. freed m (rdma_memory_handler_die v h.rmh h.id h.channel (lend h m))
    handlers_die hs

  unfoldable pub rdma_connection_die : Cmd Machine (Unit {0})
  unfolding handlers_die release_if
  rdma_connection_die = do
    handlers ← gets (λ m. m.rdma_memhandler_list)
    handlers_die handlers
    conn ← gets (λ m. m.conn)
    release_if conn.rdma (Call.destroy_id conn.rdma)
    release_if conn.event_channel (Call.destroy_event_channel conn.event_channel)
    modify (λ m. record m { conn = record conn { event_channel = 0; rdma = 0; alive = false } })

  unfoldable pub stop_handlers : Cmd Machine (Unit {0})
  unfolding rdma_connection_die multicast_connection_die
  stop_handlers = rdma_connection_die >> multicast_connection_die
