-- ===== src/Server/Alloc.antt =====
-- lib/ib.c: a handler is set up with its buffers, its first block and its receive works.
pub mod Buffers
pub mod Willing
use maruswap.Base.{
  ℕ, zero, suc, ◌+◌, ◌*◌, ◌^◌, Bool, true, false, not, none, some, List, [], ◌∷◌, ◌++◌, ◌==◌,
  replicate, get_or, set, if◌then◌else◌,
}
use maruswap.Base.Run.{ok, Cmd, pure, ◌>>=◌, ◌>>◌, gets, modify, stop, test◌then◌else◌}
use maruswap.Drive.Header.{max_memblock}
use maruswap.Drive.Net.{Wc}
use maruswap.Server.Header.{page_size}
use maruswap.Server.State.{
  Call, Verbs, Memblock, RecvWork, Server, tell, ask, change_work, lock_memblocks, unlock_memblocks,
}
use maruswap.Server.Memblock.{alloc_memblock, set_memblock, memblock_die, add_memblock}

abbrev pub mcm_max_recv_wr : ℕ
mcm_max_recv_wr = 2 ^ 12

abbrev pub rpc_max_each_size : ℕ
rpc_max_each_size = 64

abbrev pub rpc_nr_buffer : ℕ
rpc_nr_buffer = 2 ^ 10

abbrev pub rpc_buffer_size : ℕ
rpc_buffer_size = rpc_max_each_size * rpc_nr_buffer + page_size

abbrev pub ud_extra : ℕ
ud_extra = 40

abbrev pub multicast_nr_buffer : ℕ
multicast_nr_buffer = 2 ^ 18

abbrev pub multicast_buffer_size : ℕ
multicast_buffer_size = (ud_extra + page_size) * multicast_nr_buffer

abbrev pub no_wc : Wc
no_wc = record { success = false; imm_data = 0; wr_id = 0 }

-- the receive work `i` of the connection to the driver
unfoldable pub rpc_work : (base i : ℕ) → RecvWork
rpc_work base i = record {
  id = i;
  size = rpc_max_each_size;
  buffer = base + i * rpc_max_each_size;
  page = 0;
  wc = no_wc;
  convey = false;
}

-- and of the multicast group
unfoldable pub multicast_work : (base i : ℕ) → RecvWork
multicast_work base i = record {
  id = i;
  size = page_size + ud_extra;
  buffer = base + i * (ud_extra + page_size);
  page = 0;
  wc = no_wc;
  convey = false;
}

module _ (v : Verbs) where
  abbrev pub value : Call → Cmd Server ℕ
  value c = ask c (λ log. v.answer log c)

  -- The receive works are allocated and posted. `false` is the jump on an error of the post.
  unfoldable pub post_works : (ℕ → RecvWork) → (qp rounds i : ℕ) → Cmd Server Bool
  post_works work qp zero i = pure true
  post_works work qp (suc n) i = do
    rw ← value Call.malloc
    test rw == 0 then stop else do
      modify (change_work rw (λ _. work i))
      bad ← gets (λ s. v.bad_wr s.log (Call.post_recv qp rw))
      ret ← value (Call.post_recv qp rw)
      test not (ret == 0) then pure false else test bad then stop else post_works work qp n (suc i)

  -- `memblocks[0]`. A failed registration leaves the block without one.
  unfoldable pub first_memblock : Cmd Server (Unit {0})
  first_memblock = do
    lock_memblocks
    allocated ← alloc_memblock v 0
    pd ← gets (λ s. s.pd)
    elim allocated [
      | none ↦ stop
      | some mb ↦ do
        registered ← set_memblock v mb pd
        let block : Memblock = elim registered [ none ↦ mb | some done ↦ done ]
        modify (λ s. record s {
          memblocks = set s.memblocks 0 (some block);
          memblock_list = s.memblock_list ++ (0 ∷ []);
        })
        unlock_memblocks
    ]

  abbrev pub fail : (listener : ℕ) → Cmd Server (Unit {0})
  fail listener = tell (Call.reject listener)

  abbrev fail_buffers : (listener : ℕ) → Cmd Server Bool
  fail_buffers listener = do
    buffer ← gets (λ s. s.rpc_buffer)
    tell (Call.munmap buffer rpc_buffer_size)
    modify (λ s. record s { rpc_buffer = 0 })
    mr ← gets (λ s. s.rpc_mr)
    tell (Call.dereg_mr mr)
    modify (λ s. record s { rpc_mr = 0 })
    fail listener
    pure false

  -- the blocks below `PRE_ALLOC_MEMBLOCK`, of which there is one
  unfoldable pub prealloc : Cmd Server (Unit {0})
  prealloc = do
    lock_memblocks
    first ← gets (λ s. get_or s.memblocks 0 none)
    _ ← elim first [ none ↦ add_memblock v 0 | some mb ↦ pure true ]
    unlock_memblocks

  -- The buffer's check is made twice, and the registration's never.
  unfoldable pub alloc_rpc : (listener : ℕ) → Cmd Server Bool
  unfolding post_works rpc_work prealloc
  alloc_rpc listener = do
    buffer ← value (Call.mmap rpc_buffer_size)
    modify (λ s. record s { rpc_buffer = buffer })
    test buffer == 0 then pure false else do
      pd ← gets (λ s. s.pd)
      mr ← value (Call.reg_mr pd buffer rpc_buffer_size)
      modify (λ s. record s { rpc_mr = mr })
      qp ← gets (λ s. s.qp)
      posted ← post_works (rpc_work buffer) qp mcm_max_recv_wr 0
      test not posted then fail_buffers listener else do prealloc; pure true

  -- The state is the handler's from the start; `id` is the connection's, `listener` is `rcm.rdma`.
  -- A pointer; 0 is the return of NULL. The count of users is not kept.
  unfoldable pub alloc_rdma_memory_handler : (id listener : ℕ) → Cmd Server ℕ
  unfolding first_memblock alloc_rpc
  alloc_rdma_memory_handler id listener = do
    ret ← value (Call.create_qp id)
    test not (ret == 0) then fail listener >> pure 0 else do
      ret ← value (Call.accept id)
      test not (ret == 0) then fail listener >> pure 0 else do
        rmh ← value Call.malloc
        test rmh == 0 then stop else do
          modify (λ s. record s {
            memblocks = replicate max_memblock none;
            memblock_list = [];
            memblock_lock = false;
            batch = 0;
          })
          first_memblock
          built ← alloc_rpc listener
          pure (if built then rmh else 0)

  -- `rounds` blocks from `i` on
  unfoldable pub die_each : (rounds i : ℕ) → Cmd Server (Unit {0})
  unfolding memblock_die
  die_each zero i = pure tt
  die_each (suc n) i = do
    found ← gets (λ s. get_or s.memblocks i none)
    elim found [
      | none ↦ die_each n (suc i)
      | some mb ↦ do
        memblock_die v mb
        modify (λ s. record s { memblocks = set s.memblocks i none })
        die_each n (suc i)
    ]

  unfoldable pub rdma_memory_handler_die : (rmh id channel : ℕ) → Cmd Server (Unit {0})
  unfolding die_each
  rdma_memory_handler_die rmh id channel = do
    die_each max_memblock 0
    mr ← gets (λ s. s.rpc_mr)
    tell (Call.dereg_mr mr)
    test id == 0 then pure tt else tell (Call.destroy_id id)
    test channel == 0 then pure tt else tell (Call.destroy_event_channel channel)
    buffer ← gets (λ s. s.rpc_buffer)
    tell (Call.munmap buffer rpc_buffer_size)
    tell (Call.free rmh)
