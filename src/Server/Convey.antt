-- ===== src/Server/Convey.antt =====
-- lib/handler.c: a page that came by multicast is copied to its memory block.
pub mod Land
use maruswap.Base.{
  ℕ, zero, suc, ◌+◌, ◌*◌, ◌/◌, ◌^◌, Bool, true, false, not, Option, none, some, List, [], ◌∷◌, ◌==◌,
  leb, ltb, bit_and, if◌then◌else◌, erase,
}
use maruswap.Base.Run.{
  ok, fault, out_of_fuel, Cmd, pure, ◌>>=◌, ◌>>◌, gets, modify, stop, test◌then◌else◌,
}
use maruswap.Drive.Net.{Wc, Poll, empty, failed, completed}
use maruswap.Server.Header.{
  page_size, config_batch, rdma_opcode_open, rdma_opcode_close, rdma_opcode_commit,
  rdma_opcode_transition, rdma_opcode_check, rdma_opcode_get, rdma_opcode_qcommit,
  multicast_opcode_flow, multicast_opcode_check, multicast_opcode_commit, multicast_opcode_none,
  Fields, interpret_header, ib_get_opcode, commit_count, convey_offset,
}
use maruswap.Server.State.{
  SendWr, Call, Verbs, Memblock, RecvWork, RdmaOpen, Server, tell, ask, change_work, lock_memblocks,
  unlock_memblocks, lock_commits, unlock_commits,
}
use maruswap.Server.Send.{ib_rdma_send, ib_multicast_send_detail, ib_putback_recv_work}
use maruswap.Server.Memblock.{memblock_at, add_memblock}

module _ (v : Verbs) where
  -- `__ib_convey_page`, the copy of a page
  unfoldable pub copy_page : (page dst : ℕ) → Server → Server
  copy_page page dst s = record s { memory = λ p. if p == dst then page else s.memory p }

  -- The offset is not used.
  unfoldable pub ib_flow : (src dst offset : ℕ) → Cmd Server (Unit {0})
  unfolding copy_page
  ib_flow src dst offset = modify (λ s. copy_page (s.memory src) (dst + 8) s)

  -- The copy to the block, the mark on the receive work, and the count.
  unfoldable pub convey_to : (work offset : ℕ) → Memblock → Cmd Server Bool
  unfolding copy_page
  convey_to work offset mb = do
    page ← gets (λ s. (s.works work).page)
    modify (λ s. copy_page page (mb.buffer + convey_offset offset) s)
    modify (λ s. change_work work (λ w. record w { convey = true }) s)
    modify (λ s. record s { batch = s.batch + 1 })
    pure true

  -- `memblocks[nr_block]` once it is there
  unfoldable pub convey_there : (work nr offset : ℕ) → Cmd Server Bool
  unfolding memblock_at convey_to
  convey_there work nr offset = do
    found ← memblock_at v nr
    elim found [ none ↦ stop | some mb ↦ convey_to work offset mb ]

  unfoldable pub ensure_memblock : (nr : ℕ) → Cmd Server Bool
  unfolding memblock_at add_memblock
  ensure_memblock nr = do
    found ← memblock_at v nr
    elim found [ none ↦ add_memblock v nr | some mb ↦ pure true ]

  unfoldable pub ib_convey_page : Wc → Cmd Server Bool
  unfolding ensure_memblock convey_there
  ib_convey_page wc = elim (interpret_header wc.imm_data) [
    | none ↦ pure false
    | some f ↦ do
      ready ← ensure_memblock f.nr_buffer
      test not ready then pure false else convey_there wc.wr_id f.nr_buffer f.offset
  ]
