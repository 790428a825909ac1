-- ===== src/Server/Multicast/Flow.antt =====
-- lib/handler.c: where a page that the driver sends comes to lie.
use maruswap.Base.{
  ℕ, ◌+◌, ◌<◌, ◌≡◌, refl, true, false, none, some, ◌∷◌, contains, eq→==, get_or, ◌==◌,
  if◌then◌else◌, arith,
}
use maruswap.Base.Run.{ok}
use maruswap.Drive.Header.{max_memblock, get_num_memblock, flow_header, read_offset}
use maruswap.Drive.Net.{Wc}
use maruswap.Protocol.RoundTrip.{interpret-flow_header}
use maruswap.Protocol.Place.{convey-read}
use maruswap.Server.Header.{Fields, interpret_header, ib_get_opcode, convey_offset}
use maruswap.Server.State.{Verbs, Memblock, Server}
use maruswap.Server.Convey.Land.{landed, ib_convey_page-landed}
use maruswap.Server.Handler.Commit.{Counted}
use maruswap.Server.Multicast.{process_multicast_rpc_flow, ib_process_multicast_completion}

module _ (v : Verbs) where
  -- the receive work that has come in, filed and first in the list
  abbrev pub received : Wc → Server → Server
  received wc s = record s {
    works = λ p. if p == wc.wr_id then record (s.works p) { wc = wc } else s.works p;
    commit_list = wc.wr_id ∷ s.commit_list;
  }

  -- The server's state after page number `offset` has come in a receive work, in block `mb`.
  abbrev pub flowed : Wc → (offset : ℕ) → Memblock → Server → Server
  flowed wc offset mb s =
      record (landed v wc.wr_id (mb.buffer + read_offset offset) (received wc s)) { lock = false }

  process_multicast_rpc_flow-flowed :
      (offset : ℕ) (wc : Wc) (s : Server) (mb : Memblock) (f : Fields)
      → interpret_header wc.imm_data ≡ some f
      → f.nr_buffer < max_memblock
      → get_or s.memblocks f.nr_buffer none ≡ some mb
      → convey_offset f.offset ≡ read_offset offset
      → s.lock ≡ false
      → (s.works wc.wr_id).convey ≡ false
      → process_multicast_rpc_flow v wc s ≡ ok tt (flowed wc offset mb s)
  unfolding process_multicast_rpc_flow
  process_multicast_rpc_flow-flowed offset wc s mb f e h there place free new =
      let held : Server = record (received wc s) { lock = true } in
      let moved = ib_convey_page-landed v wc held f mb e h there in
      let same = eq→== wc.wr_id wc.wr_id refl in rw (free, same, new, moved, place) refl

  -- A page that the driver multicasts with number `offset` is dispatched, under a free lock, to a
  -- block that is there and in a receive work that is not marked, to the very byte of the block that the driver's RDMA read of that
  -- number addresses. It is the first of the pages to commit, and counted once.
  pub ib_process_multicast_completion-flowed :
      (fuel offset : ℕ) (wc : Wc) (s : Server) (mb : Memblock)
      → wc.imm_data ≡ flow_header offset
      → get_num_memblock offset < max_memblock
      → get_or s.memblocks (get_num_memblock offset) none ≡ some mb
      → s.lock ≡ false
      → (s.works wc.wr_id).convey ≡ false
      → ib_process_multicast_completion v fuel wc s ≡ ok tt (flowed wc offset mb s)
  unfolding ib_process_multicast_completion
  ib_process_multicast_completion-flowed fuel offset wc s mb imm h there free new =
      let (f, e, block, place, fits) = convey-read offset in
      let opcode : ib_get_opcode wc.imm_data ≡ 0x1 = rw imm (interpret-flow_header offset).1 in
      rw opcode (
        process_multicast_rpc_flow-flowed offset wc s mb f (rw imm e) (rw block h) (rw block there)
          place free new)

  -- A page that comes in keeps the count: `batch` stays the number of pages to commit, all of them
  -- conveyed and none filed twice, if its receive work was not waiting already.
  pub flowed-Counted :
      (wc : Wc) (offset : ℕ) (mb : Memblock) (s : Server)
      → Counted v s
      → contains wc.wr_id s.commit_list ≡ false
      → Counted v (flowed wc offset mb s)
  flowed-Counted wc offset mb s c new = record {
    nodup = (new, c.nodup);
    conveyed = λ p hp. ground (arith, hp, c.conveyed p);
    counted = omega (arith, c.counted);
  }
