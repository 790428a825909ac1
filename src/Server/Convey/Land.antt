-- ===== src/Server/Convey/Land.antt =====
-- Where a conveyed page lands, and what conveying it leaves alone.
use maruswap.Base.{ℕ, ◌+◌, ◌<◌, ◌≡◌, refl, true, none, some, lt→ltb, get_or, ◌==◌, if◌then◌else◌}
use maruswap.Base.Run.{ok}
use maruswap.Drive.Header.{max_memblock}
use maruswap.Drive.Net.{Wc}
use maruswap.Server.Header.{Fields, interpret_header, convey_offset}
use maruswap.Server.State.{Verbs, Memblock, Server}
use maruswap.Server.Memblock.{memblock_at}
use maruswap.Server.Convey.{copy_page, convey_to, convey_there, ensure_memblock, ib_convey_page}

module _ (v : Verbs) where
  pub memblock_at-there :
      (nr : ℕ) (s : Server) (mb : Memblock)
      → nr < max_memblock
      → get_or s.memblocks nr none ≡ some mb
      → memblock_at v nr s ≡ ok (some mb) s
  unfolding memblock_at
  memblock_at-there nr s mb h there = rw (lt→ltb nr max_memblock h, there)

  -- the state after a page's copy to address `dst`
  abbrev pub landed : (work dst : ℕ) → Server → Server
  landed work dst s = record s {
    memory = λ p. if p == dst then (s.works work).page else s.memory p;
    works = λ p. if p == work then record (s.works p) { convey = true } else s.works p;
    batch = s.batch + 1;
  }

  convey_there-there :
      (work nr offset : ℕ) (s : Server) (mb : Memblock)
      → nr < max_memblock
      → get_or s.memblocks nr none ≡ some mb
      → convey_there v work nr offset s ≡ ok true (landed work (mb.buffer + convey_offset offset) s)
  unfolding convey_there convey_to copy_page
  convey_there-there work nr offset s mb h there = rw (memblock_at-there nr s mb h there) refl

  pub ensure_memblock-there :
      (nr : ℕ) (s : Server) (mb : Memblock)
      → nr < max_memblock
      → get_or s.memblocks nr none ≡ some mb
      → ensure_memblock v nr s ≡ ok true s
  unfolding ensure_memblock
  ensure_memblock-there nr s mb h there = rw (memblock_at-there nr s mb h there) refl

  -- A page whose header names a block that is there is copied into it, marked and counted.
  pub ib_convey_page-landed :
      (wc : Wc) (s : Server) (f : Fields) (mb : Memblock)
      → interpret_header wc.imm_data ≡ some f
      → f.nr_buffer < max_memblock
      → get_or s.memblocks f.nr_buffer none ≡ some mb
      → ib_convey_page v wc s ≡ ok true (landed wc.wr_id (mb.buffer + convey_offset f.offset) s)
  unfolding ib_convey_page convey_offset
  ib_convey_page-landed wc s f mb e h there =
      rw (ib_convey_page, e, ensure_memblock-there f.nr_buffer s mb h there)
        (convey_there-there wc.wr_id f.nr_buffer f.offset s mb h there)
