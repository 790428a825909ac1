-- ===== src/Protocol/Place.antt =====
-- Where a page lies in a block, by the driver (drive/sib.c) and by the server (lib/handler.c).
use maruswap.Base.{ℕ, ◌+◌, ◌%◌, ◌^◌, ◌≤◌, ◌<◌, ◌≡◌, ◌≢◌, ◌⊎◌, ◌↔◌, arith, some}
use maruswap.Drive.Header.{get_num_memblock, flow_header, read_offset, max_memblock, page_size}
use maruswap.Server.Header.{Fields, interpret_header, convey_offset}
use maruswap.Server.Memblock.{memblock_size}
use maruswap.Protocol.RoundTrip.{mask10, mask18, interpret-flow_header}

-- The block and the byte offset at which the server stores a multicast page are those at which the
-- driver's RDMA read looks for it, and the whole page lies inside the block.
pub convey-read :
    (offset : ℕ)
    → (f : Fields) × (interpret_header (flow_header offset) ≡ some f)
      × (f.nr_buffer ≡ get_num_memblock offset)
      × (convey_offset f.offset ≡ read_offset offset)
      × (convey_offset f.offset + page_size ≤ memblock_size)
unfolding convey_offset read_offset
convey-read offset =
    (_, (interpret-flow_header offset).0, omega arith, omega arith, omega (arith, mask18 offset))

-- Two page numbers of 28 bits that differ lie in different blocks or in disjoint ranges of one.
pub pages_disjoint :
    (a b : ℕ)
    → a < 2 ^ 28
    → b < 2 ^ 28
    → a ≢ b
    → (get_num_memblock a ≢ get_num_memblock b)
      ⊎ ((read_offset a + page_size ≤ read_offset b) ⊎ (read_offset b + page_size ≤ read_offset a))
unfolding get_num_memblock read_offset
pages_disjoint a b ha hb ne = grind (arith, mask10, mask18)

-- The block number indexes an array of `MAX_MEMBLOCK` entries, in the driver (`rdma_info`) and in
-- the server (`memblocks`). It lies in range exactly for page numbers below 2 ^ 25, modulo 2 ^ 28.
pub get_num_memblock-in_bounds :
    (offset : ℕ) → (get_num_memblock offset < max_memblock) ↔ (offset % 2 ^ 28 < 2 ^ 25)
unfolding get_num_memblock
get_num_memblock-in_bounds offset = (λ h. omega (arith, mask10), λ h. omega (arith, mask10))
