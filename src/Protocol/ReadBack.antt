-- ===== src/Protocol/ReadBack.antt =====
-- The place that an RDMA read of the driver asks for, and the store of the server.
use maruswap.Base.{
  ℕ, ◌+◌, ◌%◌, ◌^◌, ◌≤◌, ◌<◌, ◌≡◌, refl, sym, ap, ◌∙◌, none, some, get_or, lt→ltb, arith,
}
use maruswap.Drive.Header.{get_num_memblock, read_offset, page_size}
use maruswap.Drive.Xarray.{Xarray}
use maruswap.Drive.Net
use maruswap.Drive.Net.{RdmaInfo}
use maruswap.Drive.Ctrl.{RdmaCtrl, no_info}
use maruswap.Drive.Swap.{read_wr}
use maruswap.Drive.Swap.Remote.{request}
use maruswap.Server.State.{Verbs, Memblock, RdmaOpen, Server}
use maruswap.Server.Memblock.{memblock_size}
use maruswap.Server.Handler.Open.{told}
use maruswap.Server.Store.{view}
use maruswap.Server.Store.Refine.{read_offset-le}

-- the answer to an open request, as the driver keeps it
abbrev pub kept : RdmaOpen → RdmaInfo
kept o = record { remote_addr = o.remote_addr; rkey = o.rkey }

module _ (xa : Xarray) (d : Net.Verbs) (v : Verbs) where
  -- where the request goes
  request_addr :
      (c : RdmaCtrl) (page n : ℕ) (log : Net.History) (mb : Memblock)
      → get_or c.rdma_info (get_num_memblock n) no_info ≡ kept (told v mb)
      → v.mr_addr mb.mr ≡ mb.buffer
      → mb.buffer + memblock_size ≤ 2 ^ 64
      → (request xa d c page n log).remote_addr ≡ mb.buffer + read_offset n
  unfolding read_wr
  request_addr c page n log mb open_block registered fits =
      ap (λ (info : RdmaInfo). (info.remote_addr + read_offset n) % 2 ^ 64) open_block
      ∙ ap (λ a. (a + read_offset n) % 2 ^ 64) registered
      ∙ omega (arith, read_offset-le n)

  -- what lies there, and is asked for
  pub request-view :
      (c : RdmaCtrl) (page n : ℕ) (log : Net.History) (mb : Memblock)
      → get_or c.rdma_info (get_num_memblock n) no_info ≡ kept (told v mb)
      → v.mr_addr mb.mr ≡ mb.buffer
      → mb.buffer + memblock_size ≤ 2 ^ 64
      → n < 2 ^ 25
      → (t : Server) → get_or t.memblocks (get_num_memblock n) none ≡ some mb
      → let wr = request xa d c page n log in
        (some (t.memory wr.remote_addr) ≡ view t n)
        × (wr.rkey ≡ v.mr_rkey mb.mr)
        × (wr.length ≡ page_size)
  unfolding read_wr
  request-view c page n log mb open_block registered fits small t block =
      let at = request_addr c page n log mb open_block registered fits in
      let shown : view t n ≡ some (t.memory (mb.buffer + read_offset n)) =
        rw (lt→ltb n (2 ^ 25) small, block) refl in
      (
        ap (λ a. some (t.memory a)) at ∙ sym shown,
        ap (λ (info : RdmaInfo). info.rkey) open_block,
        refl,
      )
