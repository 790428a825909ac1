-- ===== src/Server/Handler/Open.antt =====
-- lib/handler.c, `__process_rdma_rpc_open`: the answer to an open request.
use maruswap.Base.{ℕ, ◌<◌, ◌≡◌, true, false, none, some, get_or, arith}
use maruswap.Base.Run.{ok}
use maruswap.Drive.Header.{max_memblock}
use maruswap.Drive.Net.{Wc}
use maruswap.Server.Header.{Fields, interpret_header}
use maruswap.Server.State.{Verbs, Memblock, RdmaOpen, Server}
use maruswap.Server.Send.{ib_rdma_send}
use maruswap.Server.Send.Deliver.{line, Delivers, sent_answer, ib_rdma_send-Delivers}
use maruswap.Server.Memblock.{memblock_at}
use maruswap.Server.Convey.{ensure_memblock}
use maruswap.Server.Convey.Land.{memblock_at-there, ensure_memblock-there}
use maruswap.Server.Handler.{process_rdma_rpc_open}

module _ (v : Verbs) where
  abbrev pub told : Memblock → RdmaOpen
  told mb = record { remote_addr = v.mr_addr mb.mr; rkey = v.mr_rkey mb.mr }

  open_steps :
      (fuel : ℕ) (wc : Wc) (s a t : Server) (f : Fields) (mb : Memblock)
      → s.memblock_lock ≡ false
      → interpret_header wc.imm_data ≡ some f
      → ensure_memblock v f.nr_buffer
          (record s { memblock_lock = true; response = record { remote_addr = 0; rkey = 0 } })
        ≡ ok true a
      → memblock_at v f.nr_buffer a ≡ ok (some mb) a
      → ib_rdma_send v fuel a.rpc_mr a.rpc_buffer 16 wc.imm_data true
          (record a { response = told mb })
        ≡ ok true t
      → process_rdma_rpc_open v fuel wc s ≡ ok tt (record t { memblock_lock = false })
  unfolding process_rdma_rpc_open
  open_steps fuel wc s a t f mb free e ready at sent = ground arith

  -- Under a free lock, a request for a block that is there is answered with its registration's
  -- address and key: they are put in the response, the 16 bytes of the buffer where it lies are
  -- posted on the driver's connection with the request's header, and the completion is polled for.
  -- Nothing else changes and no other call is made; the lock is free again.
  pub process_rdma_rpc_open-answers :
      (fuel : ℕ) (wc : Wc) (s : Server) (f : Fields) (mb : Memblock)
      → Delivers v fuel s.send_cq
      → s.memblock_lock ≡ false
      → interpret_header wc.imm_data ≡ some f
      → f.nr_buffer < max_memblock
      → get_or s.memblocks f.nr_buffer none ≡ some mb
      → (k : ℕ) × (process_rdma_rpc_open v fuel wc s
          ≡ ok tt (record s {
            memblock_lock = false;
            response = told mb;
            log = sent_answer v (line s) 16 wc.imm_data true k s.log;
          }))
  process_rdma_rpc_open-answers fuel wc s f mb delivers free e h there =
      let a : Server = record s {
        memblock_lock = true;
        response = record { remote_addr = 0; rkey = 0 };
      } in
      let b : Server = record a { response = told mb } in
      let (k, sent) = ib_rdma_send-Delivers v fuel 16 wc.imm_data true b delivers in
      let c : Server = record b { log = sent_answer v (line b) 16 wc.imm_data true k b.log } in
      (
        k,
        open_steps fuel wc s a c f mb free e (ensure_memblock-there v f.nr_buffer a mb h there)
            (memblock_at-there v f.nr_buffer a mb h there) sent,
      )
