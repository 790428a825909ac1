-- ===== src/Protocol/Coherent.antt =====
-- A driver and a server together: pages that are stored, sent, committed and loaded.
use mathlib.Core.List.{Perm}
use maruswap.Base.{
  IsNodup, ℕ, suc, ◌+◌, ◌%◌, ◌^◌, ◌≤◌, ◌<◌, ◌≡◌, sym, ap, ◌∙◌, ◌⊎◌, inl, inr, false, none, some,
  List, [], ◌∷◌, ◌==◌, leb, get_or, Bool-cases, Option-cases, if◌then◌else◌, arith,
}
use maruswap.Base.Run.{ok, Cmd}
use maruswap.Drive.Header.{get_num_memblock, page_size, config_batch}
use maruswap.Drive.Xarray.{Xarray}
use maruswap.Drive.Net
use maruswap.Drive.Net.{rdma_read, Wc, Call}
use maruswap.Drive.Ctrl.{RdmaCtrl, Drive, no_info}
use maruswap.Drive.Swap.{maruswap_rdma_read}
use maruswap.Drive.Swap.Wrote.{Sound, Reports}
use maruswap.Drive.Swap.Staged.{staged, serves, maruswap_rdma_read-staged}
use maruswap.Drive.Swap.Cache.{Cache, write_out, cache}
use maruswap.Drive.Swap.Remote.{mapped, request, fetched, maruswap_rdma_read-fetched}
use maruswap.Drive.Rpc.Wait.{Arrives}
use maruswap.Drive.Module.{maruswap_ops}
use maruswap.Drive.Module.Registered.{
  FrontCall, started, stores, gone_page, gone_area, changed, frame_after, change_page, calls,
  cached_all, calls-Cached,
}
use maruswap.Server.State.{Verbs, Memblock, Server}
use maruswap.Server.Memblock.{memblock_size}
use maruswap.Server.Handler.Open.{told}
use maruswap.Server.Store.{Delivery, cycles, all_pages, Pages, put, view}
use maruswap.Server.Store.Refine.{in_range}
use maruswap.Server.Handler.Commit.{Reposts}
use maruswap.Server.Send.Deliver.{line, Delivers}
use maruswap.Server.Store.Calls.{Handled}
use maruswap.Server.Store.Cycle.{AllFit, Ready, cycles-Ready}
use maruswap.Server.Store.Order.{sent, numbers, put_each, put_all-sent, put_each-Perm}
use maruswap.Protocol.ReadBack.{kept, request-view}

-- the pages that a history of calls sends, by number and content
abbrev pub outgoing : (frame : ℕ → ℕ) → List FrontCall → List (ℕ × ℕ)
outgoing frame [] = []
outgoing frame (stores type offset page ∷ cs) = (offset % 2 ^ 32, frame page) ∷ outgoing frame cs
outgoing frame (started type ∷ cs) = outgoing frame cs
outgoing frame (gone_page type offset ∷ cs) = outgoing frame cs
outgoing frame (gone_area type ∷ cs) = outgoing frame cs
outgoing frame (changed page content ∷ cs) = outgoing (frame_after frame (changed page content)) cs

-- What was sent has come: in its order, or in any order if no number is there twice.
abbrev pub Delivered : (come outgo : List (ℕ × ℕ)) → Type 0
Delivered come outgo = (come ≡ outgo) ⊎ (Perm come outgo × IsNodup (numbers come))

put_each-Delivered :
    (come outgo : List (ℕ × ℕ)) (m : Pages)
    → Delivered come outgo
    → put_each come m ≡ put_each outgo m
put_each-Delivered come outgo m (inl same) = ap (λ (l : List (ℕ × ℕ)). put_each l m) same
put_each-Delivered come outgo m (inr (order, single)) = put_each-Perm m order single

-- What a cache has, the store has.
abbrev pub Agrees : Cache → Pages → Type 0
Agrees c m = (i x : ℕ) → c.pages i ≡ some x → m i ≡ some x

write_out-Agrees :
    (id content : ℕ) (c : Cache) (m : Pages)
    → Agrees c m
    → Agrees (write_out id content c) (put id content m)
write_out-Agrees id content c m agrees i x h = elim (Bool-cases (id == i)) [
  | inl here ↦ rw here (rw here at h)
  | inr other ↦ elim (Bool-cases (leb config_batch c.batch)) [
    | inl full ↦ let h' = rw (other, full) at h in cc
    | inr room ↦ rw other (agrees i x (rw (other, room) at h))
  ]
]

cached_all-Agrees :
    (frame : ℕ → ℕ) (cs : List FrontCall) (c : Cache) (m : Pages)
    → Agrees c m
    → Agrees (cached_all frame cs c) (put_each (outgoing frame cs) m)
cached_all-Agrees frame [] c m agrees = agrees
cached_all-Agrees frame (stores type offset page ∷ cs) c m agrees =
    cached_all-Agrees frame cs (write_out (offset % 2 ^ 32) (frame page) c)
      (put (offset % 2 ^ 32) (frame page) m)
      (write_out-Agrees (offset % 2 ^ 32) (frame page) c m agrees)
cached_all-Agrees frame (started type ∷ cs) c m agrees = cached_all-Agrees frame cs c m agrees
cached_all-Agrees frame (gone_page type offset ∷ cs) c m agrees =
    cached_all-Agrees frame cs c m agrees
cached_all-Agrees frame (gone_area type ∷ cs) c m agrees = cached_all-Agrees frame cs c m agrees
cached_all-Agrees frame (changed page content ∷ cs) c m agrees =
    cached_all-Agrees (frame_after frame (changed page content)) cs c m agrees

module _ (xa : Xarray) (d : Net.Verbs) (v : Verbs) where
  -- What the driver has staged, the server holds.
  abbrev pub Coherent : Drive xa.Arr → Server → Type 0
  Coherent s w = Agrees (cache xa d s) (view w)

  -- A history of calls to the driver, and all it sends delivered to the server in batches, each
  -- with its commit.
  calls-Coherent :
      (reports : Reports xa d) (fuel : ℕ) (cs : List FrontCall) (s t : Drive xa.Arr)
      → Sound xa d s
      → calls (change_page xa) (maruswap_ops xa d fuel) cs s ≡ ok 0 t
      → (other : Cmd Server (Unit {0})) (n : ℕ) (posted : List ℕ) (bs : List Delivery) (w : Server)
      → Reposts v
      → Delivers v (suc n) w.send_cq
      → Ready v posted w
      → AllFit v posted w.memblocks bs
      → Delivered (sent (all_pages bs)) (outgoing s.frame cs)
      → Coherent s w
      → (w' : Server) × (cycles v other (suc n) bs w ≡ ok tt w')
        × (view w' ≡ put_each (outgoing s.frame cs) (view w))
        × Coherent t w'
        × Ready v posted w'
        × (w'.memblocks ≡ w.memblocks)
        × Handled v (line w) bs w.log w'.log
  calls-Coherent reports fuel cs s t sound h other n posted bs w good delivers r fit same agrees =
      let (w', e, shows, r', blocks, handled) =
        cycles-Ready v other n posted bs w good delivers r fit in
      let now = calls-Cached xa d reports fuel cs s {t = t} sound h in
      let holds : view w' ≡ put_each (outgoing s.frame cs) (view w) =
        shows
        ∙ put_all-sent (all_pages bs) (view w)
        ∙ put_each-Delivered (sent (all_pages bs)) (outgoing s.frame cs) (view w) same in
      (
        w',
        e,
        holds,
        λ k x there.
            ap (λ (m : Pages). m k) holds
            ∙ cached_all-Agrees s.frame cs (cache xa d s) (view w) agrees k x
                (sym (ap (λ (c : Cache). c.pages k) now.shows) ∙ there),
        r',
        blocks,
        handled,
      )

  -- A driver, sound and with nothing staged that the server does not hold, and a server that is
  -- ready. The calls of a history to the driver all return 0, and the kernel may change pages
  -- between them. The pages that they send, with the contents of the time, come to the server in
  -- batches that it can take, each with its commit, in their order, or in any order if no page
  -- number is sent twice. Then the server takes in all, posts the receive works of each batch again
  -- and answers its commit, is ready again, and holds all that the driver has staged. And if page number `n` then has content `x`, by what was sent last or by
  -- what the server held, a read of it by a processor whose connection has this server's answer for
  -- the block gives `x`: it returns 0 with `x` in the page, or returns what the post of its request
  -- did, and the request, posted on that connection, is an RDMA read of one page, into the address
  -- that the page is mapped to and from the one that has `x` on the server. For this second case the page
  -- can be mapped, and the request's completion comes.
  pub maruswap_rdma_read-cycles :
      (reports : Reports xa d) (fuel : ℕ) (cs : List FrontCall) (s t : Drive xa.Arr)
      → Sound xa d s
      → calls (change_page xa) (maruswap_ops xa d fuel) cs s ≡ ok 0 t
      → (other : Cmd Server (Unit {0})) (polls : ℕ) (posted : List ℕ) (bs : List Delivery)
        (w : Server)
      → Reposts v
      → Delivers v (suc polls) w.send_cq
      → Ready v posted w
      → AllFit v posted w.memblocks bs
      → Delivered (sent (all_pages bs)) (outgoing s.frame cs)
      → Coherent s w
      → (cpu to n x k : ℕ) (c : RdmaCtrl) (mb : Memblock) (wc : Wc) → n < 2 ^ 25
      → put_each (outgoing s.frame cs) (view w) n ≡ some x
      → serves xa d cpu t ≡ some c
      → get_or c.rdma_info (get_num_memblock n) no_info ≡ kept (told v mb)
      → get_or w.memblocks (get_num_memblock n) none ≡ some mb
      → v.mr_addr mb.mr ≡ mb.buffer
      → mb.buffer + memblock_size ≤ 2 ^ 64
      → d.mapping_error c.qp.device (d.map_page t.net.log c.qp.device to) ≡ false
      → wc.wr_id ≡ d.local (mapped xa d c to t.net.log)
      → Arrives d c.qp.send_cq wc k
          (Call.post_send c.qp.handle (request xa d c to n t.net.log) ∷ mapped xa d c to t.net.log)
      → k < fuel
      → let wr = request xa d c to n t.net.log in
        (w' : Server) × (cycles v other (suc polls) bs w ≡ ok tt w')
        × Ready v posted w'
        × Coherent t w'
        × Handled v (line w) bs w.log w'.log
        × ((maruswap_rdma_read xa d fuel cpu to n t
              ≡ ok 0 (record t { frame = λ p. if p == to then x else t.frame p }))
            ⊎ ((maruswap_rdma_read xa d fuel cpu to n t
                  ≡ ok
                      (d.post_send (mapped xa d c to t.net.log) c.qp.handle wr)
                      (fetched xa d c to n k t))
                × (wr.opcode ≡ rdma_read)
                × (wr.addr ≡ d.map_page t.net.log c.qp.device to)
                × (wr.lkey ≡ c.qp.lkey)
                × (w'.memory wr.remote_addr ≡ x)
                × (wr.rkey ≡ v.mr_rkey mb.mr)
                × (wr.length ≡ page_size)))
  maruswap_rdma_read-cycles reports fuel cs s t sound h other polls posted bs w good delivers r fit
        same agrees cpu to n x k c mb wc small has which open_block there registered fits fine own
        arrives enough =
      let (w', e, holds, agrees', r', blocks, handled) =
        calls-Coherent reports fuel cs s t sound h other polls posted bs w good delivers r fit same
          agrees in
      let shows : view w' n ≡ some x = ap (λ (m : Pages). m n) holds ∙ has in
      (
        w',
        e,
        r',
        agrees',
        handled,
        elim (Option-cases (staged xa d t n)) [
          | inr (y, it) ↦
              let y_is : y ≡ x = ground (arith, agrees' n y it, shows) in
              inl (maruswap_rdma_read-staged xa d fuel cpu to n x t c (it ∙ ap some y_is) which)
          | inl gone ↦
              let block = ap (λ l. get_or l (get_num_memblock n) none) blocks ∙ there in
              let (here, key, size) =
                request-view xa d v c to n t.net.log mb open_block registered fits small w' block in
              let read =
                maruswap_rdma_read-fetched xa d fuel cpu to n k t c wc gone which (in_range n small)
                  fine own arrives enough in
              let (got, opcode, addr, lkey, at, its_key, its_size) = read in
              inr (got, opcode, addr, lkey, ground (arith, here, shows), key, size)
        ],
      )
