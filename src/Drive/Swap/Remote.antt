-- ===== src/Drive/Swap/Remote.antt =====
-- drive/sib.c, `maruswap_rdma_read`: a page that is not staged.
use maruswap.Base.{
  ℕ, zero, suc, ◌+◌, ◌%◌, ◌^◌, ◌<◌, ◌≡◌, refl, true, false, none, some, ◌∷◌, get_or, lt→ltb, eq→==,
  arith,
}
use maruswap.Base.Run.{ok, Cmd}
use maruswap.Drive.Header.{max_memblock, page_size, get_num_memblock, read_offset}
use maruswap.Drive.Xarray.{Xarray}
use maruswap.Drive.Net.{rdma_read, Qp, Wc, SendWr, Call, History, Verbs, Net, RdmaInfo}
use maruswap.Drive.Rpc.Wait.{Arrives, now, later, polls}
use maruswap.Drive.Ctrl.{RdmaCtrl, Drive, on_net, no_info}
use maruswap.Drive.Swap.{
  await_done, get_req_for_page, read_wr, finish_transfer, ib_rdma_send, read_remote,
  maruswap_rdma_read,
}
use maruswap.Drive.Swap.Staged.{staged, serves, pick_server-serves, deref-found}

module _ (v : Verbs) where
  await_done-finishes :
      {k : ℕ} {cq : ℕ} {wc : Wc} (fuel : ℕ) (s : Net)
      → Arrives v cq wc k s.log
      → k < fuel
      → await_done v fuel cq wc.wr_id s ≡ ok true (record s { log = polls v cq (suc k) s.log })
  unfolding await_done
  await_done-finishes zero s a h = absurd (omega arith)
  await_done-finishes {cq} {wc} (suc n) s (now e good) h =
      rw (e, good, eq→== wc.wr_id wc.wr_id refl)
  await_done-finishes {cq} (suc n) s (later e a) h =
      rw e (await_done-finishes n (record s { log = Call.poll_cq cq ∷ s.log }) a (omega arith))

  finish_transfer-finishes :
      {k : ℕ} {wc : Wc} (fuel : ℕ) (qp : Qp) (dma ret : ℕ) (s : Net)
      → Arrives v qp.send_cq wc k s.log
      → k < fuel
      → finish_transfer v fuel qp dma wc.wr_id ret s
        ≡ ok ret
            (record s { log = Call.unmap_page qp.device dma ∷ polls v qp.send_cq (suc k) s.log })
  unfolding finish_transfer
  finish_transfer-finishes fuel qp dma ret s a h = rw (await_done-finishes fuel s a h) refl

  ib_rdma_send-finishes :
      {k : ℕ} {wc : Wc} (fuel : ℕ) (qp : Qp) (dma : ℕ) (info : RdmaInfo) (offset : ℕ) (s : Net)
      → wc.wr_id ≡ v.local s.log
      → let wr = read_wr v qp dma info offset (v.local s.log) in
        Arrives v qp.send_cq wc k (Call.post_send qp.handle wr ∷ s.log)
        → k < fuel
        → ib_rdma_send v fuel qp dma info offset s
          ≡ ok (v.post_send s.log qp.handle wr) (record s {
            log =
                Call.unmap_page qp.device dma
                ∷ polls v qp.send_cq (suc k) (Call.post_send qp.handle wr ∷ s.log);
          })
  unfolding ib_rdma_send
  ib_rdma_send-finishes {k} {wc} fuel qp dma info offset s own a h =
      let wr = read_wr v qp dma info offset (v.local s.log) in
      let ret = v.post_send s.log qp.handle wr in
      let m : Net = record s { log = Call.post_send qp.handle wr ∷ s.log } in
      rw own at (finish_transfer-finishes {k = k} {wc = wc} fuel qp dma ret m a h)

module _ (xa : Xarray) (v : Verbs) where
  -- the calls before the request, and the request
  abbrev pub mapped : RdmaCtrl → (page : ℕ) → History → History
  mapped c page log =
      let map = Call.map_page c.qp.device page in
      Call.sync_page c.qp.device (v.map_page log c.qp.device page) ∷ map ∷ log

  abbrev pub request : RdmaCtrl → (page offset : ℕ) → History → SendWr
  request c page offset log =
      read_wr v c.qp (v.map_page log c.qp.device page)
        (get_or c.rdma_info (get_num_memblock offset) no_info) (read_offset offset)
        (v.local (mapped c page log))

  -- the state when a read from connection `c` is done, `k` empty polls after its request
  abbrev pub fetched : RdmaCtrl → (page offset k : ℕ) → Drive xa.Arr → Drive xa.Arr
  fetched c page offset k s =
      let log = s.net.log in
      let sent = Call.post_send c.qp.handle (request c page offset log) ∷ mapped c page log in
      record s {
        net = record s.net {
          log =
              Call.unmap_page c.qp.device (v.map_page log c.qp.device page)
              ∷ polls v c.qp.send_cq (suc k) sent;
        };
      }

  on_net-ok :
      {A : Type 0} (m : Cmd Net A) (s : Drive xa.Arr) (a : A) (n : Net)
      → m s.net ≡ ok a n
      → on_net xa v m s ≡ ok a (record s { net = n })
  on_net-ok m s a n h = rw (h, on_net) refl

  get_req_for_page-mapped :
      (c : RdmaCtrl) (page : ℕ) (s : Net)
      → v.mapping_error c.qp.device (v.map_page s.log c.qp.device page) ≡ false
      → get_req_for_page v c.qp.device page s
        ≡ ok (0, v.map_page s.log c.qp.device page) (record s { log = mapped c page s.log })
  unfolding get_req_for_page
  get_req_for_page-mapped c page s fine = rw fine refl

  read_remote-fetched :
      (fuel page offset k : ℕ) (s : Drive xa.Arr) (c : RdmaCtrl) (wc : Wc)
      → get_num_memblock offset < max_memblock
      → v.mapping_error c.qp.device (v.map_page s.net.log c.qp.device page) ≡ false
      → wc.wr_id ≡ v.local (mapped c page s.net.log)
      → Arrives v c.qp.send_cq wc k
          (Call.post_send c.qp.handle (request c page offset s.net.log) ∷ mapped c page s.net.log)
      → k < fuel
      → read_remote xa v fuel page offset c s
        ≡ ok
            (v.post_send (mapped c page s.net.log) c.qp.handle (request c page offset s.net.log))
            (fetched c page offset k s)
  unfolding read_remote
  read_remote-fetched fuel page offset k s c wc h fine own a enough =
      let n : Net = record s.net { log = mapped c page s.net.log } in
      let dma = v.map_page s.net.log c.qp.device page in
      let info = get_or c.rdma_info (get_num_memblock offset) no_info in
      let sent =
        ib_rdma_send-finishes v {k = k} {wc = wc} fuel c.qp dma info (read_offset offset) n own a
          enough in
      let m : Drive xa.Arr = record s { net = n } in
      rw
        (
          on_net-ok (get_req_for_page v c.qp.device page) s (0, dma) n
              (get_req_for_page-mapped c page s.net fine),
          lt→ltb (get_num_memblock offset) max_memblock h,
        )
        (on_net-ok (ib_rdma_send v fuel c.qp dma info (read_offset offset)) m _ _ sent)

  -- A read of a page that is not staged returns once its completion has come, with what the post
  -- of its request returned, if the page can be mapped and its block number is in range. The
  -- request is an RDMA read of one page into the address that the page is mapped to, with the
  -- connection's own key, from the page's byte offset in the block that the connection of this
  -- processor has, with the block's key, and it is posted on that connection. Nothing but the calls made changes in the driver.
  pub maruswap_rdma_read-fetched :
      (fuel cpu page offset k : ℕ) (s : Drive xa.Arr) (c : RdmaCtrl) (wc : Wc)
      → staged xa v s offset ≡ none
      → serves xa v cpu s ≡ some c
      → get_num_memblock offset < max_memblock
      → v.mapping_error c.qp.device (v.map_page s.net.log c.qp.device page) ≡ false
      → wc.wr_id ≡ v.local (mapped c page s.net.log)
      → Arrives v c.qp.send_cq wc k
          (Call.post_send c.qp.handle (request c page offset s.net.log) ∷ mapped c page s.net.log)
      → k < fuel
      → let wr = request c page offset s.net.log in
        let info = get_or c.rdma_info (get_num_memblock offset) no_info in
        (maruswap_rdma_read xa v fuel cpu page offset s
          ≡ ok (v.post_send (mapped c page s.net.log) c.qp.handle wr) (fetched c page offset k s))
        × (wr.opcode ≡ rdma_read)
        × (wr.addr ≡ v.map_page s.net.log c.qp.device page)
        × (wr.lkey ≡ c.qp.lkey)
        × (wr.remote_addr ≡ (info.remote_addr + read_offset offset) % 2 ^ 64)
        × (wr.rkey ≡ info.rkey)
        × (wr.length ≡ page_size)
  unfolding maruswap_rdma_read read_wr
  maruswap_rdma_read-fetched fuel cpu page offset k s c wc gone which h fine own a enough =
      let (i, picked, found) = pick_server-serves xa v cpu s c which in
      let got = read_remote-fetched fuel page offset k s c wc h fine own a enough in
      (rw (picked, deref-found xa v i s c found, gone) got, refl, refl, refl, refl, refl, refl)
