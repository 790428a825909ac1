-- ===== src/Server/Alloc/Willing.antt =====
-- What the set-up of a driver's handler comes to when each call that it makes succeeds.
use maruswap.Base.{
  ℕ, zero, suc, ◌≡◌, refl, ap, ◌∙◌, true, false, not, none, some, [], ◌∷◌, ◌==◌, set, ◌++◌, get_or,
  replicate, if◌then◌else◌,
}
use maruswap.Base.Run.{ok, Cmd, pure, ◌>>=◌, ◌>>◌, modify, stop, test◌then◌else◌}
use maruswap.Drive.Header.{max_memblock}
use maruswap.Server.State.{Call, History, Verbs, Memblock, RecvWork, Server}
use maruswap.Server.Memblock.{alloc_memblock, set_memblock, memblock_size}
use maruswap.Server.Alloc.{
  value, fail, post_works, rpc_work, first_memblock, prealloc, alloc_rpc, alloc_rdma_memory_handler,
  rpc_buffer_size, mcm_max_recv_wr,
}

-- Each call that the set-up makes is answered with a pointer, or with 0 where that is success.
pub record Willing (v : Verbs) : Type 0 where
  pub malloc : (log : History) → (v.answer log Call.malloc == 0) ≡ false
  pub mmap : (log : History) (size : ℕ) → (v.answer log (Call.mmap size) == 0) ≡ false
  pub reg_mr :
      (log : History) (pd addr size : ℕ) → (v.answer log (Call.reg_mr pd addr size) == 0) ≡ false
  pub create_qp : (log : History) (id : ℕ) → v.answer log (Call.create_qp id) ≡ 0
  pub accept : (log : History) (id : ℕ) → v.answer log (Call.accept id) ≡ 0
  pub post_recv : (log : History) (qp rw : ℕ) → v.answer log (Call.post_recv qp rw) ≡ 0
  pub bad_wr : (log : History) (qp rw : ℕ) → v.bad_wr log (Call.post_recv qp rw) ≡ false

module _ (v : Verbs) (w : Willing v) where
  pub post_works-posts :
      (work : ℕ → RecvWork) (qp n i : ℕ) (s : Server)
      → (t : Server) × (post_works v work qp n i s ≡ ok true t)
        × (t.memblocks ≡ s.memblocks)
        × (t.memblock_lock ≡ s.memblock_lock)
  unfolding post_works
  post_works-posts work qp zero i s = (s, refl, refl, refl)
  post_works-posts work qp (suc n) i s =
      let rw' = v.answer s.log Call.malloc in
      let log1 = Call.malloc ∷ s.log in
      let m : Server = record s {
        works = λ p. if p == rw' then work i else s.works p;
        log = Call.post_recv qp rw' ∷ log1;
      } in
      let (t, e, same, free) = post_works-posts work qp n (suc i) m in
      (t, rw (w.malloc s.log, w.post_recv log1 qp rw', w.bad_wr log1 qp rw') e, same, free)

  prealloc-keeps :
      (s : Server) (b : Memblock)
      → get_or s.memblocks 0 none ≡ some b
      → s.memblock_lock ≡ false
      → prealloc v s ≡ ok tt (record s { memblock_lock = false })
  unfolding prealloc
  prealloc-keeps s b there free = rw (free, there) refl

  alloc_rpc-builds :
      (listener : ℕ) (s : Server) (b : Memblock)
      → get_or s.memblocks 0 none ≡ some b
      → s.memblock_lock ≡ false
      → (t : Server) × (alloc_rpc v listener s ≡ ok true t)
  unfolding alloc_rpc
  alloc_rpc-builds listener s b there free =
      let buffer = v.answer s.log (Call.mmap rpc_buffer_size) in
      let log1 = Call.mmap rpc_buffer_size ∷ s.log in
      let reg = Call.reg_mr s.pd buffer rpc_buffer_size in
      let m : Server = record s {
        rpc_buffer = buffer;
        rpc_mr = v.answer log1 reg;
        log = reg ∷ log1;
      } in
      let (t, e, same, held) = post_works-posts (rpc_work buffer) s.qp mcm_max_recv_wr 0 m in
      let kept = prealloc-keeps t b (ap (λ l. get_or l 0 none) same ∙ there) (held ∙ free) in
      (record t { memblock_lock = false }, rw (w.mmap s.log rpc_buffer_size, e, kept) refl)

  first_memblock-adds :
      (s : Server)
      → s.memblock_lock ≡ false
      → (b : Memblock) × (t : Server) × (first_memblock v s ≡ ok tt t)
        × (t.memblocks ≡ set s.memblocks 0 (some b))
        × (t.memblock_lock ≡ false)
  unfolding first_memblock alloc_memblock set_memblock
  first_memblock-adds s free =
      let log1 = Call.malloc ∷ s.log in
      let buffer = v.answer log1 (Call.mmap memblock_size) in
      let log2 = Call.mmap memblock_size ∷ log1 in
      let reg = Call.reg_mr s.pd buffer memblock_size in
      let b : Memblock = record {
        address = v.answer s.log Call.malloc;
        memblock_id = 0;
        buffer = buffer;
        mr = v.answer log2 reg;
      } in
      (
        b,
        record s {
          memblocks = set s.memblocks 0 (some b);
          memblock_list = s.memblock_list ++ (0 ∷ []);
          memblock_lock = false;
          log = reg ∷ log2;
        },
        rw
            (
              free,
              w.malloc s.log,
              w.mmap log1 memblock_size,
              w.reg_mr log2 s.pd buffer memblock_size,
            )
            refl,
        refl,
        refl,
      )

  -- what is done once the driver is accepted
  abbrev set_up : (listener : ℕ) → (Server → Server) → (rmh : ℕ) → Cmd Server ℕ
  set_up listener clear rmh = do
    modify clear
    first_memblock v
    built ← alloc_rpc v listener
    pure (if built then rmh else 0)

  set_up-returns :
      (listener rmh : ℕ) (clear : Server → Server) (s n t : Server)
      → first_memblock v (clear s) ≡ ok tt n
      → alloc_rpc v listener n ≡ ok true t
      → set_up listener clear rmh s ≡ ok rmh t
  set_up-returns listener rmh clear s n t first built = rw (first, built) refl

  abbrev accept_driver : (id listener : ℕ) → (ℕ → Cmd Server ℕ) → Cmd Server ℕ
  accept_driver id listener next = do
    ret ← value v (Call.create_qp id)
    test not (ret == 0) then fail v listener >> pure 0 else do
      ret ← value v (Call.accept id)
      test not (ret == 0)
          then fail v listener >> pure 0
          else do rmh ← value v Call.malloc; test rmh == 0 then stop else next rmh

  accept_driver-goes :
      (id listener : ℕ) (next : ℕ → Cmd Server ℕ) (s : Server)
      → let log2 = Call.accept id ∷ Call.create_qp id ∷ s.log in
        accept_driver id listener next s
        ≡ next (v.answer log2 Call.malloc) (record s { log = Call.malloc ∷ log2 })
  accept_driver-goes id listener next s =
      let log1 = Call.create_qp id ∷ s.log in
      rw (w.create_qp s.log id, w.accept log1 id, w.malloc (Call.accept id ∷ log1)) refl

  -- The set-up of a driver's handler returns a pointer when each call that it makes succeeds.
  pub alloc_rdma_memory_handler-makes :
      (id listener : ℕ) (s : Server)
      → (rmh : ℕ) × (t : Server) × (alloc_rdma_memory_handler v id listener s ≡ ok rmh t)
        × ((rmh == 0) ≡ false)
  unfolding alloc_rdma_memory_handler
  alloc_rdma_memory_handler-makes id listener s =
      let log1 = Call.create_qp id ∷ s.log in
      let log2 = Call.accept id ∷ log1 in
      let rmh = v.answer log2 Call.malloc in
      let clear = λ (x : Server). record x {
        memblocks = replicate max_memblock none;
        memblock_list = [];
        memblock_lock = false;
        batch = 0;
      } in
      let m : Server = record s { log = Call.malloc ∷ log2 } in
      let (b, n, first, there, free) = first_memblock-adds (clear m) refl in
      let (t, built) = alloc_rpc-builds listener n b (ap (λ l. get_or l 0 none) there) free in
      (
        rmh,
        t,
        accept_driver-goes id listener (set_up listener clear) s
            ∙ set_up-returns listener rmh clear m n t first built,
        w.malloc log2,
      )
