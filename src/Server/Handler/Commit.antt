-- ===== src/Server/Handler/Commit.antt =====
-- lib/handler.c, `__process_rdma_rpc_commit`: what a commit does to the pages that are filed.
use maruswap.Base.{
  ℕ, zero, suc, ◌+◌, ◌≤◌, ◌<◌, ◌≡◌, refl, ◌∙◌, inl, inr, true, false, List, [], ◌∷◌, length,
  contains, erase, IsNodup, ◌==◌, eq→==, ltb, if◌then◌else◌, Bool-cases, arith,
}
use maruswap.Base.Run.{ok, Cmd}
use maruswap.Server.State.{Call, History, Verbs, RecvWork, Server}
use maruswap.Server.Send.{ib_putback_recv_work}
use maruswap.Server.Send.Deliver.{line}
use maruswap.Server.Handler.{convey_all, recycle_all, commit_ready, wait_batch}

-- the calls that post the works of a list again, with their own ids
abbrev pub reposted : (id : ℕ → ℕ) (qp : ℕ) → List ℕ → History → History
reposted id qp [] log = log
reposted id qp (p ∷ ps) log = reposted id qp ps (Call.post_recv qp (id p) ∷ log)

pub reposted-ids :
    (id id' : ℕ → ℕ) (qp : ℕ) (pages : List ℕ) (log : History)
    → ((p : ℕ) → contains p pages ≡ true → id p ≡ id' p)
    → reposted id qp pages log ≡ reposted id' qp pages log
reposted-ids id id' qp [] log same = refl
reposted-ids id id' qp (p ∷ ps) log same =
    let first : id p ≡ id' p = same p (ground arith) in
    rw first (
      reposted-ids id id' qp ps (Call.post_recv qp (id' p) ∷ log) λ q h. same q (ground (arith, h)))

-- the id that a page's receive work came with
abbrev pub id_of : Server → ℕ → ℕ
id_of s p = (s.works p).wc.wr_id

module _ (v : Verbs) where
  -- Every page in the list has been conveyed, none stands there twice, and `batch` is their number.
  pub record Counted (s : Server) : Type 0 where
    pub nodup : IsNodup s.commit_list
    pub conveyed : (p : ℕ) → contains p s.commit_list ≡ true → (s.works p).convey ≡ true
    pub counted : s.batch ≡ length s.commit_list

  -- `ibv_post_recv` never sets `bad_wr`.
  abbrev pub Reposts : Type 0
  Reposts = (log : List Call) (qp work : ℕ) → v.bad_wr log (Call.post_recv qp work) ≡ false

  convey_all-done :
      (pages : List ℕ) (s : Server)
      → ((p : ℕ) → contains p pages ≡ true → (s.works p).convey ≡ true)
      → convey_all v pages s ≡ ok tt s
  unfolding convey_all
  convey_all-done [] s h = refl
  convey_all-done (p ∷ ps) s h =
      let first : (s.works p).convey ≡ true = h p (ground arith) in
      rw first (convey_all-done ps s λ q hq. h q (ground (arith, hq)))

  -- What handing back the works `pages`, the whole list, does.
  pub record Recycled (pages : List ℕ) (s t : Server) : Type 0 where
    pub emptied : t.commit_list ≡ []
    pub fresh :
        (p : ℕ) → (t.works p).convey ≡ (if contains p pages then false else (s.works p).convey)
    pub pages_kept : (p : ℕ) → (t.works p).page ≡ (s.works p).page
    pub memory : t.memory ≡ s.memory
    pub memblocks : t.memblocks ≡ s.memblocks
    pub lock : t.lock ≡ s.lock
    pub line_kept : line t ≡ line s
    pub calls : t.log ≡ reposted (id_of s) s.multicast_qp pages s.log

  recycle_all-Recycled :
      (pages : List ℕ) (s : Server)
      → Reposts
      → s.commit_list ≡ pages
      → (t : Server) × (recycle_all v pages s ≡ ok tt t) × Recycled pages s t
  unfolding recycle_all ib_putback_recv_work
  recycle_all-Recycled [] s good all = (
    s,
    refl,
    record {
      emptied = all;
      fresh = λ p. refl;
      pages_kept = λ p. refl;
      memory = refl;
      memblocks = refl;
      lock = refl;
      line_kept = refl;
      calls = refl;
    },
  )
  recycle_all-Recycled (q ∷ qs) s good all =
      let works : ℕ → RecvWork =
        λ p. if p == q then record (s.works p) { convey = false } else s.works p in
      let id = (works q).wc.wr_id in
      let m : Server = record s {
        works = works;
        commit_list = erase q s.commit_list;
        log = Call.post_recv s.multicast_qp id ∷ s.log;
      } in
      let rest : erase q s.commit_list ≡ qs = rw (all, eq→== q q refl) refl in
      let (t, e, r) = recycle_all-Recycled qs m good rest in
      (
        t,
        rw (good s.log s.multicast_qp id) e,
        record {
          emptied = r.emptied;
          fresh = λ p. ground (arith, r.fresh p);
          pages_kept = λ p. ground (arith, r.pages_kept p);
          memory = r.memory;
          memblocks = r.memblocks;
          lock = r.lock;
          line_kept = r.line_kept;
          calls =
              r.calls
              ∙ reposted-ids (id_of m) (id_of s) s.multicast_qp (q ∷ qs) s.log
                  (λ p h. ground arith);
        },
      )

  -- What a commit leaves: no page, no count, every receive work handed back, the memory untouched.
  pub record Settled (s t : Server) : Type 0 where
    pub emptied : t.commit_list ≡ []
    pub batch : t.batch ≡ 0
    pub fresh :
        (p : ℕ)
        → (t.works p).convey ≡ (if contains p s.commit_list then false else (s.works p).convey)
    pub memory : t.memory ≡ s.memory
    pub memblocks : t.memblocks ≡ s.memblocks
    pub lock : t.lock ≡ false

  pub commit_ready-Settled :
      (s : Server)
      → Reposts
      → Counted s
      → s.lock ≡ false
      → (t : Server) × (commit_ready v s ≡ ok tt t)
        × Settled s t
        × (t.log ≡ reposted (id_of s) s.multicast_qp s.commit_list s.log)
        × (line t ≡ line s)
  unfolding commit_ready
  commit_ready-Settled s good c free =
      let held : Server = record s { lock = true } in
      let (m, e, r) = recycle_all-Recycled s.commit_list held good refl in
      let t : Server = record m { batch = 0; lock = false } in
      (
        t,
        rw (free, convey_all-done s.commit_list held c.conveyed, e) refl,
        record {
          emptied = r.emptied;
          batch = refl;
          fresh = r.fresh;
          memory = r.memory;
          memblocks = r.memblocks;
          lock = refl;
        },
        r.calls,
        r.line_kept,
      )

  -- Settled pages are counted again from none.
  pub Settled-Counted : {s t : Server} → Settled s t → Counted t
  Settled-Counted {s} {t} h = record {
    nodup = rw h.emptied tt;
    conveyed = λ p hp. ground (arith, hp, h.emptied);
    counted = rw (h.emptied, h.batch) refl;
  }

  -- In each round another thread takes in one more page, and keeps `Inv`.
  abbrev pub Progress : (Server → Type 0) → Cmd Server (Unit {0}) → Type 0
  Progress Inv other =
      (s : Server) → Inv s → (t : Server) × (other s ≡ ok tt t) × Inv t × (t.batch ≡ suc s.batch)

  -- The wait ends when as many rounds are given as pages are missing, and one more.
  pub wait_batch-finishes :
      (Inv : Server → Type 0) (other : Cmd Server (Unit {0})) (fuel count : ℕ) (s : Server)
      → Progress Inv other
      → Inv s
      → count < fuel + s.batch
      → 0 < fuel
      → (t : Server) × (wait_batch v other fuel count s ≡ ok tt t) × Inv t × (count ≤ t.batch)
  unfolding wait_batch
  wait_batch-finishes Inv other zero count s step inv enough any = absurd (omega arith)
  wait_batch-finishes Inv other (suc n) count s step inv enough any =
      elim (Bool-cases (ltb s.batch count)) [
        | inl less ↦
            let (m, e, inv', more) = step s inv in
            let (t, e', inv'', done) =
              wait_batch-finishes Inv other n count m step inv' (omega arith) (ground arith) in
            (t, rw (less, e) e', inv'', done)
        | inr there ↦ (s, rw there refl, inv, ground arith)
      ]
