-- ===== src/Server/Store/Cycle.antt =====
-- lib/handler.c: batches of pages, each with the commit after it (`__process_rdma_rpc_commit`).
use maruswap.Base.{
  ℕ, suc, ◌++◌, Option, Bool-cases, inl, inr, ◌<◌, ◌^◌, ◌≤◌, ◌≡◌, refl, sym, ap, ◌∙◌, ◌≢◌, true,
  false, List, [], ◌∷◌, contains, get_or, none, some, length, IsNodup, ltb, nonempty-cons, eq→==,
  arith,
}
use maruswap.Base.Run.{ok, Cmd}
use maruswap.Drive.Header.{get_num_memblock}
use maruswap.Drive.Net.{Wc}
use maruswap.Server.State.{Verbs, Memblock, Server}
use maruswap.Server.Send.Deliver.{Line, line, Delivers}
use maruswap.Server.Handler.{wait_batch, commit_target, process_rdma_rpc_commit}
use maruswap.Server.Handler.Commit.{Counted, Reposts, Settled, Settled-Counted, id_of}
use maruswap.Server.Handler.Rounds.{commit_calls, commit_ready-answered, commit_steps}
use maruswap.Server.Store.{Arrival, IsStore, AllAwaited, works_of, put_all, view, view_of}
use maruswap.Server.Store.{Delivery, cycle, cycles, all_pages, Pages, put}
use maruswap.Server.Store.Calls.{batch_calls, Came-calls, Handled, Handled-from}
use maruswap.Server.Store.Batch.{Came, arrive_all-Came}

put_all-append :
    (xs ys : List Arrival) (m : Pages) → put_all (xs ++ ys) m ≡ put_all ys (put_all xs m)
put_all-append [] ys m = refl
put_all-append (x ∷ xs) ys m = put_all-append xs ys (put x.number x.content m)

module _ (v : Verbs) where
  -- No page is missing, so that no round is waited.
  wait_batch-none :
      (other : Cmd Server (Unit {0})) (n count : ℕ) (s : Server)
      → count ≤ s.batch
      → wait_batch v other (suc n) count s ≡ ok tt s
  unfolding wait_batch
  wait_batch-none other n count s h =
      let less : ltb s.batch count ≡ false = ground arith in rw less refl

  -- A commit of pages that have all come.
  process_rdma_rpc_commit-arrived :
      (other : Cmd Server (Unit {0})) (n : ℕ) (wc : Wc) (s : Server)
      → Reposts v
      → Delivers v (suc n) s.send_cq
      → Counted v s
      → s.lock ≡ false
      → s.commit_list ≢ []
      → commit_target v wc.imm_data ≤ s.batch
      → (t : Server) × (process_rdma_rpc_commit v other (suc n) wc s ≡ ok tt t)
        × Settled v s t
        × (line t ≡ line s)
        × (k : ℕ) × (t.log ≡ commit_calls v (line s) (id_of s) s.commit_list wc.imm_data k s.log)
  process_rdma_rpc_commit-arrived other n wc s good delivers counted free some_page enough =
      let (p, ps, pages) = nonempty-cons s.commit_list some_page in
      let waited = wait_batch-none other n (commit_target v wc.imm_data) s enough in
      let (m, t, done, answered, settled, same, k, calls) =
        commit_ready-answered v (suc n) wc s good delivers counted free in
      (
        t,
        commit_steps v other (suc n) wc s s m t p ps pages waited done answered,
        settled,
        same,
        k,
        calls,
      )

  view-Settled : (s t : Server) → Settled v s t → view t ≡ view s
  view-Settled s t h = λ i. view_of (h.memory i) (h.memblocks i)

  Settled-IsStore : (s t : Server) → IsStore v s → Settled v s t → IsStore v t
  Settled-IsStore s t i h =
      let there = λ (x : ℕ) (a : Memblock) (e : get_or t.memblocks x none ≡ some a).
        ap (λ l. get_or l x none) (sym h.memblocks) ∙ e in
      record {
        apart = λ x y a b ne ha hb. i.apart x y a b ne (there x a ha) (there y b hb);
        free = h.lock;
        counted = Settled-Counted v h;
      }

  some_filed :
      (pages : List Arrival) (s m : Server) → Came v pages s m → pages ≢ [] → m.commit_list ≢ []
  some_filed [] s m c some_page none_filed = absurd (some_page refl)
  some_filed (a ∷ rest) s m c some_page none_filed =
      let listed : contains a.work m.commit_list ≡ true =
        c.filed a.work ∙ rw (eq→== a.work a.work refl) refl in
      let not_listed : contains a.work m.commit_list ≡ false = ap (contains a.work) none_filed in cc

  -- Pages that fit the blocks, in receive works out of `posted`, none taken twice, and a commit of
  -- at most as many.
  abbrev pub AllPlaced : List (Option Memblock) → List Arrival → Type 0
  AllPlaced blocks [] = Unit {0}
  AllPlaced blocks (a ∷ rest) =
      (a.number < 2 ^ 25)
      × ((mb : Memblock) × (get_or blocks (get_num_memblock a.number) none ≡ some mb))
      × AllPlaced blocks rest

  pub record Fits (posted : List ℕ) (blocks : List (Option Memblock)) (b : Delivery) : Type 0 where
    pub nodup : IsNodup (works_of b.pages)
    pub inside : (p : ℕ) → contains p (works_of b.pages) ≡ true → contains p posted ≡ true
    pub placed : AllPlaced blocks b.pages
    pub some_page : b.pages ≢ []
    pub enough : commit_target v b.commit.imm_data ≤ length b.pages

  abbrev pub AllFit : List ℕ → List (Option Memblock) → List Delivery → Type 0
  AllFit posted blocks [] = Unit {0}
  AllFit posted blocks (b ∷ bs) = Fits posted blocks b × AllFit posted blocks bs

  -- Between two batches: all receive works out of `posted` await a page, and none is filed.
  pub record Ready (posted : List ℕ) (s : Server) : Type 0 where
    pub store : IsStore v s
    pub none_filed : s.commit_list ≡ []
    pub free : (p : ℕ) → contains p posted ≡ true → (s.works p).convey ≡ false

  Ready-AllAwaited :
      (posted : List ℕ) (s : Server) (pages : List Arrival)
      → Ready posted s
      → ((p : ℕ) → contains p (works_of pages) ≡ true → contains p posted ≡ true)
      → AllPlaced s.memblocks pages
      → AllAwaited v s pages
  Ready-AllAwaited posted s [] r inside placed = tt
  Ready-AllAwaited posted s (a ∷ rest) r inside placed = (
    record {
      posted = r.free a.work (inside a.work (rw (eq→== a.work a.work refl) refl));
      not_filed = ap (contains a.work) r.none_filed;
      small = placed.0;
      block = placed.1.0;
      there = placed.1.1;
    },
    Ready-AllAwaited posted s rest r (λ p h. inside p (ground (arith, h))) placed.2,
  )

  -- After the commit of a batch.
  Settled-Ready :
      (posted : List ℕ) (pages : List Arrival) (s m t : Server)
      → Ready posted s
      → Came v pages s m
      → Settled v m t
      → Ready posted t
  Settled-Ready posted pages s m t r c h = record {
    store = Settled-IsStore m t c.store h;
    none_filed = h.emptied;
    free = λ p here. elim (Bool-cases (contains p (works_of pages))) [
      | inl came ↦
          let listed : contains p m.commit_list ≡ true = c.filed p ∙ rw came refl in
          h.fresh p ∙ rw listed refl
      | inr other ↦
          let unmarked : (m.works p).convey ≡ false = c.marked p ∙ rw other (r.free p here) in
          h.fresh p ∙ ground (arith, unmarked)
    ];
  }

  pub cycle-Ready :
      (other : Cmd Server (Unit {0})) (n : ℕ) (posted : List ℕ) (b : Delivery) (s : Server)
      → Reposts v
      → Delivers v (suc n) s.send_cq
      → Ready posted s
      → Fits posted s.memblocks b
      → (t : Server) × (cycle v other (suc n) b s ≡ ok tt t)
        × (view t ≡ put_all b.pages (view s))
        × Ready posted t
        × (t.memblocks ≡ s.memblocks)
        × (line t ≡ line s)
        × (k : ℕ) × (t.log ≡ batch_calls v (line s) b k s.log)
  unfolding cycle
  cycle-Ready other n posted b s good delivers r f =
      let all = Ready-AllAwaited posted s b.pages r f.inside f.placed in
      let (m, e, c) = arrive_all-Came v (suc n) b.pages s r.store all f.nodup in
      let cq = ap (λ (l : Line). l.send_cq) c.line_kept in
      let (t, e', h, same, k, calls) =
        process_rdma_rpc_commit-arrived other n b.commit m good (rw cq delivers) c.store.counted
          c.store.free (some_filed b.pages s m c f.some_page) (omega (arith, c.count, f.enough)) in
      (
        t,
        rw e e',
        view-Settled m t h ∙ c.shows,
        Settled-Ready posted b.pages s m t r c h,
        h.memblocks ∙ c.memblocks,
        same ∙ c.line_kept,
        k,
        calls ∙ Came-calls v b.pages b.commit.imm_data k s m r.none_filed c,
      )

  -- A server with no page filed gets any number of batches, each followed by a commit of at most as
  -- many pages as the batch has. The pages come in receive works that are posted, none taken twice
  -- in a batch, and for blocks that are there. Then all batches come in and all commits return,
  -- with no round waited; the store then holds what all pages, put one after the other, make of
  -- what it held. In each commit just the receive works of its batch are posted to the group's
  -- queue pair again and the answer on the driver's connection, so that the server is as ready for
  -- a batch as before: these, and the looks for the answer's completion, are all calls made.
  pub cycles-Ready :
      (other : Cmd Server (Unit {0})) (n : ℕ) (posted : List ℕ) (bs : List Delivery) (s : Server)
      → Reposts v
      → Delivers v (suc n) s.send_cq
      → Ready posted s
      → AllFit posted s.memblocks bs
      → (t : Server) × (cycles v other (suc n) bs s ≡ ok tt t)
        × (view t ≡ put_all (all_pages bs) (view s))
        × Ready posted t
        × (t.memblocks ≡ s.memblocks)
        × Handled v (line s) bs s.log t.log
  unfolding cycles
  cycles-Ready other n posted [] s good delivers r f = (s, refl, refl, r, refl, refl)
  cycles-Ready other n posted (b ∷ bs) s good delivers r f =
      let (m, e, shows, r', blocks, same, k, calls) =
        cycle-Ready other n posted b s good delivers r f.0 in
      let cq = ap (λ (l : Line). l.send_cq) same in
      let (t, e', shows', r'', blocks', handled) =
        cycles-Ready other n posted bs m good (rw cq delivers) r' (rw blocks f.1) in
      (
        t,
        rw e e',
        shows'
            ∙ ap (put_all (all_pages bs)) shows
            ∙ sym (put_all-append b.pages (all_pages bs) (view s)),
        r'',
        blocks' ∙ blocks,
        (k, Handled-from v bs t.log same calls handled),
      )
