-- ===== src/Server/Store/Batch.antt =====
-- lib/handler.c: batches of pages and the abstract store.
use maruswap.Base.{
  ℕ, Bool-cases, inl, inr, sym, ==→eq, eq→==, ne→==, ◌+◌, ◌≡◌, refl, ap, ◌∙◌, false, ◌||◌, List, [],
  ◌∷◌, ◌==◌, if◌then◌else◌, contains, length, IsNodup, or_rotate, arith,
}
use maruswap.Base.Run.{ok, and_then}
use maruswap.Server.State.{Verbs, Server}
use maruswap.Server.Send.Deliver.{line}
use maruswap.Server.Handler.Commit.{id_of}
use maruswap.Server.Store.{
  Arrival, arrive_all, IsStore, Awaited, AllAwaited, works_of, put_all, view,
}
use maruswap.Server.Store.Refine.{
  stored, arrive-stored, view-stored, stored-IsStore, stored-Awaited,
}

-- the receive works of a batch, the last first, before those that were filed
abbrev pub put_first : List Arrival → List ℕ → List ℕ
put_first [] works = works
put_first (a ∷ rest) works = put_first rest (a.work ∷ works)

module _ (v : Verbs) where
  stored-AllAwaited :
      (s : Server) (i : IsStore v s) (a : Arrival) (w : Awaited v s a) (rest : List Arrival)
      → contains a.work (works_of rest) ≡ false
      → AllAwaited v s rest
      → AllAwaited v (stored v s i a w.block) rest
  stored-AllAwaited s i a w [] new all = tt
  stored-AllAwaited s i a w (b ∷ rest) new all = (
    stored-Awaited v s i a b w (ground (arith, new)) all.0,
    stored-AllAwaited s i a w rest (ground (arith, new)) all.1,
  )

  -- What a batch of pages leaves.
  pub record Came (pages : List Arrival) (s t : Server) : Type 0 where
    pub shows : view t ≡ put_all pages (view s)
    pub count : t.batch ≡ length pages + s.batch
    pub filed :
        (p : ℕ)
        → contains p t.commit_list ≡ (contains p (works_of pages) || contains p s.commit_list)
    pub marked : (p : ℕ) → (t.works p).convey ≡ (contains p (works_of pages) || (s.works p).convey)
    pub memblocks : t.memblocks ≡ s.memblocks
    pub line_kept : line t ≡ line s
    pub log : t.log ≡ s.log
    pub listed : t.commit_list ≡ put_first pages s.commit_list
    pub ids : (p : ℕ) → id_of t p ≡ (if contains p (works_of pages) then p else id_of s p)
    pub store : IsStore v t

  marked-stored :
      (s : Server) (i : IsStore v s) (a : Arrival) (w : Awaited v s a) (p : ℕ)
      → ((stored v s i a w.block).works p).convey ≡ ((a.work == p) || (s.works p).convey)
  marked-stored s i a w p = elim (Bool-cases (a.work == p)) [
    | inl here ↦ rw (here, eq→== p a.work (sym (==→eq a.work p here))) refl
    | inr other ↦ rw (other, ne→== p a.work (λ e. ground (arith, other, e))) refl
  ]

  ids-stored :
      (s : Server) (i : IsStore v s) (a : Arrival) (w : Awaited v s a) (p : ℕ)
      → ((stored v s i a w.block).works p).wc.wr_id
        ≡ (if a.work == p then p else (s.works p).wc.wr_id)
  ids-stored s i a w p = elim (Bool-cases (a.work == p)) [
    | inl here ↦ rw (here, eq→== p a.work (sym (==→eq a.work p here))) (==→eq a.work p here)
    | inr other ↦ rw (other, ne→== p a.work (λ e. ground (arith, other, e))) refl
  ]

  -- a page, and the batch after it
  pub Came-stored :
      (s : Server) (i : IsStore v s) (a : Arrival) (w : Awaited v s a) (rest : List Arrival)
      (t : Server)
      → Came rest (stored v s i a w.block) t
      → Came (a ∷ rest) s t
  Came-stored s i a w rest t c = record {
    shows = c.shows ∙ ap (put_all rest) (view-stored v s i a w);
    count = omega (arith, c.count);
    filed = λ p.
        c.filed p ∙ or_rotate (contains p (works_of rest)) (a.work == p) (contains p s.commit_list);
    marked = λ p.
        c.marked p
        ∙ ap (λ b. contains p (works_of rest) || b) (marked-stored s i a w p)
        ∙ or_rotate (contains p (works_of rest)) (a.work == p) (s.works p).convey;
    memblocks = c.memblocks;
    line_kept = c.line_kept;
    log = c.log;
    listed = c.listed;
    ids = λ p. c.ids p ∙ elim (Bool-cases (contains p (works_of rest))) [
      | inl later ↦ ground (arith, later)
      | inr not_later ↦ rw not_later (ids-stored s i a w p ∙ ground arith)
    ];
    store = c.store;
  }

  -- Where each page has a receive work of its own that awaits it, a batch of pages always comes in:
  -- the store then holds what its pages, put one after the other, make of what it held, each page
  -- is counted, filed and marked, and the blocks and the invariant are kept. No call is made.
  pub arrive_all-Came :
      (fuel : ℕ) (pages : List Arrival) (s : Server)
      → IsStore v s
      → AllAwaited v s pages
      → IsNodup (works_of pages)
      → (t : Server) × (arrive_all v fuel pages s ≡ ok tt t) × Came pages s t
  unfolding arrive_all
  arrive_all-Came fuel [] s i all nodup = (
    s,
    refl,
    record {
      shows = refl;
      count = omega arith;
      filed = λ p. refl;
      marked = λ p. refl;
      memblocks = refl;
      line_kept = refl;
      log = refl;
      listed = refl;
      ids = λ p. refl;
      store = i;
    },
  )
  arrive_all-Came fuel (a ∷ rest) s i all nodup =
      let w = all.0 in
      let m = stored v s i a w.block in
      let (t, e, c) =
        arrive_all-Came fuel rest m (stored-IsStore v s i a w)
          (stored-AllAwaited s i a w rest nodup.0 all.1) nodup.1 in
      (
        t,
        ap (λ r. and_then r (λ _. arrive_all v fuel rest)) (arrive-stored v s i fuel a w) ∙ e,
        Came-stored s i a w rest t c,
      )
