-- ===== src/Server/Worker/Drains.antt =====
-- lib/handler.c, `process_multicast_memory_work`: a turn of the worker, and its loop.
use mathlib.Core.Path.{fun_ext}
use maruswap.Base.{
  ℕ, zero, suc, ◌≡◌, ◌≢◌, refl, sym, ap, ◌∙◌, inl, inr, true, false, List, [], ◌∷◌, ◌==◌, contains,
  IsNodup, erase, Bool-cases, ==→eq, eq→==, ne→==, arith,
}
use maruswap.Base.Run.{Run, ok, Cmd, and_then, and_then-eq-ok}
use maruswap.Server.State.{Verbs, RecvWork, Server, change_work}
use maruswap.Server.Multicast.{ib_process_multicast_completion}
use maruswap.Server.Store.{Arrival, filled, completion, arrive, IsStore, Awaited, works_of}
use maruswap.Server.Store.Refine.{stored, arrive-stored, stored-IsStore, stored-Awaited}
use maruswap.Server.Store.Batch.{Came, Came-stored}
use maruswap.Server.Worker.{
  Worker, settle, process_work, process_each, work_round, process_multicast_memory_work,
}

-- A value put where it is.
change_work-same :
    (p : ℕ) (f : RecvWork → RecvWork) (s : Server)
    → f (s.works p) ≡ s.works p
    → change_work p f s ≡ s
change_work-same p f s h =
    ap (λ w. record s { works = w })
      (fun_ext λ q. elim (Bool-cases (q == p)) [
        | inl hit ↦ rw hit (rw (==→eq q p hit) h)
        | inr miss ↦ rw miss refl
      ])

module _ (v : Verbs) where
  -- A page has come, and its receive work holds it with its completion.
  pub record Queued (s : Server) (a : Arrival) : Type 0 where
    pub awaited : Awaited v s a
    pub page : (s.works a.work).page ≡ a.content
    pub wc : (s.works a.work).wc ≡ completion a

  abbrev pub AllQueued : Server → List Arrival → Type 0
  AllQueued s [] = Unit {0}
  AllQueued s (a ∷ rest) = Queued s a × AllQueued s rest

  process_work-stored :
      (fuel : ℕ) (s : Server) (i : IsStore v s) (a : Arrival) (q : Queued s a)
      → process_work v fuel a.work s ≡ ok tt (stored v s i a q.awaited.block)
  unfolding process_work arrive
  process_work-stored fuel s i a q =
      let there : filled a s ≡ s =
        change_work-same a.work (λ w. record w { page = a.content }) s
          (ap (λ (n : ℕ). record (s.works a.work) { page = n }) (sym q.page)) in
      ap (λ wc. ib_process_multicast_completion v fuel wc s) q.wc
      ∙ ap (ib_process_multicast_completion v fuel (completion a)) (sym there)
      ∙ arrive-stored v s i fuel a q.awaited

  stored-AllQueued :
      (s : Server) (i : IsStore v s) (a : Arrival) (w : Awaited v s a) (rest : List Arrival)
      → contains a.work (works_of rest) ≡ false
      → AllQueued s rest
      → AllQueued (stored v s i a w.block) rest
  stored-AllQueued s i a w [] new all = tt
  stored-AllQueued s i a w (b ∷ rest) new all =
      let ne : a.work ≢ b.work = ground (arith, new) in
      let miss = ne→== b.work a.work (λ e. ne (sym e)) in
      (
        record {
          awaited = stored-Awaited v s i a b w ne all.0.awaited;
          page = rw miss all.0.page;
          wc = rw miss all.0.wc;
        },
        stored-AllQueued s i a w rest (ground (arith, new)) all.1,
      )

  process_each-Came :
      (fuel : ℕ) (pages : List Arrival) (w : Worker)
      → IsStore v w.server
      → AllQueued w.server pages
      → IsNodup (works_of pages)
      → w.work_list ≡ works_of pages
      → (t : Server) × (process_each v fuel (works_of pages) w
          ≡ ok tt (record w { server = t; work_list = [] }))
        × Came v pages w.server t
  unfolding process_each settle
  process_each-Came fuel [] w i all nodup listed = (
    w.server,
    ap (λ (l : List ℕ). ok tt (record w { work_list = l })) listed,
    record {
      shows = refl;
      count = omega arith;
      filed = λ p. refl;
      marked = λ p. refl;
      memblocks = refl;
      line_kept = refl;
      log = refl;
      listed = refl;
      ids = λ p. refl;
      store = i;
    },
  )
  process_each-Came fuel (a ∷ rest) w i all nodup listed =
      let s = w.server in
      let q = all.0 in
      let m = stored v s i a q.awaited.block in
      let w' : Worker = record w { server = m; work_list = works_of rest } in
      let (t, e, c) =
        process_each-Came fuel rest w' (stored-IsStore v s i a q.awaited)
          (stored-AllQueued s i a q.awaited rest nodup.0 all.1) nodup.1 refl in
      let gone : erase a.work w.work_list ≡ works_of rest =
        ap (erase a.work) listed ∙ rw (eq→== a.work a.work refl) refl in
      let next =
        λ (r : Run Worker (Unit {0})). and_then r (λ _. process_each v fuel (works_of rest)) in
      (
        t,
        ap
              (λ (l : List ℕ).
                next (settle (record w { work_list = l }) (process_work v fuel a.work s)))
              gone
            ∙ ap
                (λ (r : Run Server (Unit {0})).
                  next (settle (record w { work_list = works_of rest }) r))
                (process_work-stored fuel s i a q)
            ∙ e,
        Came-stored v s i a q.awaited rest t c,
      )

  -- A turn that finds the lock free and, on its list, receive works that hold pages with their
  -- completions: it processes all of them, and leaves what the pages make when they come one after
  -- the other, with an empty list and the lock free.
  pub work_round-Came :
      (fuel : ℕ) (pages : List Arrival) (w : Worker)
      → IsStore v w.server
      → AllQueued w.server pages
      → IsNodup (works_of pages)
      → w.work_list ≡ works_of pages
      → w.work_lock ≡ false
      → (t : Server) × (work_round v fuel w
          ≡ ok tt (record w { server = t; work_list = []; work_lock = false }))
        × Came v pages w.server t
  unfolding work_round
  work_round-Came fuel pages w i all nodup listed free =
      let (t, e, c) =
        process_each-Came fuel pages (record w { work_list = works_of pages; work_lock = true }) i
          all nodup refl in
      (t, rw (free, listed, e) refl, c)

  -- Whatever the other threads do, the thread never returns.
  process_multicast_memory_work-endless :
      (other : Cmd Worker (Unit {0})) (polls fuel : ℕ) (w t : Worker)
      → process_multicast_memory_work v other polls fuel w ≢ ok tt t
  unfolding process_multicast_memory_work
  process_multicast_memory_work-endless other polls zero w t h = cc
  process_multicast_memory_work-endless other polls (suc n) w t h =
      let (_, a, _, h1) = and_then-eq-ok (work_round v polls w) _ h in
      let (_, b, _, h2) = and_then-eq-ok (other a) _ h1 in
      process_multicast_memory_work-endless other polls n b t h2
