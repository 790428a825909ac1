-- ===== src/Server/Store/Refine.antt =====
-- lib/handler.c: one page that comes, and the abstract store.
use mathlib.Core.Path.{fun_ext}
use maruswap.Base.{
  ℕ, ◌+◌, ◌^◌, ◌≤◌, ◌<◌, ◌≡◌, refl, sym, ap, ◌∙◌, ◌≢◌, inl, inr, Bool, true, false, none, some,
  ◌==◌, ltb, get_or, if◌then◌else◌, Bool-cases, Option-cases, ltb→lt, ==→eq, eq→==, ne→==, arith,
}
use maruswap.Base.Run.{ok}
use maruswap.Drive.Header.{max_memblock, page_size, get_num_memblock, read_offset}
use maruswap.Protocol.RoundTrip.{mask18}
use maruswap.Protocol.Place.{pages_disjoint, get_num_memblock-in_bounds}
use maruswap.Server.State.{Verbs, Memblock, Server}
use maruswap.Server.Memblock.{memblock_size}
use maruswap.Server.Handler.Commit.{Counted}
use maruswap.Server.Multicast.Flow.{flowed, ib_process_multicast_completion-flowed, flowed-Counted}
use maruswap.Server.Store.{Arrival, filled, completion, arrive, IsStore, Awaited, put, view}

-- A page lies inside its block.
pub read_offset-le : (n : ℕ) → read_offset n + page_size ≤ memblock_size
unfolding read_offset
read_offset-le n = omega (arith, mask18 n)

pub in_range : (n : ℕ) → n < 2 ^ 25 → get_num_memblock n < max_memblock
in_range n h = (get_num_memblock-in_bounds n).1 (omega arith)

some-if : (b : Bool) (x y : ℕ) → some (if b then x else y) ≡ (if b then some x else some y)
some-if true x y = refl
some-if false x y = refl

module _ (v : Verbs) (s : Server) (i : IsStore v s) where
  -- Different page numbers have different places.
  place_ne :
      (n k : ℕ) (a b : Memblock)
      → n < 2 ^ 25
      → k < 2 ^ 25
      → n ≢ k
      → get_or s.memblocks (get_num_memblock n) none ≡ some a
      → get_or s.memblocks (get_num_memblock k) none ≡ some b
      → b.buffer + read_offset k ≢ a.buffer + read_offset n
  place_ne n k a b hn hk ne ha hb e = elim (Bool-cases (get_num_memblock n == get_num_memblock k)) [
    | inl same ↦
        let eq : get_num_memblock n ≡ get_num_memblock k =
          ==→eq (get_num_memblock n) (get_num_memblock k) same in
        let hb' : get_or s.memblocks (get_num_memblock n) none ≡ some b = rw eq hb in
        let blocks : a.buffer ≡ b.buffer = cc in
        elim (pages_disjoint n k (omega arith) (omega arith) ne) [
          | inl other ↦ absurd (other eq)
          | inr (inl before) ↦ omega arith
          | inr (inr after) ↦ omega arith
        ]
    | inr differ ↦
        elim (i.apart (get_num_memblock n) (get_num_memblock k) a b
          (λ eq. ground (arith, differ, eq)) ha hb) [
            | inl before ↦ omega (arith, read_offset-le n, read_offset-le k)
            | inr after ↦ omega (arith, read_offset-le n, read_offset-le k)
          ]
  ]

  -- The state after a page has come.
  abbrev pub stored : Arrival → Memblock → Server
  stored a mb = flowed v (completion a) a.number mb (filled a s)

  pub arrive-stored :
      (fuel : ℕ) (a : Arrival) (w : Awaited v s a) → arrive v fuel a s ≡ ok tt (stored a w.block)
  unfolding arrive
  arrive-stored fuel a w =
      let same = eq→== a.work a.work refl in
      ib_process_multicast_completion-flowed v fuel a.number (completion a) (filled a s) w.block
        refl (in_range a.number w.small) w.there i.free (rw same w.posted)

  -- The place that a page number has in block `b` is written if it is the page's number.
  memory-stored :
      (a : Arrival) (w : Awaited v s a) (k : ℕ) (b : Memblock)
      → k < 2 ^ 25
      → get_or s.memblocks (get_num_memblock k) none ≡ some b
      → (stored a w.block).memory (b.buffer + read_offset k)
        ≡ (if a.number == k then a.content else s.memory (b.buffer + read_offset k))
  memory-stored a w k b hk there =
      let same = eq→== a.work a.work refl in
      elim (Bool-cases (a.number == k)) [
        | inl hit ↦
            let eq : a.number ≡ k = ==→eq a.number k hit in
            let there' : get_or s.memblocks (get_num_memblock a.number) none ≡ some b =
              rw eq there in
            let block : w.block.buffer ≡ b.buffer = cc in
            let place : (b.buffer + read_offset k == w.block.buffer + read_offset a.number) ≡ true =
              eq→== _ _ (rw (eq, block) refl) in
            rw (hit, place, same) refl
        | inr miss ↦
            let ne : a.number ≢ k = ground (arith, miss) in
            let place : (b.buffer + read_offset k == w.block.buffer + read_offset a.number)
                ≡ false =
              ne→== _ _ (place_ne a.number k w.block b w.small hk ne w.there there) in
            rw (miss, place) refl
      ]

  block_there :
      (a : Arrival) (w : Awaited v s a) (k : ℕ)
      → get_or s.memblocks (get_num_memblock k) none ≡ none
      → a.number ≢ k
  block_there a w k gone eq =
      let there : get_or s.memblocks (get_num_memblock k) none ≡ some w.block = rw (← eq) w.there in
      cc

  pub view-stored :
      (a : Arrival) (w : Awaited v s a) → view (stored a w.block) ≡ put a.number a.content (view s)
  view-stored a w = fun_ext λ k. elim (Bool-cases (ltb k (2 ^ 25))) [
    | inr large ↦
        let miss : (a.number == k) ≡ false = ground (arith, w.small, large) in rw (large, miss) refl
    | inl small ↦ elim (Option-cases (get_or s.memblocks (get_num_memblock k) none)) [
      | inl gone ↦
          let miss : (a.number == k) ≡ false = ne→== _ _ (block_there a w k gone) in
          rw (small, gone, miss) refl
      | inr (b, there) ↦
          rw (small, there)
            (ap some (memory-stored a w k b (ltb→lt k (2 ^ 25) small) there)
              ∙ some-if (a.number == k) a.content (s.memory (b.buffer + read_offset k)))
    ]
  ]

  filled-Counted : (a : Arrival) → Counted v (filled a s)
  filled-Counted a = record {
    nodup = i.counted.nodup;
    conveyed = λ p hp. ground (arith, hp, i.counted.conveyed p);
    counted = i.counted.counted;
  }

  pub stored-IsStore : (a : Arrival) (w : Awaited v s a) → IsStore v (stored a w.block)
  stored-IsStore a w = record {
    apart = i.apart;
    free = refl;
    counted =
        flowed-Counted v (completion a) a.number w.block (filled a s) (filled-Counted a)
          w.not_filed;
  }

  -- A page that waits for another receive work still does.
  pub stored-Awaited :
      (a b : Arrival) (w : Awaited v s a)
      → a.work ≢ b.work
      → Awaited v s b
      → Awaited v (stored a w.block) b
  stored-Awaited a b w ne u = record {
    posted = rw (ne→== b.work a.work (λ e. ne (sym e))) u.posted;
    not_filed = rw (ne→== a.work b.work ne) u.not_filed;
    small = u.small;
    block = u.block;
    there = u.there;
  }
