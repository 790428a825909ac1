-- ===== src/Server/Alloc/Buffers.antt =====
-- Which receive works lie inside the buffers that are registered for them.
use maruswap.Base.{
  ℕ, zero, suc, ◌+◌, ◌≤◌, ◌<◌, ◌≡◌, refl, ◌↔◌, inl, inr, Option, none, List, get_or, set, length,
  length-set, get_or-set_ne, get_or-beyond, Option-cases, Bool-cases, ==→eq, [], ◌∷◌, ◌∙◌, ltb,
  if◌then◌else◌, ◌==◌, arith,
}
use maruswap.Base.Run.{ok}
use maruswap.Drive.Header.{max_memblock}
use maruswap.Server.State.{Call, Verbs, Memblock, Server}
use maruswap.Server.Memblock.{memblock_size, memblock_die}
use maruswap.Server.Alloc.{
  mcm_max_recv_wr, rpc_buffer_size, multicast_buffer_size, rpc_work, multicast_work, die_each,
  rdma_memory_handler_die,
}

-- Of the receive works that are posted for the driver, just the first 1088 lie inside the buffer
-- that is registered for them. All of those for the multicast group do.
pub works_in_bounds :
    (base i : ℕ)
    → i < mcm_max_recv_wr
    → ((rpc_work base i).buffer + (rpc_work base i).size ≤ base + rpc_buffer_size ↔ i < 1088)
      × ((multicast_work base i).buffer + (multicast_work base i).size
          ≤ base + multicast_buffer_size)
unfolding rpc_work multicast_work
works_in_bounds base i h = ((λ k. omega arith, λ k. omega arith), omega arith)

get_or-set-none : (xs : List (Option Memblock)) (i : ℕ) → get_or (set xs i none) i none ≡ none
get_or-set-none [] i = refl
get_or-set-none (x ∷ xs) zero = refl
get_or-set-none (x ∷ xs) (suc i) = get_or-set-none xs i

module _ (v : Verbs) where
  -- The blocks from `i` on are dropped, those before it kept.
  die_each-drops :
      (n i : ℕ) (s : Server)
      → (t : Server) × (die_each v n i s ≡ ok tt t)
        × (length t.memblocks ≡ length s.memblocks)
        × ((j : ℕ) → j < i → get_or t.memblocks j none ≡ get_or s.memblocks j none)
        × ((j : ℕ) → i ≤ j → j < i + n → get_or t.memblocks j none ≡ none)
  unfolding die_each memblock_die
  die_each-drops zero i s = (s, refl, refl, (λ j h. refl), λ j h k. absurd (omega arith))
  die_each-drops (suc n) i s = elim (Option-cases (get_or s.memblocks i none)) [
    | inl gone ↦
        let (t, e, len, before, after) = die_each-drops n (suc i) s in
        (
          t,
          rw gone e,
          len,
          (λ j h. before j (omega arith)),
          λ j h k. from_here j t (before i (omega arith) ∙ gone) after h k,
        )
    | inr (mb, there) ↦
        let m : Server = record s {
          memblocks = set s.memblocks i none;
          log =
              Call.free mb.address ∷ Call.munmap mb.mr memblock_size ∷ Call.dereg_mr mb.mr ∷ s.log;
        } in
        let (t, e, len, before, after) = die_each-drops n (suc i) m in
        (
          t,
          rw there e,
          omega (arith, len, length-set s.memblocks i none),
          (λ j h. before j (omega arith) ∙ get_or-set_ne s.memblocks i j none none (omega arith)),
          λ j h k. from_here j t (before i (omega arith) ∙ get_or-set-none s.memblocks i) after h k,
        )
  ]
    where
      from_here :
          (j : ℕ) (t : Server)
          → get_or t.memblocks i none ≡ none
          → ((j : ℕ) → suc i ≤ j → j < suc i + n → get_or t.memblocks j none ≡ none)
          → i ≤ j
          → j < i + suc n
          → get_or t.memblocks j none ≡ none
      from_here j t gone after h k = elim (Bool-cases (i == j)) [
        | inl e ↦ rw⁻¹ (==→eq i j e) gone
        | inr ne ↦ after j (ground arith) (omega arith)
      ]

  abbrev pub closed : (rmh id channel : ℕ) → Server → Server
  closed rmh id channel m =
      let log1 = Call.dereg_mr m.rpc_mr ∷ m.log in
      let log2 = if id == 0 then log1 else Call.destroy_id id ∷ log1 in
      let log3 = if channel == 0 then log2 else Call.destroy_event_channel channel ∷ log2 in
      record m { log = Call.free rmh ∷ Call.munmap m.rpc_buffer rpc_buffer_size ∷ log3 }

  pub closes :
      (rmh id channel : ℕ) (s m : Server)
      → die_each v max_memblock 0 s ≡ ok tt m
      → rdma_memory_handler_die v rmh id channel s ≡ ok tt (closed rmh id channel m)
  unfolding rdma_memory_handler_die
  closes rmh id channel s m e = elim (Bool-cases (id == 0)) [
    | inl a ↦ elim (Bool-cases (channel == 0)) [
      | inl b ↦ rw (e, a, b) refl
      | inr b ↦ rw (e, a, b) refl
    ]
    | inr a ↦ elim (Bool-cases (channel == 0)) [
      | inl b ↦ rw (e, a, b) refl
      | inr b ↦ rw (e, a, b) refl
    ]
  ]

  -- Taking a handler down always returns; every entry of its block array is then NULL.
  pub rdma_memory_handler_die-empties :
      (rmh id channel : ℕ) (s : Server)
      → length s.memblocks ≡ max_memblock
      → (t : Server) × (rdma_memory_handler_die v rmh id channel s ≡ ok tt t)
        × (length t.memblocks ≡ max_memblock)
        × ((j : ℕ) → get_or t.memblocks j none ≡ none)
  rdma_memory_handler_die-empties rmh id channel s size =
      let (m, e, len, before, after) = die_each-drops max_memblock 0 s in
      (
        closed rmh id channel m,
        closes rmh id channel s m e,
        omega (arith, len),
        λ j. elim (Bool-cases (ltb j max_memblock)) [
          | inl lt ↦ after j (omega arith) (ground arith)
          | inr ge ↦ get_or-beyond m.memblocks j none (ground (arith, len))
        ],
      )
