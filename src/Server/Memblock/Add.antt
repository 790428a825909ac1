-- ===== src/Server/Memblock/Add.antt =====
-- lib/memblock.c: what `add_memblock` leaves.
use maruswap.Base.{
  ℕ, ◌<◌, ◌≡◌, refl, ◌≢◌, Bool, true, false, none, some, ◌==◌, length, get_or, set, inl, inr,
  get_or-set_self, length-set, [], ◌∷◌, ◌++◌, get_or-set_ne, lt→ltb, Bool-cases, Option-cases,
  arith,
}
use maruswap.Base.Run.{ok}
use maruswap.Drive.Header.{max_memblock}
use maruswap.Server.State.{Call, Verbs, Memblock, Server}
use maruswap.Server.Memblock.{
  memblock_size, alloc_memblock, set_memblock, memblock_at, add_new_memblock, add_memblock,
}

module _ (v : Verbs) where
  -- Where the block is, or that nothing has changed.
  pub data Added (nr : ℕ) (s t : Server) : Bool → Type 0 where
    present :
        (mb : Memblock)
        → get_or t.memblocks nr none ≡ some mb
        → ((i : ℕ) → nr ≢ i → get_or t.memblocks i none ≡ get_or s.memblocks i none)
        → length t.memblocks ≡ length s.memblocks
        → (get_or s.memblocks nr none ≡ none
            → (mb.buffer ≢ 0) × (mb.mr ≢ 0) × (mb.memblock_id ≡ nr))
        → Added nr s t true
    missing : t.memblocks ≡ s.memblocks → Added nr s t false

  -- the new block's entry in the array
  install-Added :
      (nr : ℕ) (mb : Memblock) (s t : Server)
      → nr < length s.memblocks
      → (mb.buffer ≢ 0) × (mb.mr ≢ 0) × (mb.memblock_id ≡ nr)
      → t.memblocks ≡ set s.memblocks nr (some mb)
      → Added nr s t true
  install-Added nr mb s t h fields e =
      present mb (rw (e, get_or-set_self s.memblocks nr (some mb) none h) refl)
        (λ i ne. rw (e, get_or-set_ne s.memblocks nr i (some mb) none ne) refl)
        (rw (e, length-set s.memblocks nr (some mb)) refl) (λ _. fields)

  add_new_memblock-Added :
      (nr : ℕ) (s : Server)
      → nr < length s.memblocks
      → (r : Bool) × (t : Server) × (add_new_memblock v nr s ≡ ok r t) × Added nr s t r
  unfolding add_new_memblock alloc_memblock set_memblock
  add_new_memblock-Added nr s h =
      let log1 = Call.malloc ∷ s.log in
      let log2 = Call.mmap memblock_size ∷ log1 in
      let mb = v.answer s.log Call.malloc in
      let buffer = v.answer log1 (Call.mmap memblock_size) in
      let reg = Call.reg_mr s.pd buffer memblock_size in
      let mr = v.answer log2 reg in
      let new : Memblock = record { address = mb; memblock_id = nr; buffer = buffer; mr = mr } in
      elim (Bool-cases (mb == 0)) [
        | inl null ↦ (false, record s { log = log1 }, rw null refl, missing refl)
        | inr got ↦ elim (Bool-cases (buffer == 0)) [
          | inl null ↦
              (false, record s { log = Call.free mb ∷ log2 }, rw (got, null) refl, missing refl)
          | inr mapped ↦ elim (Bool-cases (mr == 0)) [
            | inl null ↦
                (false, record s { log = reg ∷ log2 }, rw (got, mapped, null) refl, missing refl)
            | inr registered ↦
                let t : Server = record s {
                  log = reg ∷ log2;
                  memblock_list = s.memblock_list ++ (nr ∷ []);
                  memblocks = set s.memblocks nr (some new);
                } in
                (
                  true,
                  t,
                  rw (got, mapped, registered) refl,
                  install-Added nr new s t h (ground arith, ground arith, refl) refl,
                )
          ]
        ]
      ]

  -- For a number in range `add_memblock` always returns. If it returns true, the block is there: the one that was there,
  -- or a new one with a buffer, a registration and its number; every other entry is as it was. If
  -- it returns false, so is the whole array.
  pub add_memblock-Added :
      (nr : ℕ) (s : Server)
      → nr < max_memblock
      → length s.memblocks ≡ max_memblock
      → (r : Bool) × (t : Server) × (add_memblock v nr s ≡ ok r t) × Added nr s t r
  unfolding add_memblock memblock_at
  add_memblock-Added nr s h size = elim (Option-cases (get_or s.memblocks nr none)) [
    | inl new ↦
        let (r, t, e, added) = add_new_memblock-Added nr s (omega arith) in
        (r, t, rw (lt→ltb nr max_memblock h, new) e, added)
    | inr (mb, there) ↦ (
      true,
      s,
      rw (lt→ltb nr max_memblock h, there) refl,
      present mb there (λ i ne. refl) refl (λ new. cc),
    )
  ]
