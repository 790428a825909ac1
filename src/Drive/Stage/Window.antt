-- ===== src/Drive/Stage/Window.antt =====
-- drive/sib.c: the window of live slots in the ring of page copies.
use maruswap.Base.{
  ℕ, ◌+◌, ◌-◌, ◌*◌, ◌%◌, ◌≤◌, ◌<◌, ◌≡◌, refl, ◌≢◌, ◌∙◌, ◌⊎◌, inl, inr, true, false, some, List, [],
  ◌∷◌, ◌==◌, leb, if◌then◌else◌, Bool-cases, contains, arith,
}
use maruswap.Drive.Header.{config_batch, page_size}
use maruswap.Drive.Xarray.{Xarray}
use maruswap.Drive.Stage.{
  Stage, init_stage_buffer, stage_buffer_full, stage_buffer_count_add, drop_entry, put_entry,
  stage_buffer_store, stage_buffer_count_reset, clear_each, clear_stage_buffer_addr,
  stage_buffer_commit,
}

module _ (xa : Xarray) where
  open xa use {Arr, load, entries, load-empty, load-store, load-erase, visits}

  -- how many stores ago a slot was filled, counting from 0
  abbrev pub age : Stage Arr → ℕ → ℕ
  age st s = (st.index + (config_batch - 1) - s) % config_batch

  -- A slot of the ring that was filled at most `count` stores ago.
  abbrev pub Recent : Stage Arr → ℕ → Type 0
  Recent st p =
      (s : ℕ) × (s < config_batch) × (p ≡ st.buffer + s * page_size) × (age st s < st.count)

  pub record IsWindow (st : Stage Arr) : Type 0 where
    pub allocated : st.buffer ≢ 0
    pub index_lt : st.index < config_batch
    pub count_le : st.count ≤ config_batch
    pub live : (i : ℕ) → load st.check_list i ≢ 0 → Recent st (load st.check_list i)

  pub init-IsWindow :
      (memory : ℕ) (st : Stage Arr) → memory ≢ 0 → IsWindow (init_stage_buffer xa memory st).1
  unfolding init_stage_buffer
  init-IsWindow memory st h = record {
    allocated = ground arith;
    index_lt = ground arith;
    count_le = ground arith;
    live = λ i p. absurd (ground (arith, load-empty i));
  }

  pub drop_entry-IsWindow :
      {st : Stage Arr} (offset : ℕ) → IsWindow st → IsWindow (drop_entry xa st offset)
  unfolding drop_entry
  drop_entry-IsWindow {st} offset w = elim (Bool-cases (load st.check_list offset == 0)) [
    | inl gone ↦ rw gone w
    | inr there ↦ rw there (record {
      allocated = w.allocated;
      index_lt = w.index_lt;
      count_le = w.count_le;
      live = λ i p. still i p (Bool-cases (offset == i));
    })
  ]
    where
      still :
          (i : ℕ)
          → load (xa.erase st.check_list offset) i ≢ 0
          → ((offset == i) ≡ true) ⊎ ((offset == i) ≡ false)
          → Recent st (load (xa.erase st.check_list offset) i)
      still i p (inl hit) = absurd (p (rw (load-erase st.check_list offset i, hit)))
      still i p (inr miss) =
          let e : load (xa.erase st.check_list offset) i ≡ load st.check_list i =
            rw (load-erase st.check_list offset i, miss) in
          rw e (w.live i (rw e at p))

  pub put_entry-IsWindow :
      {st : Stage Arr} (content offset : ℕ)
      → IsWindow st
      → st.count < config_batch
      → IsWindow (put_entry xa st content offset)
  unfolding put_entry stage_buffer_count_add
  put_entry-IsWindow {st} content offset w room = record {
    allocated = w.allocated;
    index_lt = omega arith;
    count_le = omega arith;
    live = λ i p. aged i p (Bool-cases (offset == i));
  }
    where
      there : ℕ
      there = st.buffer + st.index * page_size

      after : ℕ → Type 0
      after q =
          (s : ℕ) × (s < config_batch)
          × (q ≡ st.buffer + s * page_size)
          × (((st.index + 1) % config_batch + (config_batch - 1) - s) % config_batch < st.count + 1)

      aged :
          (i : ℕ)
          → load (xa.store st.check_list offset there) i ≢ 0
          → ((offset == i) ≡ true) ⊎ ((offset == i) ≡ false)
          → after (load (xa.store st.check_list offset there) i)
      aged i p (inl hit) =
          let e : load (xa.store st.check_list offset there) i ≡ there =
            rw (load-store st.check_list offset there i, hit) in
          (st.index, w.index_lt, e, omega (arith, w.index_lt))
      aged i p (inr miss) =
          let e : load (xa.store st.check_list offset there) i ≡ load st.check_list i =
            rw (load-store st.check_list offset there i, miss) in
          let (s, lt, at, young) = w.live i (rw e at p) in
          (s, lt, e ∙ at, omega (arith, w.index_lt))

  -- Every store keeps the window, and faults in no state that has it.
  pub stage_buffer_store-IsWindow :
      {st : Stage Arr} (content offset : ℕ)
      → IsWindow st
      → (st' : Stage Arr) × (stage_buffer_store xa st content offset ≡ some st') × IsWindow st'
  unfolding stage_buffer_store stage_buffer_full
  stage_buffer_store-IsWindow {st} content offset w =
      elim (Bool-cases (leb config_batch st.count)) [
        | inl full ↦ (drop_entry xa st offset, rw full, drop_entry-IsWindow offset w)
        | inr room ↦ (
          put_entry xa st content offset,
          ground (arith, w.allocated),
          put_entry-IsWindow content offset w (ground arith),
        )
      ]

  -- A pass over indices erases those, and leaves the others.
  load-clear_each :
      (is : List ℕ) (a : Arr) (i : ℕ)
      → load (clear_each xa is a) i ≡ (if contains i is then 0 else load a i)
  unfolding clear_each
  load-clear_each [] a i = refl
  load-clear_each (j ∷ is) a i =
      ground
        (arith, load-clear_each is (if load a j == 0 then a else xa.erase a j) i, load-erase a j i)

  -- After a commit no page number has an entry.
  pub load-clear_stage_buffer_addr :
      (st : Stage Arr) (i : ℕ) → load (clear_stage_buffer_addr xa st).check_list i ≡ 0
  unfolding clear_stage_buffer_addr
  load-clear_stage_buffer_addr st i =
      ground
        (arith, load-clear_each (entries st.check_list) st.check_list i, visits st.check_list i)

  pub stage_buffer_commit-IsWindow :
      {st : Stage Arr} → IsWindow st → IsWindow (stage_buffer_commit xa st)
  unfolding stage_buffer_commit stage_buffer_count_reset clear_stage_buffer_addr
  stage_buffer_commit-IsWindow {st} w = record {
    allocated = w.allocated;
    index_lt = w.index_lt;
    count_le = omega arith;
    live = λ i p. absurd (p (load-clear_stage_buffer_addr st i));
  }
