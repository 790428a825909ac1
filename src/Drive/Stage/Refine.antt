-- ===== src/Drive/Stage/Refine.antt =====
-- The staged pages as a bounded map from page numbers to contents, and the ring as one such map.
use maruswap.Base.{
  ℕ, ◌+◌, ◌*◌, ◌<◌, ◌≡◌, refl, ◌≢◌, ◌↔◌, inl, inr, Option, none, some, List, [], ◌∷◌, ◌==◌, leb,
  if◌then◌else◌, Bool-cases, arith,
}
use maruswap.Drive.Header.{config_batch, page_size}
use maruswap.Drive.Xarray.{Xarray}
use maruswap.Drive.Stage.{
  Stage, init_stage_buffer, stage_buffer_full, stage_buffer_count_add, drop_entry, put_entry,
  stage_buffer_store, stage_buffer_load, stage_buffer_count_reset, stage_buffer_commit,
}
use maruswap.Drive.Stage.Window.{
  IsWindow, init-IsWindow, drop_entry-IsWindow, put_entry-IsWindow, stage_buffer_commit-IsWindow,
  load-clear_stage_buffer_addr,
}

-- The contract: the contents stored since the last commit, and how many stores took room.
pub record Staged : Type 0 where
  pub page : ℕ → Option ℕ
  pub used : ℕ

abbrev pub put : (ℕ → Option ℕ) → ℕ → Option ℕ → ℕ → Option ℕ
put m k v i = if k == i then v else m i

pub data Op : Type 0 where
  stores : (content offset : ℕ) → Op
  commits : Op

abbrev pub nothing : Staged
nothing = record { page = λ _. none; used = 0 }

-- A page that finds no room is forgotten, and so is what was staged for its number before.
pub apply : Staged → Op → Staged
apply m (stores c k) =
    if leb config_batch m.used
    then record m { page = put m.page k none }
    else record { page = put m.page k (some c); used = m.used + 1 }
apply m commits = nothing

pub apply_all : Staged → List Op → Staged
apply_all m [] = m
apply_all m (op ∷ ops) = apply_all (apply m op) ops

module _ (xa : Xarray) where
  open xa use {Arr, load, load-empty, load-store, load-erase}

  pub step : Stage Arr → Op → Option (Stage Arr)
  step st (stores c k) = stage_buffer_store xa st c k
  step st commits = some (stage_buffer_commit xa st)

  pub steps : Stage Arr → List Op → Option (Stage Arr)
  steps st [] = some st
  steps st (op ∷ ops) = elim (step st op) [ none ↦ none | some st' ↦ steps st' ops ]

  -- what a read of a page number gets from the buffer
  abbrev pub view : Stage Arr → ℕ → Option ℕ
  view st i = (stage_buffer_load xa st i).1

  view-drop_entry :
      (st : Stage Arr) (k i : ℕ)
      → view (drop_entry xa st k) i ≡ (if k == i then none else view st i)
  unfolding drop_entry stage_buffer_load
  view-drop_entry st k i = ground (arith, load-erase st.check_list k i)

  pub view-put_entry :
      (st : Stage Arr) (c k i : ℕ)
      → IsWindow xa st
      → st.count < config_batch
      → view (put_entry xa st c k) i ≡ (if k == i then some c else view st i)
  unfolding put_entry stage_buffer_load stage_buffer_count_add
  view-put_entry st c k i w room = elim (Bool-cases (load st.check_list i == 0)) [
    | inl gone ↦
        ground (arith, w.allocated, load-store st.check_list k (st.buffer + st.index * page_size) i)
    | inr there ↦
        let (s, lt, at, young) = w.live i (ground arith) in
        let apart : load st.check_list i ≢ st.buffer + st.index * page_size =
          λ e. omega (arith, w.index_lt) in
        ground (arith, w.allocated, load-store st.check_list k (st.buffer + st.index * page_size) i)
  ]

  pub count-put_entry : (st : Stage Arr) (c k : ℕ) → (put_entry xa st c k).count ≡ st.count + 1
  unfolding put_entry stage_buffer_count_add
  count-put_entry st c k = refl

  pub view-commit : (st : Stage Arr) (i : ℕ) → view (stage_buffer_commit xa st) i ≡ none
  unfolding stage_buffer_commit stage_buffer_count_reset stage_buffer_load
  view-commit st i = ground (arith, load-clear_stage_buffer_addr xa st i)

  pub count-commit : (st : Stage Arr) → (stage_buffer_commit xa st).count ≡ 0
  unfolding stage_buffer_commit stage_buffer_count_reset
  count-commit st = refl

  -- The ring stands for a map: its window is in order, and reads and room agree.
  pub record Stands (st : Stage Arr) (m : Staged) : Type 0 where
    pub window : IsWindow xa st
    pub reads : (i : ℕ) → view st i ≡ m.page i
    pub room : st.count ≡ m.used

  init-Stands :
      (memory : ℕ) (before : Stage Arr)
      → memory ≢ 0
      → Stands (init_stage_buffer xa memory before).1 nothing
  unfolding init_stage_buffer stage_buffer_load
  init-Stands memory before h = record {
    window = init-IsWindow xa memory before h;
    reads = λ i. ground (arith, load-empty i);
    room = ground arith;
  }

  null-iff_none :
      (st : Stage Arr) (i : ℕ)
      → ((stage_buffer_load xa st i).0 ≡ 0) ↔ ((stage_buffer_load xa st i).1 ≡ none)
  unfolding stage_buffer_load
  null-iff_none st i = (λ e. ground arith, λ e. ground arith)

  stores-Stands :
      {st : Stage Arr} {m : Staged} (c k : ℕ)
      → Stands st m
      → (st' : Stage Arr) × (stage_buffer_store xa st c k ≡ some st')
        × Stands st' (apply m (stores c k))
  unfolding apply stage_buffer_store stage_buffer_full
  stores-Stands {st} {m} c k h = elim (Bool-cases (leb config_batch m.used)) [
    | inl full ↦ (
      drop_entry xa st k,
      ground (arith, h.room),
      rw full (record {
        window = drop_entry-IsWindow xa k h.window;
        reads = λ i. ground (arith, view-drop_entry st k i, h.reads i);
        room = dropped;
      }),
    )
    | inr free ↦
        let less : st.count < config_batch = ground (arith, h.room) in
        (
          put_entry xa st c k,
          ground (arith, h.room, h.window.allocated),
          rw free (record {
            window = put_entry-IsWindow xa c k h.window less;
            reads = λ i. ground (arith, view-put_entry st c k i h.window less, h.reads i);
            room = counted;
          }),
        )
  ]
    where
      dropped : (drop_entry xa st k).count ≡ m.used
      dropped = unfold drop_entry in ground (arith, h.room)

      counted : (put_entry xa st c k).count ≡ m.used + 1
      counted = omega (arith, count-put_entry st c k, h.room)

  stage_buffer_commit-Stands :
      {st : Stage Arr} {m : Staged} → Stands st m → Stands (stage_buffer_commit xa st) nothing
  stage_buffer_commit-Stands {st} h = record {
    window = stage_buffer_commit-IsWindow xa h.window;
    reads = view-commit st;
    room = count-commit st;
  }

  step-Stands :
      {st : Stage Arr} {m : Staged} (op : Op)
      → Stands st m
      → (st' : Stage Arr) × (step st op ≡ some st') × Stands st' (apply m op)
  unfolding step apply
  step-Stands (stores c k) h = stores-Stands c k h
  step-Stands commits h = (_, refl, stage_buffer_commit-Stands h)

  steps-Stands :
      {st : Stage Arr} {m : Staged} (ops : List Op)
      → Stands st m
      → (st' : Stage Arr) × (steps st ops ≡ some st') × Stands st' (apply_all m ops)
  unfolding steps apply_all
  steps-Stands [] h = (_, refl, h)
  steps-Stands {st} {m} (op ∷ ops) h =
      let (st', e, h') = step-Stands op h in
      let (last, e', h'') = steps-Stands {st = st'} {m = apply m op} ops h' in
      (last, rw (e, steps) e', h'')

  -- Any history of stores and commits from a fresh buffer runs without a fault, and a read then
  -- gets what the contract's map holds: the content stored last for its page number since the last
  -- commit, unless a later store of that number found the buffer full; NULL when there is none.
  pub stage_buffer_refines :
      (memory : ℕ) (before : Stage Arr) (ops : List Op)
      → memory ≢ 0
      → (st : Stage Arr) × (steps (init_stage_buffer xa memory before).1 ops ≡ some st)
        × ((i : ℕ) → (stage_buffer_load xa st i).1 ≡ (apply_all nothing ops).page i)
        × ((i : ℕ) → ((stage_buffer_load xa st i).0 ≡ 0) ↔ ((apply_all nothing ops).page i ≡ none))
  stage_buffer_refines memory before ops h =
      let (st, e, s) = steps-Stands ops (init-Stands memory before h) in
      (st, e, s.reads, λ i. rw (← s.reads i) (null-iff_none st i))
