-- ===== src/Drive/Stage.antt =====
-- drive/sib.c: the ring of page copies that answers a read until the next commit.
pub mod Window
pub mod Refine
use maruswap.Base.{
  ℕ, ◌+◌, ◌*◌, ◌%◌, ◌^◌, ◌≡◌, Bool, true, false, Option, none, some, List, [], ◌∷◌, ◌==◌, leb,
  if◌then◌else◌,
}
use maruswap.Drive.Header.{config_batch, page_size}
use maruswap.Drive.Xarray.{Xarray}

-- `struct stage_buffer_t`. `slot` is the memory behind `buffer`: the copy that starts at an address.
pub record Stage (Arr : Type 0) : Type 0 where
  pub buffer : ℕ
  pub slot : ℕ → ℕ
  pub index : ℕ
  pub check_list : Arr
  pub count : ℕ

module _ (xa : Xarray) where
  open xa use {Arr, empty, load, store, erase, entries}

  -- The value returned, and the buffer. `memory` is the result of `kzalloc`, 0 if it fails: then
  -- the function returns 0 all the same, and the other fields stay as they were.
  unfoldable pub init_stage_buffer : (memory : ℕ) → Stage Arr → ℕ × Stage Arr
  init_stage_buffer memory st =
      if memory == 0
      then (0, record st { buffer = 0 })
      else (0, record { buffer = memory; slot = λ _. 0; index = 0; check_list = empty; count = 0 })

  unfoldable pub stage_buffer_full : Stage Arr → Bool
  stage_buffer_full st = leb config_batch st.count

  unfoldable pub stage_buffer_count_add : Stage Arr → Stage Arr
  stage_buffer_count_add st = record st { count = st.count + 1 }

  unfoldable pub stage_buffer_count_reset : Stage Arr → Stage Arr
  stage_buffer_count_reset st = record st { count = 0 }

  -- the branch of a full buffer
  unfoldable pub drop_entry : Stage Arr → (offset : ℕ) → Stage Arr
  drop_entry st offset =
      if load st.check_list offset == 0
      then st
      else record st { check_list = erase st.check_list offset }

  -- the branch with room: copy, record the copy's address, count
  unfoldable pub put_entry : Stage Arr → (content offset : ℕ) → Stage Arr
  unfolding stage_buffer_count_add
  put_entry st content offset =
      let dst_buf = st.buffer + st.index * page_size in
      stage_buffer_count_add (record st {
        index = (st.index + 1) % config_batch;
        slot = λ p. if dst_buf == p then content else st.slot p;
        check_list = store st.check_list offset dst_buf;
      })

  -- `content` is what `page_address(page)` holds; `none` is the fault of a copy to NULL + i.
  unfoldable pub stage_buffer_store : Stage Arr → (content offset : ℕ) → Option (Stage Arr)
  unfolding stage_buffer_full
  stage_buffer_store st content offset =
      if stage_buffer_full st
      then some (drop_entry st offset)
      else if st.buffer == 0
      then none
      else some (put_entry st content offset)

  -- The returned pointer, and what is copied to the page: nothing if it is NULL.
  unfoldable pub stage_buffer_load : Stage Arr → (offset : ℕ) → ℕ × Option ℕ
  stage_buffer_load st offset =
      let src_buf = load st.check_list offset in
      if src_buf == 0 then (0, none) else (src_buf, some (st.slot src_buf))

  -- The body of `xa_for_each` at each index that is visited.
  unfoldable pub clear_each : List ℕ → Arr → Arr
  clear_each [] a = a
  clear_each (i ∷ is) a = clear_each is (if load a i == 0 then a else erase a i)

  unfoldable pub clear_stage_buffer_addr : Stage Arr → Stage Arr
  unfolding clear_each
  clear_stage_buffer_addr st = record st {
    check_list = clear_each (entries st.check_list) st.check_list;
  }

  -- What a commit does with the buffer, whether or not the servers answered.
  unfoldable pub stage_buffer_commit : Stage Arr → Stage Arr
  unfolding clear_stage_buffer_addr stage_buffer_count_reset
  stage_buffer_commit st = stage_buffer_count_reset (clear_stage_buffer_addr st)
