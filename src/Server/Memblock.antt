-- ===== src/Server/Memblock.antt =====
-- lib/memblock.c: the memory blocks of the server.
pub mod Add
use maruswap.Base.{
  ℕ, ◌^◌, Bool, true, false, Option, none, some, [], ◌∷◌, ◌++◌, ◌==◌, ltb, get_or, set,
}
use maruswap.Base.Run.{Cmd, pure, ◌>>=◌, ◌>>◌, gets, modify, stop, test◌then◌else◌}
use maruswap.Drive.Header.{max_memblock}
use maruswap.Server.State.{Call, Verbs, Memblock, Server, tell, ask}

abbrev pub memblock_size : ℕ
memblock_size = 2 ^ 30

module _ (v : Verbs) where
  abbrev value : Call → Cmd Server ℕ
  value c = ask c (λ log. v.answer log c)

  -- `none` is NULL.
  unfoldable pub alloc_memblock : (id : ℕ) → Cmd Server (Option Memblock)
  alloc_memblock id = do
    mb ← value Call.malloc
    test mb == 0 then pure none else do
      buffer ← value (Call.mmap memblock_size)
      test buffer == 0
          then tell (Call.free mb) >> pure none
          else pure (some (record { address = mb; memblock_id = id; buffer = buffer; mr = 0 }))

  -- `none` is the return of false.
  unfoldable pub set_memblock : Memblock → (pd : ℕ) → Cmd Server (Option Memblock)
  set_memblock mb pd = do
    mr ← value (Call.reg_mr pd mb.buffer memblock_size)
    test mr == 0 then pure none else pure (some (record mb { mr = mr }))

  unfoldable pub memblock_die : Memblock → Cmd Server (Unit {0})
  memblock_die mb = do
    tell (Call.dereg_mr mb.mr)
    tell (Call.munmap mb.mr memblock_size)
    tell (Call.free mb.address)

  -- `memblocks[id]`, with a fault outside the array
  unfoldable pub memblock_at : (id : ℕ) → Cmd Server (Option Memblock)
  memblock_at id = test ltb id max_memblock then gets (λ s. get_or s.memblocks id none) else stop

  abbrev install : Memblock → (id : ℕ) → Cmd Server (Unit {0})
  install mb id = modify (λ s. record s {
    memblock_list = s.memblock_list ++ (id ∷ []);
    memblocks = set s.memblocks id (some mb);
  })

  unfoldable pub add_new_memblock : (id : ℕ) → Cmd Server Bool
  unfolding alloc_memblock set_memblock
  add_new_memblock id = do
    allocated ← alloc_memblock id
    pd ← gets (λ s. s.pd)
    elim allocated [
      | none ↦ pure false
      | some mb ↦ do
        registered ← set_memblock mb pd
        elim registered [ none ↦ pure false | some mb ↦ install mb id >> pure true ]
    ]

  unfoldable pub add_memblock : (id : ℕ) → Cmd Server Bool
  unfolding memblock_at add_new_memblock
  add_memblock id = do
    there ← memblock_at id
    elim there [ some mb ↦ pure true | none ↦ add_new_memblock id ]
