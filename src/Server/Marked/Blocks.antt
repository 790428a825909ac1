-- ===== src/Server/Marked/Blocks.antt =====
-- Marks and the memory blocks: lib/memblock.c, and `ib_convey_page` of lib/handler.c.
use maruswap.Base.{
  ℕ, ◌≡◌, Bool, true, false, not, none, some, [], ◌∷◌, ◌++◌, set, if◌then◌else◌, arith,
}
use maruswap.Base.Run.{Cmd, pure, ◌>>=◌, ◌>>◌, gets, modify, stop, test◌then◌else◌}
use maruswap.Drive.Net.{Wc}
use maruswap.Server.Header.{Fields, interpret_header}
use maruswap.Server.State.{Call, Verbs, Memblock, Server, tell}
use maruswap.Server.Memblock.{
  alloc_memblock, set_memblock, memblock_at, add_new_memblock, add_memblock,
}
use maruswap.Server.Convey.{convey_to, copy_page, convey_there, ensure_memblock, ib_convey_page}
use maruswap.Server.Marked.{
  Leaves, pure-Leaves, gets-Leaves, stop-Leaves, bind-Leaves, then-Leaves, modify-Leaves,
  option-Leaves, leaves,
}

module _ (v : Verbs) (work : ℕ) where
  memblock_at-Leaves : (id : ℕ) → Leaves work (memblock_at v id)
  unfolding memblock_at
  memblock_at-Leaves id = search leaves

  tell-Leaves : (c : Call) → Leaves work (tell c)
  tell-Leaves c = record {
    stays = λ s r t h marked. let e : t ≡ record s { log = c ∷ s.log } = cc in rw e marked;
  }

  alloc_memblock-Leaves : (id : ℕ) → Leaves work (alloc_memblock v id)
  unfolding alloc_memblock
  alloc_memblock-Leaves id = search (leaves, tell-Leaves) depth 9

  set_memblock-Leaves : (mb : Memblock) (pd : ℕ) → Leaves work (set_memblock v mb pd)
  unfolding set_memblock
  set_memblock-Leaves mb pd = search leaves

  abbrev install : (id : ℕ) → Memblock → Cmd Server Bool
  install id mb =
      modify (λ s. record s {
        memblock_list = s.memblock_list ++ (id ∷ []);
        memblocks = set s.memblocks id (some mb);
      })
      >> pure true

  install-Leaves : (id : ℕ) (mb : Memblock) → Leaves work (install id mb)
  install-Leaves id mb =
      then-Leaves work _ (pure true) (modify-Leaves work _ (λ s h. h)) (pure-Leaves work true)

  abbrev register : (id pd : ℕ) → Memblock → Cmd Server Bool
  register id pd mb = do
    registered ← set_memblock v mb pd
    elim registered [ none ↦ pure false | some mb ↦ install id mb ]

  register-Leaves : (id pd : ℕ) (mb : Memblock) → Leaves work (register id pd mb)
  register-Leaves id pd mb =
      bind-Leaves work (set_memblock v mb pd) _ (set_memblock-Leaves mb pd) (λ x.
        option-Leaves work x (pure false) (install id) (pure-Leaves work false) (install-Leaves id))

  add_new_memblock-Leaves : (id : ℕ) → Leaves work (add_new_memblock v id)
  unfolding add_new_memblock
  add_new_memblock-Leaves id =
      bind-Leaves work (alloc_memblock v id) _ (alloc_memblock-Leaves id) (λ x.
        bind-Leaves work (gets (λ s. s.pd)) _ (gets-Leaves work (λ s. s.pd)) (λ pd.
          option-Leaves work x (pure false) (register id pd) (pure-Leaves work false)
            (register-Leaves id pd)))

  add_memblock-Leaves : (id : ℕ) → Leaves work (add_memblock v id)
  unfolding add_memblock
  add_memblock-Leaves id = bind-Leaves work (memblock_at v id) _ (memblock_at-Leaves id) (λ x.
      option-Leaves work x (add_new_memblock v id) (λ mb. pure true) (add_new_memblock-Leaves id)
        (λ mb. pure-Leaves work true))

  ensure_memblock-Leaves : (id : ℕ) → Leaves work (ensure_memblock v id)
  unfolding ensure_memblock
  ensure_memblock-Leaves id = bind-Leaves work (memblock_at v id) _ (memblock_at-Leaves id) (λ x.
      option-Leaves work x (add_memblock v id) (λ mb. pure true) (add_memblock-Leaves id)
        (λ mb. pure-Leaves work true))

  -- A page that is conveyed marks its own receive work.
  convey_to-Leaves : (p offset : ℕ) (mb : Memblock) → Leaves work (convey_to v p offset mb)
  unfolding convey_to copy_page
  convey_to-Leaves p offset mb = record { stays = λ s r t h marked. ground (arith, marked) }

  convey_there-Leaves : (p nr offset : ℕ) → Leaves work (convey_there v p nr offset)
  unfolding convey_there
  convey_there-Leaves p nr offset =
      bind-Leaves work (memblock_at v nr) _ (memblock_at-Leaves nr) (λ x.
        option-Leaves work x stop (convey_to v p offset) (stop-Leaves work)
          (convey_to-Leaves p offset))

  convey_fields-Leaves :
      (p : ℕ) (f : Fields)
      → Leaves work (do
        ready ← ensure_memblock v f.nr_buffer
        test not ready then pure false else convey_there v p f.nr_buffer f.offset)
  convey_fields-Leaves p f = search (leaves, ensure_memblock-Leaves, convey_there-Leaves)

  pub ib_convey_page-Leaves : (wc : Wc) → Leaves work (ib_convey_page v wc)
  unfolding ib_convey_page
  ib_convey_page-Leaves wc =
      option-Leaves work (interpret_header wc.imm_data) (pure false) _ (pure-Leaves work false)
        (convey_fields-Leaves wc.wr_id)
