-- ===== src/Server/Threads/Refused.antt =====
-- A connect request that fails before the group has a handler.
use maruswap.Base.{
  ℕ, ◌≡◌, refl, ◌≢◌, ap, ◌∙◌, Bool, true, false, Option, none, some, ◌==◌, Bool-cases, inl, inr,
  ne→==, arith, if◌then◌else◌,
}
use maruswap.Base.Run.{
  Run, ok, fault, out_of_fuel, Cmd, pure, and_then, and_then-eq-ok, test◌then◌else◌,
}
use maruswap.Server.State.{Verbs, Server}
use maruswap.Server.Alloc.{alloc_rdma_memory_handler}
use maruswap.Server.Machine.{
  Handler, GroupHandler, Machine, lend, take_back, on_found, find_handler, on_handler,
  alloc_multicast_memory_handler, multicast_connection_die, stop_handlers,
}
use maruswap.Server.Machine.Twice.{rdma_connection_die-destroys}
use maruswap.Server.Threads.{
  event_connect_request, fresh, filed, make_handler, set_up_handlers, start_threads, init_handlers,
  rdma_event_handler,
}
use maruswap.Server.Threads.Made.{alloc_multicast_memory_handler-FromGroup}
use maruswap.Server.Threads.Ready.{grouped, group_up}

module _ (v : Verbs) where
  filed-keeps :
      (id : ℕ) (m : Machine) (r : Run Server ℕ) {rmh : ℕ} {n : Machine}
      → filed v id m r ≡ ok rmh n
      → n.multicast_memory_handler ≡ m.multicast_memory_handler
  unfolding filed
  filed-keeps id m (ok p s) h = elim (Bool-cases (p == 0)) [
    | inl null ↦ let h' = rw null at h in cc
    | inr got ↦ let h' = rw got at h in cc
  ]
  filed-keeps id m fault h = cc
  filed-keeps id m out_of_fuel h = cc

  take_back-keeps :
      {A : Type 0} (x : Handler) (n : Machine) (r : Run Server A) {a : A} {t : Machine}
      → take_back x n r ≡ ok a t
      → (s : Server) × (r ≡ ok a s) × (t.multicast_memory_handler ≡ n.multicast_memory_handler)
  unfolding take_back
  take_back-keeps x n (ok b s) h = (s, cc, cc)
  take_back-keeps x n fault h = cc
  take_back-keeps x n out_of_fuel h = cc

  -- A command on a handler ran on some handler, and kept the group's.
  on_handler-keeps :
      {A : Type 0} (c : Cmd Server A) (n : Machine) (found : Option Handler) {a : A} {t : Machine}
      → on_found c n found ≡ ok a t
      → (x : Handler) × (s : Server) × (c (lend x n) ≡ ok a s)
        × (t.multicast_memory_handler ≡ n.multicast_memory_handler)
  unfolding on_found
  on_handler-keeps c n none h = cc
  on_handler-keeps c n (some x) h =
      let (s, e, f) = take_back-keeps x n (c (lend x n)) h in (x, s, e, f)

  start_threads-true :
      (rmh : ℕ) (g : GroupHandler) (n : Machine) {t : Machine}
      → rmh ≢ 0
      → g.mmh ≢ 0
      → ¬ (start_threads v rmh g n ≡ ok false t)
  unfolding start_threads set_up_handlers
  start_threads-true rmh g n ne ne' h = let h' = rw (ne→== rmh 0 ne, ne→== g.mmh 0 ne') at h in cc

  grouped-none :
      (rmh : ℕ) (n k : Machine) (made : Option GroupHandler) {t : Machine}
      → rmh ≢ 0
      → n.multicast_memory_handler ≡ none
      → on_handler rmh (alloc_multicast_memory_handler v n.conn) n ≡ ok made k
      → grouped v rmh made k ≡ ok false t
      → t.multicast_memory_handler ≡ none
  unfolding on_handler
  grouped-none rmh n k none {t} ne there e h =
      let (x, s, r, same) =
        on_handler-keeps (alloc_multicast_memory_handler v n.conn) n
          (find_handler rmh n.rdma_memhandler_list) e in
      let f : t ≡ k = cc in ap (λ y. y.multicast_memory_handler) f ∙ same ∙ there
  grouped-none rmh n k (some g) ne there e h =
      let (x, s, r, same) =
        on_handler-keeps (alloc_multicast_memory_handler v n.conn) n
          (find_handler rmh n.rdma_memhandler_list) e in
      let (ch, mc, ne') = (alloc_multicast_memory_handler-FromGroup v n.conn (lend x n)).at r in
      absurd (start_threads-true rmh g k ne ne' h)

  group_up-none :
      (rmh : ℕ) (n : Machine) {t : Machine}
      → rmh ≢ 0
      → n.multicast_memory_handler ≡ none
      → group_up v rmh n ≡ ok false t
      → t.multicast_memory_handler ≡ none
  group_up-none rmh n {t} ne there h =
      let (made, k, e, h') =
        and_then-eq-ok (on_handler rmh (alloc_multicast_memory_handler v n.conn) n) (grouped v rmh)
          h in
      grouped-none rmh n k made {t = t} ne there e h'

  refused :
      (rmh : ℕ) (n : Machine) (b : Bool) {t : Machine}
      → (rmh == 0) ≡ b
      → n.multicast_memory_handler ≡ none
      → (test b then pure false else group_up v rmh) n ≡ ok false t
      → t.multicast_memory_handler ≡ none
  refused rmh n true {t} e there h =
      let f : t ≡ n = cc in ap (λ y. y.multicast_memory_handler) f ∙ there
  refused rmh n false e there h = group_up-none rmh n (ground (arith, e)) there h

  init_handlers-none :
      (m : Machine) {t : Machine}
      → m.multicast_memory_handler ≡ none
      → init_handlers v m ≡ ok false t
      → t.multicast_memory_handler ≡ none
  unfolding init_handlers make_handler
  init_handlers-none m {t} there h =
      let id = v.event_id m.log in
      let (rmh, n, e, h1) =
        and_then-eq-ok (make_handler v id m)
          (λ rmh. test rmh == 0 then pure false else group_up v rmh) h in
      let same =
        filed-keeps id m (alloc_rdma_memory_handler v id m.conn.rdma (fresh v id m.log)) e in
      refused rmh n (rmh == 0) refl (same ∙ there) h1

  stop_handlers-none : (m : Machine) → m.multicast_memory_handler ≡ none → stop_handlers v m ≡ fault
  unfolding stop_handlers multicast_connection_die
  stop_handlers-none m there =
      let (n, e, none_left, conn, same, cs, is) = rdma_connection_die-destroys v m in
      rw (e, same, there) refl

  -- A connect request that fails while the group has no handler makes the event handler fault: the
  -- end of the handlers reads the one that is not there.
  pub rdma_event_handler-init_handlers :
      (m : Machine) {t : Machine}
      → m.multicast_memory_handler ≡ none
      → init_handlers v m ≡ ok false t
      → rdma_event_handler v event_connect_request m ≡ fault
  unfolding rdma_event_handler
  rdma_event_handler-init_handlers m {t} there h =
      ap (λ r. and_then r (λ done. test done then pure tt else stop_handlers v)) h
      ∙ stop_handlers-none t (init_handlers-none m there h)
