-- ===== src/Server/Threads/Made.antt =====
-- What the two steps that make the handlers of a connect request leave.
use maruswap.Base.{
  ℕ, ◌+◌, ◌≡◌, refl, ◌≢◌, sym, ap, ◌∙◌, Bool, true, false, Option, none, some, [], ◌++◌, ◌∷◌, ◌==◌,
  Bool-cases, inl, inr, eq→==, arith,
}
use maruswap.Base.Run.{Run, ok, fault, out_of_fuel, and_then, Cmd}
use maruswap.Server.State.{Call, Verbs, Server}
use maruswap.Server.Header.{page_size}
use maruswap.Server.Alloc.{multicast_buffer_size}
use maruswap.Server.Connect.{Conn}
use maruswap.Server.Machine.{
  Handler, GroupHandler, Machine, find_handler, put_handler, lend, take_back, on_found, on_handler,
  alloc_multicast_memory_handler, register_group, post_group, built_group, out_error_mr,
}
use maruswap.Server.Threads.{filed}

module _ (v : Verbs) where
  -- A handler of the group that comes back has the channel and the id of `mcm`, and an address.
  pub record FromGroup (mcm : Conn) (r : Run Server (Option GroupHandler)) : Type 0 where
    pub at :
        {g : GroupHandler} {s : Server}
        → r ≡ ok (some g) s
        → (g.channel ≡ mcm.multicast_event_channel) × (g.multicast ≡ mcm.multicast) × (g.mmh ≢ 0)

  none-FromGroup : (mcm : Conn) (s : Server) → FromGroup mcm (ok none s)
  none-FromGroup mcm s = record { at = λ h. cc }

  either :
      (mcm : Conn) (b : Bool) (r q : Run Server (Option GroupHandler))
      → FromGroup mcm r
      → FromGroup mcm q
      → FromGroup mcm (elim b [ true ↦ r | false ↦ q ])
  either mcm true r q hr hq = hr
  either mcm false r q hr hq = hq

  built_group-FromGroup :
      (mcm : Conn) (mmh buffer mr : ℕ) (r : Run Server Bool)
      → mmh ≢ 0
      → FromGroup mcm (and_then r (built_group v mcm mmh buffer mr))
  unfolding built_group out_error_mr
  built_group-FromGroup mcm mmh buffer mr (ok true t) ne = record {
    at = λ h. ground (arith, ne, h);
  }
  built_group-FromGroup mcm mmh buffer mr (ok false t) ne = none-FromGroup mcm _
  built_group-FromGroup mcm mmh buffer mr fault ne = record { at = λ h. cc }
  built_group-FromGroup mcm mmh buffer mr out_of_fuel ne = record { at = λ h. cc }

  post_group-FromGroup :
      (mcm : Conn) (mmh buffer mr : ℕ) (s : Server)
      → mmh ≢ 0
      → FromGroup mcm (post_group v mcm mmh buffer mr s)
  unfolding post_group
  post_group-FromGroup mcm mmh buffer mr s ne = built_group-FromGroup mcm mmh buffer mr _ ne

  register_group-FromGroup :
      (mcm : Conn) (mmh buffer : ℕ) (s : Server)
      → mmh ≢ 0
      → FromGroup mcm (register_group v mcm mmh buffer s)
  unfolding register_group out_error_mr
  register_group-FromGroup mcm mmh buffer s ne =
      let pd = v.id_pd mcm.multicast in
      let reg = Call.reg_mr pd buffer multicast_buffer_size in
      let log1 = reg ∷ s.log in
      let log2 = Call.mmap page_size ∷ log1 in
      let more = v.answer log1 (Call.mmap page_size) in
      let reg2 = Call.reg_mr pd more page_size in
      let no = none-FromGroup mcm in
      let m : Server = record s { log = reg2 ∷ log2 } in
      either mcm (v.answer s.log reg == 0) _ _
        (no (record s { log = Call.munmap buffer multicast_buffer_size ∷ log1 }))
        (either mcm (more == 0) _ _ (no (record s { log = log2 })) (
          either mcm (v.answer log2 reg2 == 0) _ _ (no m)
            (post_group-FromGroup mcm mmh buffer (v.answer s.log reg) m ne)))

  pub alloc_multicast_memory_handler-FromGroup :
      (mcm : Conn) (s : Server) → FromGroup mcm (alloc_multicast_memory_handler v mcm s)
  unfolding alloc_multicast_memory_handler
  alloc_multicast_memory_handler-FromGroup mcm s =
      let mmh = v.answer s.log Call.malloc in
      let log1 = Call.malloc ∷ s.log in
      let m : Server = record s {
        multicast_qp = v.id_qp mcm.multicast;
        multicast_send_cq = v.id_send_cq mcm.multicast;
        multicast_ah = mcm.ah;
        remote_qpn = mcm.remote_qpn;
        remote_qkey = mcm.remote_qkey;
        commit_list = [];
        lock = false;
        log = Call.mmap multicast_buffer_size ∷ log1;
      } in
      elim (Bool-cases (mmh == 0)) [
        | inl null ↦ rw null (record { at = λ h. cc })
        | inr got ↦
            let ne : mmh ≢ 0 = ground (arith, got) in
            let buffer = v.answer log1 (Call.mmap multicast_buffer_size) in
            rw got (
              either mcm (buffer == 0) _ _ (none-FromGroup mcm m)
                (register_group-FromGroup mcm mmh buffer m ne))
      ]

  pub filed-made :
      (id : ℕ) (m : Machine) (r : Run Server ℕ) {rmh : ℕ} {n : Machine}
      → filed v id m r ≡ ok rmh n
      → rmh ≢ 0
      → (s : Server) × (n.rdma_memhandler_list
          ≡ m.rdma_memhandler_list
            ++ (record { rmh = rmh; id = id; channel = m.conn.event_channel; mmh = 0; server = s }
                ∷ []))
        × (n.conn ≡ record m.conn { nr_user = m.conn.nr_user + 1 })
  unfolding filed
  filed-made id m (ok p s) {rmh} {n} h ne =
      let added = λ (a : ℕ).
        m.rdma_memhandler_list
        ++ (record { rmh = a; id = id; channel = m.conn.event_channel; mmh = 0; server = s }
            ∷ []) in
      let after : Machine = record m {
        rdma_memhandler_list = added p;
        conn = record m.conn { nr_user = m.conn.nr_user + 1 };
        log = s.log;
      } in
      elim (Bool-cases (p == 0)) [
        | inl null ↦
            let h' : ok 0 (record m { log = s.log }) ≡ ok rmh n = rw null at h in
            let e : rmh ≡ 0 = cc in absurd (ne e)
        | inr got ↦
            let h' : ok p after ≡ ok rmh n = rw got at h in
            let e : p ≡ rmh = cc in
            let f : n ≡ after = cc in
            (s, ap (λ x. x.rdma_memhandler_list) f ∙ ap added e, ap (λ x. x.conn) f)
      ]
  filed-made id m fault h ne = cc
  filed-made id m out_of_fuel h ne = cc

  take_back-only :
      {A : Type 0} (x : Handler) (n : Machine) (r : Run Server A) {a : A} {t : Machine}
      → n.rdma_memhandler_list ≡ x ∷ []
      → take_back x n r ≡ ok a t
      → (s : Server) × (r ≡ ok a s)
        × (t.rdma_memhandler_list ≡ record x { server = s } ∷ [])
        × (t.conn ≡ n.conn)
  unfolding take_back put_handler
  take_back-only x n (ok b s) {a} {t} list h =
      let put : put_handler x.rmh (record x { server = s }) n.rdma_memhandler_list
          ≡ record x { server = s } ∷ [] =
        ap (put_handler x.rmh (record x { server = s })) list ∙ rw (eq→== x.rmh x.rmh refl) refl in
      let e : b ≡ a = cc in
      let after : Machine = record n {
        rdma_memhandler_list = put_handler x.rmh (record x { server = s }) n.rdma_memhandler_list;
        log = s.log;
      } in
      let f : t ≡ after = cc in
      (s, ap (λ y. ok y s) e, ap (λ y. y.rdma_memhandler_list) f ∙ put, ap (λ y. y.conn) f)
  take_back-only x n fault list h = cc
  take_back-only x n out_of_fuel list h = cc

  pub on_handler-only :
      {A : Type 0} (c : Cmd Server A) (x : Handler) (n : Machine) {a : A} {t : Machine}
      → n.rdma_memhandler_list ≡ x ∷ []
      → on_handler x.rmh c n ≡ ok a t
      → (s : Server) × (c (lend x n) ≡ ok a s)
        × (t.rdma_memhandler_list ≡ record x { server = s } ∷ [])
        × (t.conn ≡ n.conn)
  unfolding on_handler on_found find_handler
  on_handler-only c x n {a} {t} list h =
      let found : find_handler x.rmh (x ∷ []) ≡ some x = rw (eq→== x.rmh x.rmh refl) refl in
      let there : find_handler x.rmh n.rdma_memhandler_list ≡ some x =
        ap (find_handler x.rmh) list ∙ found in
      let h' : take_back x n (c (lend x n)) ≡ ok a t = ap (on_found c n) (sym there) ∙ h in
      let (s, e, f, g) = take_back-only x n (c (lend x n)) list h' in (s, e, f, g)
