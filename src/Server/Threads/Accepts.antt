-- ===== src/Server/Threads/Accepts.antt =====
-- A connect request whose calls all succeed.
use maruswap.Base.{
  ℕ, ◌+◌, ◌≡◌, refl, ap, ◌∙◌, Bool, true, false, Option, some, [], ◌∷◌, ◌++◌, ◌==◌, if◌then◌else◌,
  eq→==,
}
use maruswap.Base.Run.{Run, ok, Cmd, pure, and_then, test◌then◌else◌}
use maruswap.Server.Header.{page_size}
use maruswap.Server.State.{Call, Verbs, Server}
use maruswap.Server.Alloc.{multicast_work, mcm_max_recv_wr, multicast_buffer_size}
use maruswap.Server.Alloc.Willing.{Willing, post_works-posts, alloc_rdma_memory_handler-makes}
use maruswap.Server.Connect.{Conn}
use maruswap.Server.Machine.{
  Handler, GroupHandler, Machine, lend, take_back, on_found, find_handler, on_handler, built_group,
  post_group, register_group, alloc_multicast_memory_handler,
}
use maruswap.Server.Threads.{
  fresh, filed, make_handler, link, link_back, set_up_handlers, start_threads, init_handlers,
}
use maruswap.Server.Threads.Ready.{Ready, grouped, group_up, init_handlers-Ready}

goes_on :
    {A : Type 0} (b : Bool) (r q : Run Server A) → b ≡ false → elim b [ true ↦ r | false ↦ q ] ≡ q
goes_on b r q e = rw e refl

module _ (v : Verbs) (w : Willing v) where
  -- A group handler is made from `mcm`.
  abbrev Made : Run Server (Option GroupHandler) → Type 0
  Made r = (g : GroupHandler) × (t : Server) × (r ≡ ok (some g) t) × ((g.mmh == 0) ≡ false)

  post_group-Made :
      (mcm : Conn) (mmh buffer mr : ℕ) (s : Server)
      → (mmh == 0) ≡ false
      → Made (post_group v mcm mmh buffer mr s)
  unfolding post_group built_group
  post_group-Made mcm mmh buffer mr s there =
      let (t, e, same, free) =
        post_works-posts v w (multicast_work buffer) (v.id_qp mcm.multicast) mcm_max_recv_wr 0 s in
      let g : GroupHandler = record {
        mmh = mmh;
        rdma_memory_handler = 0;
        multicast = mcm.multicast;
        channel = mcm.multicast_event_channel;
        buffer = buffer;
        mr = mr;
      } in
      (g, t, rw e refl, there)

  register_group-Made :
      (mcm : Conn) (mmh buffer : ℕ) (s : Server)
      → (mmh == 0) ≡ false
      → Made (register_group v mcm mmh buffer s)
  unfolding register_group
  register_group-Made mcm mmh buffer s there =
      let pd = v.id_pd mcm.multicast in
      let reg = Call.reg_mr pd buffer multicast_buffer_size in
      let mr = v.answer s.log reg in
      let log1 = reg ∷ s.log in
      let more = v.answer log1 (Call.mmap page_size) in
      let log2 = Call.mmap page_size ∷ log1 in
      let m : Server = record s { log = Call.reg_mr pd more page_size ∷ log2 } in
      let (g, t, e, f) = post_group-Made mcm mmh buffer mr m there in
      (
        g,
        t,
        goes_on _ _ _ (w.reg_mr s.log pd buffer multicast_buffer_size)
            ∙ goes_on _ _ _ (w.mmap log1 page_size)
            ∙ goes_on _ _ _ (w.reg_mr log2 pd more page_size)
            ∙ e,
        f,
      )

  alloc_multicast_memory_handler-Made :
      (mcm : Conn) (s : Server) → Made (alloc_multicast_memory_handler v mcm s)
  unfolding alloc_multicast_memory_handler
  alloc_multicast_memory_handler-Made mcm s =
      let mmh = v.answer s.log Call.malloc in
      let log1 = Call.malloc ∷ s.log in
      let buffer = v.answer log1 (Call.mmap multicast_buffer_size) in
      let m : Server = record s {
        multicast_qp = v.id_qp mcm.multicast;
        multicast_send_cq = v.id_send_cq mcm.multicast;
        multicast_ah = mcm.ah;
        remote_qpn = mcm.remote_qpn;
        remote_qkey = mcm.remote_qkey;
        commit_list = [];
        lock = false;
        log = Call.mmap multicast_buffer_size ∷ log1;
      } in
      let (g, t, e, f) = register_group-Made mcm mmh buffer m (w.malloc s.log) in
      (
        g,
        t,
        goes_on _ _ _ (w.malloc s.log) ∙ goes_on _ _ _ (w.mmap log1 multicast_buffer_size) ∙ e,
        f,
      )

  -- A command that returns on the only handler returns on the library.
  on_handler-returns :
      {A : Type 0} (c : Cmd Server A) (x : Handler) (n : Machine) {a : A} {s : Server}
      → n.rdma_memhandler_list ≡ x ∷ []
      → c (lend x n) ≡ ok a s
      → (k : Machine) × (on_handler x.rmh c n ≡ ok a k)
  unfolding on_handler on_found find_handler take_back
  on_handler-returns c x n {a} {s} list h =
      let there : find_handler x.rmh n.rdma_memhandler_list ≡ some x =
        ap (find_handler x.rmh) list ∙ rw (eq→== x.rmh x.rmh refl) refl in
      (_, ap (on_found c n) there ∙ ap (take_back x n) h)

  start_threads-returns :
      (rmh : ℕ) (g : GroupHandler) (n : Machine)
      → (rmh == 0) ≡ false
      → (g.mmh == 0) ≡ false
      → (t : Machine) × (start_threads v rmh g n ≡ ok true t)
  unfolding start_threads set_up_handlers
  start_threads-returns rmh g n e f =
      let after : Machine = record n {
        rdma_memhandler_list = link v g.mmh rmh n.rdma_memhandler_list;
        multicast_memory_handler = link_back v rmh (some g);
        log = Call.create_thread ∷ Call.create_thread ∷ n.log;
      } in
      (after, rw (e, f) refl)

  make_handler-files :
      (id : ℕ) (m : Machine)
      → m.rdma_memhandler_list ≡ []
      → (x : Handler) × (n : Machine) × (make_handler v id m ≡ ok x.rmh n)
        × (n.rdma_memhandler_list ≡ x ∷ [])
        × ((x.rmh == 0) ≡ false)
  unfolding make_handler filed
  make_handler-files id m list =
      let (rmh, s, e, there) =
        alloc_rdma_memory_handler-makes v w id m.conn.rdma (fresh v id m.log) in
      let x : Handler = record {
        rmh = rmh;
        id = id;
        channel = m.conn.event_channel;
        mmh = 0;
        server = s;
      } in
      (
        x,
        record m {
          rdma_memhandler_list = m.rdma_memhandler_list ++ (x ∷ []);
          conn = record m.conn { nr_user = m.conn.nr_user + 1 };
          log = s.log;
        },
        ap (filed v id m) e ∙ rw there refl,
        ap (λ l. l ++ (x ∷ [])) list,
        there,
      )

  -- Where no handler is on the list and each call succeeds, a connect request succeeds, and leaves
  -- the two handlers, whose addresses are not NULL and each of which has the address of the other.
  -- They share the channels and the group's id with the connections, which have one more user.
  pub init_handlers-accepts :
      (m : Machine)
      → m.rdma_memhandler_list ≡ []
      → (t : Machine) × (init_handlers v m ≡ ok true t) × Ready m t
  unfolding init_handlers
  init_handlers-accepts m list =
      let (x, n, e, one, there) = make_handler-files (v.event_id m.log) m list in
      let (g, s, made, group) = alloc_multicast_memory_handler-Made n.conn (lend x n) in
      let (k, e2) = on_handler-returns (alloc_multicast_memory_handler v n.conn) x n one made in
      let (t, e3) = start_threads-returns x.rmh g k there group in
      let first =
        ap (λ r. and_then r (λ rmh. test rmh == 0 then pure false else group_up v rmh)) e in
      let all : init_handlers v m ≡ ok true t =
        first
        ∙ ap (λ b. (test b then pure false else group_up v x.rmh) n) there
        ∙ ap (λ r. and_then r (grouped v x.rmh)) e2
        ∙ e3 in
      (t, all, init_handlers-Ready v m {t = t} list all)
