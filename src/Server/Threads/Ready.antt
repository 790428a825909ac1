-- ===== src/Server/Threads/Ready.antt =====
-- What a connect request leaves, and what becomes of it when the handlers stop.
use maruswap.Base.{
  ℕ, ◌+◌, ◌≡◌, refl, ◌≢◌, sym, ap, ◌∙◌, Bool, true, false, Option, none, some, List, [], ◌∷◌, ◌++◌,
  ◌==◌, if◌then◌else◌, ne→==, eq→==, arith,
}
use maruswap.Base.Run.{ok, Cmd, and_then-eq-ok, pure, gets, ◌>>=◌, test◌then◌else◌}
use maruswap.Server.State.{Call, Verbs, Server}
use maruswap.Server.Alloc.{alloc_rdma_memory_handler}
use maruswap.Server.Machine.{
  Handler, GroupHandler, Machine, lend, on_handler, alloc_multicast_memory_handler, stop_handlers,
}
use maruswap.Server.Machine.Twice.{channels, ids, present, stop_handlers-twice}
use maruswap.Server.Threads.{
  fresh, make_handler, link, link_back, set_up_handlers, start_threads, init_handlers,
}
use maruswap.Server.Threads.Made.{
  alloc_multicast_memory_handler-FromGroup, filed-made, on_handler-only,
}

-- One handler is on the list and one is kept for the group. They point to each other, and share the
-- channels and the group's id with the connections, which have one more user.
pub record Ready (before after : Machine) : Type 0 where
  pub handler : Handler
  pub group : GroupHandler
  pub listed : after.rdma_memhandler_list ≡ handler ∷ []
  pub kept : after.multicast_memory_handler ≡ some group
  pub there : handler.rmh ≢ 0
  pub group_there : group.mmh ≢ 0
  pub linked : handler.mmh ≡ group.mmh
  pub points_back : group.rdma_memory_handler ≡ handler.rmh
  pub channel : handler.channel ≡ before.conn.event_channel
  pub group_channel : group.channel ≡ before.conn.multicast_event_channel
  pub multicast : group.multicast ≡ before.conn.multicast
  pub conn : after.conn ≡ record before.conn { nr_user = before.conn.nr_user + 1 }

-- a test that did not stop it
went :
    (b : Bool) (k : Cmd Machine Bool) (n : Machine) {t : Machine}
    → (test b then pure false else k) n ≡ ok true t
    → (b ≡ false) × (k n ≡ ok true t)
went true k n h = cc
went false k n h = (refl, h)

module _ (v : Verbs) where
  start_threads-links :
      (x : Handler) (g : GroupHandler) (n : Machine) {r : Bool} {t : Machine}
      → n.rdma_memhandler_list ≡ x ∷ []
      → x.rmh ≢ 0
      → g.mmh ≢ 0
      → start_threads v x.rmh g n ≡ ok r t
      → (t.rdma_memhandler_list ≡ record x { mmh = g.mmh } ∷ [])
        × (t.multicast_memory_handler ≡ some (record g { rdma_memory_handler = x.rmh }))
        × (t.conn ≡ n.conn)
  unfolding start_threads set_up_handlers link link_back
  start_threads-links x g n {r} {t} list ne ne' h =
      let put : link v g.mmh x.rmh n.rdma_memhandler_list ≡ record x { mmh = g.mmh } ∷ [] =
        ap (link v g.mmh x.rmh) list ∙ rw (eq→== x.rmh x.rmh refl) refl in
      let after : Machine = record n {
        rdma_memhandler_list = link v g.mmh x.rmh n.rdma_memhandler_list;
        multicast_memory_handler = link_back v x.rmh (some g);
        log = Call.create_thread ∷ Call.create_thread ∷ n.log;
      } in
      let h' : ok true after ≡ ok r t = rw (ne→== x.rmh 0 ne, ne→== g.mmh 0 ne') at h in
      let f : t ≡ after = cc in
      (
        ap (λ y. y.rdma_memhandler_list) f ∙ put,
        ap (λ y. y.multicast_memory_handler) f,
        ap (λ y. y.conn) f,
      )

  -- what follows the making of the group's handler, and of the driver's
  abbrev pub grouped : ℕ → Option GroupHandler → Cmd Machine Bool
  grouped rmh made = elim made [ none ↦ pure false | some g ↦ start_threads v rmh g ]

  abbrev pub group_up : ℕ → Cmd Machine Bool
  group_up rmh = do
    mcm ← gets (λ m. m.conn)
    made ← on_handler rmh (alloc_multicast_memory_handler v mcm)
    grouped rmh made

  started :
      {rmh id : ℕ} {s : Server} (m n k : Machine) (made : Option GroupHandler) {t : Machine}
      → let x : Handler = record {
        rmh = rmh;
        id = id;
        channel = m.conn.event_channel;
        mmh = 0;
        server = s;
      } in
        rmh ≢ 0
        → n.rdma_memhandler_list ≡ x ∷ []
        → n.conn ≡ record m.conn { nr_user = m.conn.nr_user + 1 }
        → on_handler rmh (alloc_multicast_memory_handler v n.conn) n ≡ ok made k
        → grouped rmh made k ≡ ok true t
        → Ready m t
  started m n k none ne listed conn e h = cc
  started {rmh} {id} {s} m n k (some g) {t} ne listed conn e h =
      let x : Handler = record {
        rmh = rmh;
        id = id;
        channel = m.conn.event_channel;
        mmh = 0;
        server = s;
      } in
      let (s', r, list, conn') =
        on_handler-only v (alloc_multicast_memory_handler v n.conn) x n listed e in
      let (ch, mc, ne') = (alloc_multicast_memory_handler-FromGroup v n.conn (lend x n)).at r in
      let (list2, group, conn2) =
        start_threads-links (record x { server = s' }) g k list ne ne' h in
      record {
        handler = record x { server = s'; mmh = g.mmh };
        group = record g { rdma_memory_handler = rmh };
        listed = list2;
        kept = group;
        there = ne;
        group_there = ne';
        linked = refl;
        points_back = refl;
        channel = refl;
        group_channel = ch ∙ ap (λ c. c.multicast_event_channel) conn;
        multicast = mc ∙ ap (λ c. c.multicast) conn;
        conn = conn2 ∙ conn' ∙ conn;
      }

  group_up-Ready :
      (id rmh : ℕ) (m n : Machine) {t : Machine}
      → m.rdma_memhandler_list ≡ []
      → rmh ≢ 0
      → make_handler v id m ≡ ok rmh n
      → group_up rmh n ≡ ok true t
      → Ready m t
  unfolding make_handler
  group_up-Ready id rmh m n {t} list ne e h =
      let (s, listed, conn) =
        filed-made v id m (alloc_rdma_memory_handler v id m.conn.rdma (fresh v id m.log)) e ne in
      let x : Handler = record {
        rmh = rmh;
        id = id;
        channel = m.conn.event_channel;
        mmh = 0;
        server = s;
      } in
      let (made, k, e2, h3) =
        and_then-eq-ok (on_handler rmh (alloc_multicast_memory_handler v n.conn) n) (grouped rmh)
          h in
      started {rmh = rmh} {id = id} {s = s} m n k made {t = t} ne
        (listed ∙ ap (λ l. l ++ (x ∷ [])) list) conn e2 h3

  -- Where no handler is on the list, a connect request that succeeds leaves the two handlers.
  pub init_handlers-Ready :
      (m : Machine) {t : Machine}
      → m.rdma_memhandler_list ≡ []
      → init_handlers v m ≡ ok true t
      → Ready m t
  unfolding init_handlers
  init_handlers-Ready m {t} list h =
      let id = v.event_id m.log in
      let (rmh, n, e, h1) =
        and_then-eq-ok (make_handler v id m)
          (λ rmh. test rmh == 0 then pure false else group_up rmh) h in
      let (got, h2) = went (rmh == 0) (group_up rmh) n h1 in
      let ne : rmh ≢ 0 = ground (arith, got) in group_up-Ready id rmh m n list ne e h2

  -- Where no handler was on the list and a connect request succeeded, on connections whose two
  -- channels and group's id are there, the end of the handlers returns with none on the list. It
  -- destroys the channel of the drivers twice, and then twice each the group's channel and id.
  pub stop_handlers-init_handlers :
      (m : Machine) {t : Machine}
      → let c = m.conn in
        m.rdma_memhandler_list ≡ []
        → init_handlers v m ≡ ok true t
        → c.event_channel ≢ 0
        → c.multicast_event_channel ≢ 0
        → c.multicast ≢ 0
        → (u : Machine) × (stop_handlers v t ≡ ok tt u)
          × (channels u.log
              ≡ c.multicast_event_channel
                ∷ c.multicast_event_channel
                ∷ c.event_channel
                ∷ c.event_channel
                ∷ channels t.log)
          × (rest : List ℕ) × (ids u.log ≡ c.multicast ∷ c.multicast ∷ rest)
  stop_handlers-init_handlers m {t} list h ne1 ne2 ne3 =
      let r = init_handlers-Ready m {t = t} list h in
      let ec = ap (λ c. c.event_channel) r.conn in
      let mc = ap (λ c. c.multicast_event_channel) r.conn in
      let mi = ap (λ c. c.multicast) r.conn in
      let (u, e, cs, is) =
        stop_handlers-twice v r.handler r.group t r.listed r.kept (r.channel ∙ sym ec)
          (r.group_channel ∙ sym mc) (r.multicast ∙ sym mi) (λ z. ne1 (sym ec ∙ z))
          (λ z. ne2 (sym mc ∙ z)) (λ z. ne3 (sym mi ∙ z)) in
      let rest = present t.conn.rdma (present r.handler.id (ids t.log)) in
      (
        u,
        e,
        cs ∙ (λ i. mc i ∷ mc i ∷ ec i ∷ ec i ∷ channels t.log),
        rest,
        is ∙ (λ i. mi i ∷ mi i ∷ rest),
      )
