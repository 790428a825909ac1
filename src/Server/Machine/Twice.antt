-- ===== src/Server/Machine/Twice.antt =====
-- What is destroyed when the library's handlers are taken down.
use maruswap.Base.{
  ℕ, zero, suc, ◌≡◌, refl, ◌≢◌, ap, ◌∙◌, false, none, some, List, [], ◌∷◌, ◌==◌, set, get_or,
  Bool-cases, Option-cases, inl, inr, if◌then◌else◌, ne→==,
}
use maruswap.Base.Run.{ok}
use maruswap.Drive.Header.{max_memblock}
use maruswap.Server.State.{
  Call, History, Verbs, Server, destroy_event_channel, destroy_id, free, munmap, dereg_mr,
}
use maruswap.Server.Memblock.{memblock_size, memblock_die}
use maruswap.Server.Alloc.{die_each, rdma_memory_handler_die, multicast_buffer_size}
use maruswap.Server.Alloc.Buffers.{closed, closes}
use maruswap.Server.Machine.{
  Handler, GroupHandler, Machine, lend, freed, handlers_die, rdma_connection_die, release_if,
  multicast_memory_handler_die, multicast_connection_die, stop_handlers,
}

-- the event channels and the ids that a history destroys, the last one first
abbrev pub channels : History → List ℕ
channels [] = []
channels (destroy_event_channel c ∷ log) = c ∷ channels log
channels (_ ∷ log) = channels log

abbrev pub ids : History → List ℕ
ids [] = []
ids (destroy_id id ∷ log) = id ∷ ids log
ids (_ ∷ log) = ids log

-- on top of others, unless NULL
abbrev pub present : ℕ → List ℕ → List ℕ
present p l = if p == 0 then l else p ∷ l

abbrev pub handler_channels : List Handler → List ℕ → List ℕ
handler_channels [] l = l
handler_channels (h ∷ hs) l = handler_channels hs (present h.channel l)

abbrev pub handler_ids : List Handler → List ℕ → List ℕ
handler_ids [] l = l
handler_ids (h ∷ hs) l = handler_ids hs (present h.id l)

present-cons : (p : ℕ) (l : List ℕ) → p ≢ 0 → present p l ≡ p ∷ l
present-cons p l ne = rw (ne→== p 0 ne) refl

both_twice :
    (p q : ℕ) (l : List ℕ)
    → p ≢ 0
    → q ≢ 0
    → present p (p ∷ present q (present q l)) ≡ p ∷ p ∷ q ∷ q ∷ l
both_twice p q l np nq =
    present-cons p _ np
    ∙ ap (λ x. p ∷ p ∷ x) (present-cons q _ nq ∙ ap (λ x. q ∷ x) (present-cons q l nq))

abbrev logged : ℕ → Call → History → History
logged p c log = if p == 0 then log else c ∷ log

logged-same :
    (f : History → List ℕ) (p : ℕ) (c : Call) (log : History)
    → f (c ∷ log) ≡ f log
    → f (logged p c log) ≡ f log
logged-same f p c log h = elim (Bool-cases (p == 0)) [ inl e ↦ rw e refl | inr e ↦ rw e h ]

logged-channel :
    (p : ℕ) (log : History)
    → channels (logged p (destroy_event_channel p) log) ≡ present p (channels log)
logged-channel p log = elim (Bool-cases (p == 0)) [ inl e ↦ rw e refl | inr e ↦ rw e refl ]

logged-id : (p : ℕ) (log : History) → ids (logged p (destroy_id p) log) ≡ present p (ids log)
logged-id p log = elim (Bool-cases (p == 0)) [ inl e ↦ rw e refl | inr e ↦ rw e refl ]

-- an id, and then a channel, unless NULL
abbrev both : (id channel : ℕ) → History → History
both id channel log = logged channel (destroy_event_channel channel) (logged id (destroy_id id) log)

both-channels :
    (id channel : ℕ) (log : History)
    → channels (both id channel log) ≡ present channel (channels log)
both-channels id channel log =
    logged-channel channel _
    ∙ ap (present channel) (logged-same channels id (destroy_id id) log refl)

both-ids : (id channel : ℕ) (log : History) → ids (both id channel log) ≡ present id (ids log)
both-ids id channel log =
    logged-same ids channel (destroy_event_channel channel) _ refl ∙ logged-id id log

module _ (v : Verbs) where
  die_each-same :
      (n i : ℕ) (s : Server)
      → (t : Server) × (die_each v n i s ≡ ok tt t)
        × (channels t.log ≡ channels s.log)
        × (ids t.log ≡ ids s.log)
  unfolding die_each memblock_die
  die_each-same zero i s = (s, refl, refl, refl)
  die_each-same (suc n) i s = elim (Option-cases (get_or s.memblocks i none)) [
    | inl gone ↦ let (t, e, c, d) = die_each-same n (suc i) s in (t, rw gone e, c, d)
    | inr (mb, there) ↦
        let m : Server = record s {
          memblocks = set s.memblocks i none;
          log =
              Call.free mb.address ∷ Call.munmap mb.mr memblock_size ∷ Call.dereg_mr mb.mr ∷ s.log;
        } in
        let (t, e, c, d) = die_each-same n (suc i) m in (t, rw there e, c, d)
  ]

  -- one handler's end
  handler_die-destroys :
      (h : Handler) (s : Server)
      → (t : Server) × (rdma_memory_handler_die v h.rmh h.id h.channel s ≡ ok tt t)
        × (channels t.log ≡ present h.channel (channels s.log))
        × (ids t.log ≡ present h.id (ids s.log))
  handler_die-destroys h s =
      let (m, e, c, d) = die_each-same max_memblock 0 s in
      (
        closed v h.rmh h.id h.channel m,
        closes v h.rmh h.id h.channel s m e,
        both-channels h.id h.channel _ ∙ ap (present h.channel) c,
        both-ids h.id h.channel _ ∙ ap (present h.id) d,
      )

  -- What a part of the end did, of the channels and ids of a list of handlers.
  handlers_die-destroys :
      (hs : List Handler) (m : Machine)
      → m.rdma_memhandler_list ≡ hs
      → (t : Machine) × (handlers_die v hs m ≡ ok tt t)
        × (t.rdma_memhandler_list ≡ [])
        × (t.conn ≡ m.conn)
        × (t.multicast_memory_handler ≡ m.multicast_memory_handler)
        × (channels t.log ≡ handler_channels hs (channels m.log))
        × (ids t.log ≡ handler_ids hs (ids m.log))
  unfolding handlers_die freed
  handlers_die-destroys [] m h = (m, refl, h, refl, refl, refl, refl)
  handlers_die-destroys (x ∷ hs) m h =
      let (s, e, c, d) = handler_die-destroys x (lend x m) in
      let n : Machine = record m { rdma_memhandler_list = hs; log = s.log } in
      let (t, rest, none_left, conn, group, cs, is) = handlers_die-destroys hs n refl in
      (
        t,
        rw e rest,
        none_left,
        conn,
        group,
        cs ∙ ap (handler_channels hs) c,
        is ∙ ap (handler_ids hs) d,
      )

  release_if-logs :
      (p : ℕ) (c : Call) (m : Machine)
      → release_if v p c m ≡ ok tt (record m { log = logged p c m.log })
  unfolding release_if
  release_if-logs p c m = elim (Bool-cases (p == 0)) [ inl e ↦ rw e refl | inr e ↦ rw e refl ]

  abbrev shut : Machine → Machine
  shut n = record n {
    conn = record n.conn { event_channel = 0; rdma = 0; alive = false };
    log = both n.conn.rdma n.conn.event_channel n.log;
  }

  connection_closes :
      (m n : Machine)
      → handlers_die v m.rdma_memhandler_list m ≡ ok tt n
      → rdma_connection_die v m ≡ ok tt (shut n)
  unfolding rdma_connection_die
  connection_closes m n e = rw (e, release_if-logs, release_if-logs) refl

  -- Taking down the connections to the drivers always returns. It leaves no handler on the list and
  -- the library not alive, destroys the id and the channel of each handler, and then those of the
  -- connection itself: a channel that they share is destroyed once for each handler, and once more.
  pub rdma_connection_die-destroys :
      (m : Machine)
      → (t : Machine) × (rdma_connection_die v m ≡ ok tt t)
        × (t.rdma_memhandler_list ≡ [])
        × (t.conn ≡ record m.conn { event_channel = 0; rdma = 0; alive = false })
        × (t.multicast_memory_handler ≡ m.multicast_memory_handler)
        × (channels t.log
            ≡ present m.conn.event_channel
                (handler_channels m.rdma_memhandler_list (channels m.log)))
        × (ids t.log ≡ present m.conn.rdma (handler_ids m.rdma_memhandler_list (ids m.log)))
  rdma_connection_die-destroys m =
      let (n, e, none_left, conn, group, cs, is) =
        handlers_die-destroys m.rdma_memhandler_list m refl in
      let c = n.conn in
      (
        shut n,
        connection_closes m n e,
        none_left,
        rw conn refl,
        group,
        both-channels c.rdma c.event_channel n.log ∙ (λ i. present (conn i).event_channel (cs i)),
        both-ids c.rdma c.event_channel n.log ∙ (λ i. present (conn i).rdma (is i)),
      )

  abbrev group_log : GroupHandler → History → History
  group_log g log =
      both g.multicast g.channel
        (logged g.buffer (munmap g.buffer multicast_buffer_size) (logged g.mr (dereg_mr g.mr) log))

  group_log-same :
      (f : History → List ℕ) (g : GroupHandler) (log : History)
      → ((log : History) → f (munmap g.buffer multicast_buffer_size ∷ log) ≡ f log)
      → ((log : History) → f (dereg_mr g.mr ∷ log) ≡ f log)
      → f (
          logged g.buffer (munmap g.buffer multicast_buffer_size) (logged g.mr (dereg_mr g.mr) log))
        ≡ f log
  group_log-same f g log a b = logged-same f g.buffer _ _ (a _) ∙ logged-same f g.mr _ log (b log)

  multicast_connection_die-destroys :
      (g : GroupHandler) (m : Machine)
      → m.multicast_memory_handler ≡ some g
      → let c = m.conn in
        (t : Machine) × (multicast_connection_die v m ≡ ok tt t)
        × (t.rdma_memhandler_list ≡ m.rdma_memhandler_list)
        × (channels t.log ≡ present g.channel (c.multicast_event_channel ∷ channels m.log))
        × (ids t.log ≡ present g.multicast (c.multicast ∷ ids m.log))
  unfolding multicast_connection_die multicast_memory_handler_die
  multicast_connection_die-destroys g m h =
      let c = m.conn in
      let log1 = destroy_id c.multicast ∷ destroy_event_channel c.multicast_event_channel ∷ m.log in
      (
        record m {
          conn = record c { multicast_event_channel = 0; multicast = 0; alive = false };
          log = free g.mmh ∷ group_log g log1;
        },
        rw (h, release_if-logs, release_if-logs, release_if-logs, release_if-logs) refl,
        refl,
        both-channels g.multicast g.channel _
            ∙ ap (present g.channel) (group_log-same channels g log1 (λ l. refl) (λ l. refl)),
        both-ids g.multicast g.channel _
            ∙ ap (present g.multicast) (group_log-same ids g log1 (λ l. refl) (λ l. refl)),
      )

  -- Where one handler is left, and it and the group's handler were made from `rcm` and `mcm`, so
  -- that they share their channels and the group's id, the end of the handlers returns, but it
  -- destroys both channels twice, and the group's id twice.
  pub stop_handlers-twice :
      (h : Handler) (g : GroupHandler) (m : Machine)
      → let c = m.conn in
        m.rdma_memhandler_list ≡ h ∷ []
        → m.multicast_memory_handler ≡ some g
        → h.channel ≡ c.event_channel
        → g.channel ≡ c.multicast_event_channel
        → g.multicast ≡ c.multicast
        → c.event_channel ≢ 0
        → c.multicast_event_channel ≢ 0
        → c.multicast ≢ 0
        → (t : Machine) × (stop_handlers v m ≡ ok tt t)
          × (channels t.log
              ≡ c.multicast_event_channel
                ∷ c.multicast_event_channel
                ∷ c.event_channel
                ∷ c.event_channel
                ∷ channels m.log)
          × (ids t.log ≡ c.multicast ∷ c.multicast ∷ present c.rdma (present h.id (ids m.log)))
  unfolding stop_handlers
  stop_handlers-twice h g m list group hc gc gi ne1 ne2 ne3 =
      let c = m.conn in
      let (n, first, none_left, conn, same, cs, is) = rdma_connection_die-destroys m in
      let (t, second, list', cs', is') = multicast_connection_die-destroys g n (same ∙ group) in
      let l = channels m.log in
      let again = λ (x : List ℕ).
        present c.multicast_event_channel (c.multicast_event_channel ∷ present c.event_channel x) in
      let once = λ (x : List ℕ). present c.multicast (c.multicast ∷ present c.rdma x) in
      (
        t,
        rw (first, second) refl,
        cs'
            ∙ (λ i. present (gc i) ((conn i).multicast_event_channel ∷ cs i))
            ∙ ap (λ hs. again (handler_channels hs l)) list
            ∙ ap (λ x. again (present x l)) hc
            ∙ both_twice c.multicast_event_channel c.event_channel l ne2 ne1,
        is'
            ∙ (λ i. present (gi i) ((conn i).multicast ∷ is i))
            ∙ ap (λ hs. once (handler_ids hs (ids m.log))) list
            ∙ present-cons c.multicast _ ne3,
      )
