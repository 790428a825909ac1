-- ===== src/Server/Connect/Opened.antt =====
-- lib/ib.c: what an attempt to connect, of a server or a client, leaves.
use maruswap.Base.{
  ℕ, ◌≡◌, refl, ◌≢◌, ◌⊎◌, inl, inr, Bool, true, false, ◌∷◌, ◌==◌, Bool-cases, ==→eq, arith,
}
use maruswap.Base.Run.{ok, Cmd}
use maruswap.Server.State.{Call, History, Verbs}
use maruswap.Server.Connect.{
  Conn, max_rdma_user, event_addr_resolved, event_route_resolved, event_established, out_error,
  out_error_bind, create_id, listen_on, attempt, ib_rdma_server_connect,
}

module _ (v : Verbs) where
  -- Open on channel `c`, as `P` says, or closed: both pointers are NULL, and the last call
  -- destroyed `c`.
  pub data Done (c : ℕ) (P : Conn → Type 0) (t : Conn) : Bool → Type 0 where
    open_now : t.event_channel ≡ c → P t → Done c P t true
    shut :
        (log : History)
        → t.event_channel ≡ 0
        → t.rdma ≡ 0
        → t.log ≡ Call.destroy_event_channel c ∷ log
        → Done c P t false

  -- what an open connection comes from
  abbrev pub Rises : Type 1
  Rises = Conn → Conn → Type 0

  -- A request that was taken, whose event was the one awaited, and what comes after it.
  abbrev pub Step : Call → (expect : ℕ) → Rises → Rises
  Step request expect P s t =
      let log = Call.get_cm_event s.event_channel ∷ request ∷ s.log in
      (v.answer s.log request ≡ 0)
      × (v.event log ≡ expect)
      × P (record s { log = Call.ack_cm_event ∷ log }) t

  abbrev Same : Rises
  Same s t = t ≡ s

  -- the queue pair, and the connection
  abbrev pub WithQp : (id : ℕ) → Rises
  WithQp id s t =
      (v.answer s.log (Call.create_qp id) ≡ 0)
      × Step (Call.connect id) event_established Same (record s { log = Call.create_qp id ∷ s.log })
          t

  -- A client is connected: the address, the route and the queue pair came before, each taken, and
  -- no other call was made.
  abbrev pub Connected : Rises
  Connected s t =
      let id = s.rdma in
      Step (Call.resolve_addr id 10) event_addr_resolved
        (Step (Call.resolve_route id 2000) event_route_resolved (WithQp id)) s t

  -- A server is bound and listens.
  abbrev pub Listening : Rises
  Listening s t =
      let log = Call.bind_addr s.rdma ∷ s.log in
      (v.answer s.log (Call.bind_addr s.rdma) ≡ 0)
      × (v.answer log (Call.listen s.rdma max_rdma_user) ≡ 0)
      × (t ≡ record s { log = Call.listen s.rdma max_rdma_user ∷ log })

  -- A command that always returns, and is done in one of these ways.
  abbrev pub Ends : (c : ℕ) → Rises → Cmd Conn Bool → Type 0
  Ends c P m =
      (s : Conn) → s.event_channel ≡ c → (r : Bool) × (t : Conn) × (m s ≡ ok r t) × Done c (P s) t r

  -- The way out, whatever was hoped for.
  abbrev Shuts : (c : ℕ) → Cmd Conn Bool → Type 1
  Shuts c m =
      (P : Conn → Type 0) (s : Conn)
      → s.event_channel ≡ c
      → (r : Bool) × (t : Conn) × (m s ≡ ok r t) × Done c P t r

  out_error_bind-Ends : (c : ℕ) → Shuts c (out_error_bind v)
  unfolding out_error_bind out_error
  out_error_bind-Ends c P s h = (
    false,
    record s {
      rdma = 0;
      event_channel = 0;
      log = Call.destroy_event_channel s.event_channel ∷ Call.destroy_id s.rdma ∷ s.log;
    },
    refl,
    shut (Call.destroy_id s.rdma ∷ s.log) refl refl (rw h refl),
  )

  listen_on-Ends : (c : ℕ) → Ends c Listening (listen_on v)
  unfolding listen_on
  listen_on-Ends c s h =
      let log1 = Call.bind_addr s.rdma ∷ s.log in
      let m : Conn = record s { log = log1 } in
      let n : Conn = record s { log = Call.listen s.rdma max_rdma_user ∷ log1 } in
      elim (Bool-cases (v.answer s.log (Call.bind_addr s.rdma) == 0)) [
        | inl bound ↦ elim (Bool-cases (v.answer log1 (Call.listen s.rdma max_rdma_user) == 0)) [
          | inl heard ↦
              (true, n, rw (bound, heard) refl, open_now h (==→eq _ 0 bound, ==→eq _ 0 heard, refl))
          | inr deaf ↦
              let (r, t, e, d) = out_error_bind-Ends c (Listening s) n h in
              (r, t, rw (bound, deaf) e, d)
        ]
        | inr refused ↦
            let (r, t, e, d) = out_error_bind-Ends c (Listening s) m h in (r, t, rw refused e, d)
      ]

  -- the channel that an attempt creates
  abbrev pub channel_of : Conn → ℕ
  channel_of s = v.answer s.log Call.create_event_channel

  -- the connection when its channel and its id are made
  abbrev pub created : Conn → Conn
  created s =
      let log1 = Call.create_event_channel ∷ s.log in
      record s {
        event_channel = channel_of s;
        rdma = v.new_id log1;
        log = Call.create_id (channel_of s) ∷ log1;
      }

  -- What an attempt comes to: no channel could be made and there is none, or it is done.
  abbrev pub Outcome : Rises → (s t : Conn) → Bool → Type 0
  Outcome P s t r =
      ((channel_of s ≡ 0) × (r ≡ false) × (t.event_channel ≡ 0) × (t.rdma ≡ 0))
      ⊎ ((channel_of s ≢ 0) × Done (channel_of s) (P (created s)) t r)

  attempt-Outcome :
      (P : Rises) (rest : Cmd Conn Bool) (s : Conn)
      → ((c : ℕ) → Ends c P rest)
      → s.rdma ≡ 0
      → (r : Bool) × (t : Conn) × (attempt v rest s ≡ ok r t) × Outcome P s t r
  unfolding attempt create_id out_error
  attempt-Outcome P rest s ends none_yet =
      let c = channel_of s in
      let log1 = Call.create_event_channel ∷ s.log in
      let log2 = Call.create_id c ∷ log1 in
      let m : Conn = record s { event_channel = c; log = log1 } in
      let made : Conn = record s { event_channel = c; rdma = v.new_id log1; log = log2 } in
      let failed : Conn = record s {
        event_channel = 0;
        log = Call.destroy_event_channel c ∷ log2;
      } in
      elim (Bool-cases (c == 0)) [
        | inl null ↦ (false, m, rw null refl, inl (==→eq c 0 null, refl, ==→eq c 0 null, none_yet))
        | inr got ↦ elim (Bool-cases (v.answer log1 (Call.create_id c) == 0)) [
          | inl fine ↦
              let (r, t, e, d) = ends c made refl in (r, t, rw (got, fine) e, inr (ground arith, d))
          | inr bad ↦
              (false, failed, rw (got, bad) refl, inr (ground arith, shut log2 refl none_yet refl))
        ]
      ]

  -- From no connection, the server's attempt always returns. Either no channel can be made; or it
  -- returns true and its channel is open; or it returns false, both pointers are NULL again, and
  -- its channel has been destroyed by the last call.
  ib_rdma_server_connect-Outcome :
      (port : ℕ) (s : Conn)
      → s.rdma ≡ 0
      → (r : Bool) × (t : Conn) × (ib_rdma_server_connect v port s ≡ ok r t)
        × Outcome Listening s t r
  unfolding ib_rdma_server_connect
  ib_rdma_server_connect-Outcome port s h =
      attempt-Outcome Listening (listen_on v) s listen_on-Ends h
