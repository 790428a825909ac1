-- ===== src/Drive/Group/Joined.antt =====
-- What the events of the multicast group leave behind.
use maruswap.Base.{
  sym, ◌∙◌, ==→eq, ℕ, ◌≡◌, ◌≢◌, refl, inl, inr, ap, ◌⊎◌, false, none, some, Option, List, ◌∷◌, ◌==◌,
  Bool-cases, arith, if◌then◌else◌,
}
use maruswap.Base.Run.{Run, ok}
use maruswap.Drive.Connect.{
  Event, Call, History, Kernel, Setup, UdPackage, econnreset, is_err, out_alloc_cq, addr_resolved,
  route_resolved, established, rejected, failed, multicast_join, multicast_error, other,
}
use maruswap.Drive.Swap.{einval}
use maruswap.Drive.Group.{
  multicast_ctrl_create_qp, multicast_addr_resolved, multicast_route_resolved,
  multicast_connect_established, join_qp, join_cqs, multicast_ctrl_joined, on_group_event,
  ib_multicast_cm_handler, package_of,
}

module _ (k : Kernel) where
  -- A protection domain that was given, and is no error pointer.
  abbrev pub Granted : (pd : ℕ) → Type 0
  Granted pd = (h : History) × (k.answer h Call.alloc_pd ≡ pd) × (is_err pd ≡ false)

  -- NULL until the address is resolved.
  abbrev pub Known : (pd : ℕ) → Type 0
  Known pd = (pd ≡ 0) ⊎ Granted pd

  -- A completion queue that was given.
  abbrev pub Queue : (cq : ℕ) → Type 0
  Queue cq = (h : History) × (k.answer h Call.alloc_cq ≡ cq) × (is_err cq ≡ false)

  -- The package has an address that was given, no error pointer, and the number and key of an event.
  abbrev pub Addressed : (pd : ℕ) → UdPackage → Type 0
  Addressed pd u =
      ((h : History) × (k.answer h (Call.create_ah pd) ≡ u.ah) × (is_err u.ah ≡ false))
      × ((h : History) × (u.remote_qpn ≡ k.ud_qp_num h) × (u.remote_qkey ≡ k.ud_qkey h))

  -- The package, if the group has been joined, was made on one domain, with an address on it, and
  -- its queue pair is what the id had when one was asked for with the two queues.
  abbrev pub Usable : Option UdPackage → (snd_cq rcv_cq qp : ℕ) → Type 0
  Usable none snd rcv qp = Unit {0}
  Usable (some u) snd rcv qp =
      (pd : ℕ) × Known pd
      × Addressed pd u
      × Queue snd
      × Queue rcv
      × ((h : History) × (u.qp ≡ k.cm_qp (Call.create_qp pd snd rcv ∷ h)))
      × (u.qp ≡ qp)

  -- What a send to the group would use.
  abbrev pub Sendable : Setup → Type 0
  Sendable s = Known s.pd × Usable s.ud_package s.snd_cq s.rcv_cq s.qp

  -- If no error is on record, the package of a group that was joined is complete.
  abbrev pub Clean : Setup → Type 0
  Clean s = s.cm_error ≡ 0 → Sendable s

  -- If no error is on record, the protection domain is one that was given.
  abbrev pub Holds : Setup → Type 0
  Holds s = s.cm_error ≡ 0 → Granted s.pd

  holds-either : (s t : Setup) → Granted s.pd → (t.pd ≡ s.pd) ⊎ Granted t.pd → Granted t.pd
  holds-either s t g (inl same) = rw same g
  holds-either s t g (inr now) = now

  -- The command returned, left the error on record alone, and if it succeeded under `P`, all is there.
  record Leads (on_record pd : ℕ) (P : Type 0) (r : Run Setup ℕ) : Type 0 where
    pub error : ℕ
    pub after : Setup
    pub returned : r ≡ ok error after
    pub kept : after.cm_error ≡ on_record
    pub sendable : error ≡ 0 → P → Sendable after
    pub domain : error ≡ 0 → (after.pd ≡ pd) ⊎ Granted after.pd

  abbrev Steps : Setup → Run Setup ℕ → Type 0
  Steps s r = Leads s.cm_error s.pd (Sendable s) r

  -- An error leaves nothing to show.
  refused :
      {on_record pd : ℕ} {P : Type 0} (m : Setup) {r : Run Setup ℕ}
      → m.cm_error ≡ on_record
      → r ≡ ok einval m
      → Leads on_record pd P r
  refused m kept out = record {
    error = einval;
    after = m;
    returned = out;
    kept = kept;
    sendable = λ h. ground arith;
    domain = λ h. ground arith;
  }

  nothing : (s : Setup) → Steps s (ok 0 s)
  nothing s = record {
    error = 0;
    after = s;
    returned = refl;
    kept = refl;
    sendable = λ h g. g;
    domain = λ h. inl refl;
  }

  lost : (s : Setup) → Steps s (ok econnreset s)
  lost s = record {
    error = econnreset;
    after = s;
    returned = refl;
    kept = refl;
    sendable = λ h. ground arith;
    domain = λ h. ground arith;
  }

  multicast_addr_resolved-Steps : (s : Setup) → Steps s (multicast_addr_resolved k s)
  unfolding multicast_addr_resolved
  multicast_addr_resolved-Steps s =
      let pd = k.answer s.log Call.alloc_pd in
      let log1 = Call.alloc_pd ∷ s.log in
      let ret = k.answer log1 (Call.join_multicast 1) in
      let log2 = Call.join_multicast 1 ∷ log1 in
      elim (Bool-cases (is_err pd)) [
        | inl bad ↦ refused (record s { pd = pd; log = log1 }) refl (rw bad refl)
        | inr fine ↦ elim (Bool-cases (ret == 0)) [
          | inl joined ↦ record {
            error = ret;
            after = record s { pd = pd; log = log2 };
            returned = rw (fine, joined) refl;
            kept = refl;
            sendable = λ h g. (inr (s.log, refl, fine), g.1);
            domain = λ h. inr (s.log, refl, fine);
          }
          | inr bad ↦
              refused (record s { pd = pd; log = Call.dealloc_pd pd ∷ log2 }) refl
                (rw (fine, bad) refl)
        ]
      ]

  multicast_route_resolved-Steps : (s : Setup) → Steps s (multicast_route_resolved k s)
  unfolding multicast_route_resolved
  multicast_route_resolved-Steps s =
      let ret = k.answer s.log (Call.join_multicast 0) in
      let after : Setup = record s { log = Call.join_multicast 0 ∷ s.log } in
      elim (Bool-cases (ret == 0)) [
        | inl joined ↦ record {
          error = ret;
          after = after;
          returned = rw joined refl;
          kept = refl;
          sendable = λ h g. g;
          domain = λ h. inl refl;
        }
        | inr bad ↦ refused after refl (rw bad refl)
      ]

  -- The way out when a queue is missing: its two calls, and the error.
  out_alloc_cq-fails :
      (s : Setup) → (log : List Call) × (out_alloc_cq k s ≡ ok einval (record s { log = log }))
  unfolding out_alloc_cq
  out_alloc_cq-fails s =
      let log1 = if s.rcv_cq == 0 then s.log else Call.free_cq s.rcv_cq ∷ s.log in
      (if s.snd_cq == 0 then log1 else Call.free_cq s.snd_cq ∷ log1, ground arith)

  -- From a set-up `s` with the package already in place.
  join_cqs-Steps :
      (s : Setup) (u : UdPackage)
      → s.ud_package ≡ some u
      → Addressed s.pd u
      → Leads s.cm_error s.pd (Known s.pd) (join_cqs k s)
  unfolding join_cqs join_qp multicast_ctrl_create_qp
  join_cqs-Steps s u has address =
      let snd = k.answer s.log Call.alloc_cq in
      let log1 = Call.alloc_cq ∷ s.log in
      let rcv = k.answer log1 Call.alloc_cq in
      let log2 = Call.alloc_cq ∷ log1 in
      let make = Call.create_qp s.pd snd rcv in
      let qp = k.cm_qp (make ∷ log2) in
      elim (Bool-cases (is_err snd)) [
        | inl bad ↦
            let (log, out) = out_alloc_cq-fails (record s { snd_cq = snd; log = log1 }) in
            refused (record s { snd_cq = snd; log = log }) refl (rw bad out)
        | inr sending ↦ elim (Bool-cases (is_err rcv)) [
          | inl bad ↦
              let m : Setup = record s { snd_cq = snd; rcv_cq = rcv; log = log2 } in
              let (log, out) = out_alloc_cq-fails m in
              refused (record m { log = log }) refl (rw (sending, bad) out)
          | inr receiving ↦ record {
            error = 0;
            after = record s {
              snd_cq = snd;
              rcv_cq = rcv;
              qp = qp;
              ud_package = some (record u { qp = qp });
              log = make ∷ log2;
            };
            returned = rw (sending, receiving, has) refl;
            kept = refl;
            sendable = λ h g. (
              g,
              (
                s.pd,
                g,
                address,
                (s.log, refl, sending),
                (log1, refl, receiving),
                (log2, refl),
                refl,
              ),
            );
            domain = λ h. inl refl;
          }
        ]
      ]

  multicast_ctrl_joined-Steps : (s : Setup) → Steps s (multicast_ctrl_joined k s)
  unfolding multicast_ctrl_joined
  multicast_ctrl_joined-Steps s =
      let ud = k.answer s.log Call.kzalloc_ud in
      let log1 = Call.kzalloc_ud ∷ s.log in
      let ah = k.answer log1 (Call.create_ah s.pd) in
      let log2 = Call.create_ah s.pd ∷ log1 in
      let m : Setup = record s { log = log2 } in
      let u = package_of k ah m in
      elim (Bool-cases (ud == 0)) [
        | inl null ↦ refused (record s { log = log1 }) refl (rw null refl)
        | inr got ↦ elim (Bool-cases (is_err ah)) [
          | inl bad ↦ refused (record s { log = Call.kfree ud ∷ log2 }) refl (rw (got, bad) refl)
          | inr address ↦
              let given : Addressed s.pd u = ((log1, refl, address), (log2, refl, refl)) in
              let last = join_cqs-Steps (record m { ud_package = some u }) u refl given in
              record {
                error = last.error;
                after = last.after;
                returned = rw (got, address) last.returned;
                kept = last.kept;
                sendable = λ h g. last.sendable h g.0;
                domain = last.domain;
              }
        ]
      ]

  multicast_connect_established-Steps : (s : Setup) → Steps s (multicast_connect_established k s)
  unfolding multicast_connect_established
  multicast_connect_established-Steps s = nothing s

  on_group_event-Steps : (ev : Event) (s : Setup) → Steps s (on_group_event k ev s)
  unfolding on_group_event
  on_group_event-Steps addr_resolved s = multicast_addr_resolved-Steps s
  on_group_event-Steps route_resolved s = multicast_route_resolved-Steps s
  on_group_event-Steps established s = multicast_connect_established-Steps s
  on_group_event-Steps rejected s = nothing s
  on_group_event-Steps failed s = lost s
  on_group_event-Steps multicast_join s =
      let done = multicast_ctrl_joined-Steps s in
      record {
        error = done.error;
        after = record done.after { log = Call.complete ∷ done.after.log };
        returned = rw done.returned refl;
        kept = done.kept;
        sendable = done.sendable;
        domain = done.domain;
      }
  on_group_event-Steps multicast_error s = lost s
  on_group_event-Steps other s = nothing s

  addr_resolved-grants : (s m : Setup) → on_group_event k addr_resolved s ≡ ok 0 m → Granted m.pd
  unfolding on_group_event multicast_addr_resolved
  addr_resolved-grants s m h =
      let pd = k.answer s.log Call.alloc_pd in
      let log1 = Call.alloc_pd ∷ s.log in
      let ret = k.answer log1 (Call.join_multicast 1) in
      let failed : einval ≢ 0 = omega arith in
      elim (Bool-cases (is_err pd)) [
        | inl bad ↦ let h' = rw bad at h in ground (arith, failed, h')
        | inr fine ↦ elim (Bool-cases (ret == 0)) [
          | inl joined ↦
              let h' = rw (fine, joined) at h in
              let same : m.pd ≡ pd = ground (arith, h') in (s.log, sym same, rw same fine)
          | inr bad ↦ let h' = rw (fine, bad) at h in ground (arith, failed, h')
        ]
      ]

  -- Whatever the event, the group's handler returns 0. An error stays on record. While there is
  -- none, it stays so that the protection domain is NULL or one that was given, and that a package
  -- was made on one such domain: with an address that was given, the number and key of an event, two
  -- queues that were given, and the queue pair that the id had when one was asked for on them. And
  -- if no error is on record the domain is one that was given, after the event that resolves the
  -- address, and from then on.
  pub ib_multicast_cm_handler-Clean :
      (ev : Event) (s : Setup)
      → (t : Setup) × (ib_multicast_cm_handler k ev s ≡ ok 0 t)
        × (Clean s → Clean t)
        × (s.cm_error ≢ 0 → t.cm_error ≢ 0)
        × (Holds s → Holds t)
        × (ev ≡ addr_resolved → Holds t)
  unfolding ib_multicast_cm_handler
  ib_multicast_cm_handler-Clean ev s =
      let step = on_group_event-Steps ev s in
      let e = step.error in
      let m = step.after in
      elim (Bool-cases (e == 0)) [
        | inl fine ↦ (
          m,
          rw step.returned (rw fine refl),
          λ c none_yet. step.sendable (==→eq e 0 fine) (c (sym step.kept ∙ none_yet)),
          λ ne h. ne (sym step.kept ∙ h),
          λ g none_yet.
              holds-either s m (g (sym step.kept ∙ none_yet)) (step.domain (==→eq e 0 fine)),
          λ first none_yet. addr_resolved-grants s m (
              sym (ap (λ x. on_group_event k x s) first)
              ∙ step.returned
              ∙ ap (λ x. ok x m) (==→eq e 0 fine)),
        )
        | inr bad ↦ (
          record m { cm_error = e; log = Call.complete ∷ m.log },
          rw step.returned (rw bad refl),
          λ c h. ground (arith, bad),
          λ ne h. ground (arith, bad),
          λ g h. ground (arith, bad),
          λ first h. ground (arith, bad),
        )
      ]
