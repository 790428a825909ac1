-- ===== src/Drive/Start/Sendable.antt =====
-- What the module's wait for the multicast group gives.
use maruswap.Base.{
  ℕ, ◌≡◌, ◌≢◌, ◌⊎◌, refl, List, [], ◌∷◌, Option, none, some, Bool-cases, inl, inr, arith,
}
use maruswap.Base.Run.{Run, Cmd, ok, fault, out_of_fuel, and_then-eq-ok, pure, ◌>>◌}
use maruswap.Drive.Xarray.{Xarray}
use maruswap.Drive.Swap.{einval}
use maruswap.Drive.Connect.{
  Event, Target, connection, group, addr_resolved, Call, History, Kernel, Setup, is_err,
  ib_rdma_cm_handler,
}
use maruswap.Drive.Group.Joined.{Granted, Sendable, Clean, Holds, ib_multicast_cm_handler-Clean}
use maruswap.Drive.Wait.{
  Params, Ib, zeroed, lend, take_back, take_back_group, on_found, on_ctrl, on_group, handle,
  deliver, wait_for_completion,
}
use maruswap.Drive.Start.{resolve, init_multicast_ctrl}
use maruswap.Drive.Start.Made.{resolve-past}

module _ (xa : Xarray) (k : Kernel) (params : Params) where
  -- if it returned, the group is still clean
  abbrev Cleans : {A : Type 0} → Ib xa.Arr → Run (Ib xa.Arr) A → Type 0
  Cleans d (ok a t) =
      (Clean k d.multicast_ctrl → Clean k t.multicast_ctrl)
      × (Holds k d.multicast_ctrl → Holds k t.multicast_ctrl)
  Cleans d fault = Unit {0}
  Cleans d out_of_fuel = Unit {0}

  Cleans-ok :
      {A : Type 0} (d : Ib xa.Arr) (r : Run (Ib xa.Arr) A) {a : A} {t : Ib xa.Arr}
      → Cleans d r
      → r ≡ ok a t
      → (Clean k d.multicast_ctrl → Clean k t.multicast_ctrl)
        × (Holds k d.multicast_ctrl → Holds k t.multicast_ctrl)
  Cleans-ok d r q h = rw h at q

  on_found-Cleans :
      (self : ℕ) (m : Cmd Setup ℕ) (d : Ib xa.Arr) (o : Option Setup)
      → Cleans d (on_found xa k params self m d o)
  unfolding on_found
  on_found-Cleans self m d none = (λ c. c, λ c. c)
  on_found-Cleans self m d (some s) = taken (m (lend xa k params s d))
    where
      taken : (r : Run Setup ℕ) → Cleans d (take_back xa k params self d r)
      taken (ok a t) = (λ c. c, λ c. c)
      taken fault = tt
      taken out_of_fuel = tt

  handle-Cleans :
      (target : Target) (ev : Event) (d : Ib xa.Arr) → Cleans d (handle xa k params target ev d)
  unfolding handle on_ctrl on_group take_back_group
  handle-Cleans (connection self) ev d = on_found-Cleans self (ib_rdma_cm_handler k ev) d _
  handle-Cleans group ev d =
      let (t, out, kept, sticky, holds, first) =
        ib_multicast_cm_handler-Clean k ev (lend xa k params d.multicast_ctrl d) in
      rw (out, Cleans) (kept, holds)

  -- The event that resolves the group's address.
  handle-Holds :
      (target : Target) (ev : Event) (d : Ib xa.Arr) {r : ℕ} {t : Ib xa.Arr}
      → (target ≡ group) × (ev ≡ addr_resolved)
      → handle xa k params target ev d ≡ ok r t
      → Holds k t.multicast_ctrl
  unfolding handle on_group take_back_group
  handle-Holds (connection self) ev d (same, first) h = cc
  handle-Holds group ev d {r} {t} (same, first) h =
      let (s, out, kept, sticky, holds, now) =
        ib_multicast_cm_handler-Clean k ev (lend xa k params d.multicast_ctrl d) in
      let h' = rw out at h in let e : t.multicast_ctrl ≡ s = ground (arith, h') in rw e (now first)

  -- That event is among those that come.
  abbrev pub Told : List (Target × Event) → Type 0
  Told [] = ⊥
  Told ((target, ev) ∷ evs) = ((target ≡ group) × (ev ≡ addr_resolved)) ⊎ Told evs

  deliver-Clean :
      (evs : List (Target × Event)) (d : Ib xa.Arr) {t : Ib xa.Arr}
      → deliver xa k params evs d ≡ ok tt t
      → (Clean k d.multicast_ctrl → Clean k t.multicast_ctrl)
        × (Holds k d.multicast_ctrl → Holds k t.multicast_ctrl)
  unfolding deliver
  deliver-Clean [] d {t} h = Cleans-ok d (ok tt d) (λ c. c, λ c. c) h
  deliver-Clean ((target, ev) ∷ evs) d {t} h =
      let (r, m, first, rest) = and_then-eq-ok (handle xa k params target ev d) _ h in
      let before = Cleans-ok d _ (handle-Cleans target ev d) first in
      let after = deliver-Clean evs m rest in (λ c. after.0 (before.0 c), λ c. after.1 (before.1 c))

  deliver-Holds :
      (evs : List (Target × Event)) (d : Ib xa.Arr) {t : Ib xa.Arr}
      → Told evs
      → deliver xa k params evs d ≡ ok tt t
      → Holds k t.multicast_ctrl
  unfolding deliver
  deliver-Holds [] d told h = absurd told
  deliver-Holds ((target, ev) ∷ evs) d {t} (inl this) h =
      let (r, m, first, rest) = and_then-eq-ok (handle xa k params target ev d) _ h in
      (deliver-Clean evs m rest).1 (handle-Holds target ev d this first)
  deliver-Holds ((target, ev) ∷ evs) d {t} (inr later) h =
      let (r, m, first, rest) = and_then-eq-ok (handle xa k params target ev d) _ h in
      deliver-Holds evs m later rest

  -- `init_multicast_ctrl` returns 0 also if the group could not be joined. But where the group's
  -- address is resolved in every wait, and no error is on record after it, the protection domain is
  -- one that was given, and a package of the group, if there is one, has an address, an event's
  -- number and key, two queues and the queue pair that the id had when one was asked for on these.
  pub init_multicast_ctrl-Clean :
      (d : Ib xa.Arr) {t : Ib xa.Arr}
      → ((h : History) → Told (k.events h))
      → init_multicast_ctrl xa k params d ≡ ok 0 t
      → t.multicast_ctrl.cm_error ≡ 0
      → Sendable k t.multicast_ctrl × Granted k t.multicast_ctrl.pd
  unfolding init_multicast_ctrl zeroed wait_for_completion is_err
  init_multicast_ctrl-Clean d {t} told h none_yet =
      let rdma = k.answer d.log Call.create_id in
      let d1 : Ib xa.Arr = record d {
        multicast_ctrl = record (zeroed d.multicast_ctrl.self) { rdma = rdma };
        log = Call.create_id ∷ d.log;
      } in
      let wait : Cmd (Ib xa.Arr) ℕ = wait_for_completion xa k params >> pure 0 in
      let go : Cmd (Ib xa.Arr) ℕ = resolve xa k params rdma params.multicast_ip 0 einval wait in
      let failed : einval ≢ 0 = omega arith in
      elim (Bool-cases (is_err rdma)) [
        | inl bad ↦ let out : ok einval d1 ≡ ok 0 t = rw bad at h in ground (arith, failed, out)
        | inr fine ↦
            let h2 : go d1 ≡ ok 0 t = rw fine at h in
            let (u, held, same, h3) =
              resolve-past xa k params rdma params.multicast_ip 0 einval wait d1 failed h2 in
            let (v, m, waited, last) = and_then-eq-ok (wait_for_completion xa k params u) _ h3 in
            let clean : Clean k u.multicast_ctrl = rw same (λ none_yet. (inl refl, tt)) in
            let tell : Ib xa.Arr = record u { log = Call.wait_for_completion ∷ u.log } in
            let end = Cleans-ok m (ok 0 m) (λ c. c, λ c. c) last in
            (
              end.0 ((deliver-Clean (k.events tell.log) tell waited).0 clean) none_yet,
              end.1 (deliver-Holds (k.events tell.log) tell (told tell.log) waited) none_yet,
            )
      ]
