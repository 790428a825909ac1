-- ===== src/Drive/Start/Made.antt =====
-- The connections that the module makes.
use maruswap.Base.{
  ℕ, ◌≡◌, ◌≢◌, refl, sym, ap, ◌∙◌, List, ◌∷◌, ◌==◌, map, Bool-cases, inl, inr, eq→==, if◌then◌else◌,
  arith,
}
use maruswap.Base.Run.{Run, ok, and_then, and_then-eq-ok, pure, Cmd, test◌then◌else◌}
use maruswap.Drive.Header.{page_size}
use maruswap.Drive.Xarray.{Xarray}
use maruswap.Drive.Connect.{Call, Kernel, Setup, is_err}
use maruswap.Drive.Connect.Quiet.{created, destroyed}
use maruswap.Drive.Wait.{
  Params, Ib, zeroed, find_setup, put_setup, lend, take_back, on_found, on_ctrl, parse_ipaddr,
  rdma_ctrl_wait_for_cm,
}
use maruswap.Drive.Start.{
  change_ctrl, resolve, parse_src, ask_resolve, unless, wait_ctrl, resolve_ctrl, buffer_ctrl,
  init_rdma_ctrl,
}
use maruswap.Drive.Start.Held.{
  tag, Held, Held-trans, Holds-ok, parse_ipaddr-Held, parse_ipaddr-group,
  rdma_ctrl_wait_for_cm-Held,
}

module _ (xa : Xarray) (k : Kernel) (params : Params) where
  -- a change of the connection at the head of the list
  abbrev at_head : (Setup → Setup) → Setup → List Setup → Ib xa.Arr → Ib xa.Arr
  at_head f c cs d =
      let s = f (lend xa k params c d) in
      record d { rdma_ctrl_list = s ∷ cs; nr_rdma_ctrl = s.nr_rdma_ctrl; log = s.log }

  change_ctrl-head :
      (f : Setup → Setup) (c : Setup) (cs : List Setup) (d : Ib xa.Arr)
      → d.rdma_ctrl_list ≡ c ∷ cs
      → change_ctrl xa k params c.self f d ≡ ok 0 (at_head f c cs d)
  unfolding on_ctrl on_found find_setup take_back put_setup
  change_ctrl-head f c cs d h = rw (h, eq→== c.self c.self refl, eq→== c.self c.self refl) refl

  -- What followed a part that did not fail.
  pub past :
      (first : Run (Ib xa.Arr) ℕ) (rdma failed : ℕ) (m : Cmd (Ib xa.Arr) ℕ) {p : ℕ} {t : Ib xa.Arr}
      → failed ≢ p
      → and_then first (unless xa k params rdma failed m) ≡ ok p t
      → (ret : ℕ) × (u : Ib xa.Arr) × (first ≡ ok ret u) × (m u ≡ ok p t)
  past first rdma failed m {p} {t} ne h =
      let (ret, u, e, rest) = and_then-eq-ok first (unless xa k params rdma failed m) h in
      (
        ret,
        u,
        e,
        elim (Bool-cases (ret == 0)) [
          | inl fine ↦ rw fine at rest
          | inr bad ↦
              let out : ok failed (record u { log = Call.destroy_id rdma ∷ u.log }) ≡ ok p t =
                rw bad at rest in
              ground (arith, out)
        ],
      )

  pub resolve-past :
      (rdma : ℕ) (dst : List ℕ) (port failed : ℕ) (m : Cmd (Ib xa.Arr) ℕ) (d : Ib xa.Arr) {p : ℕ}
      {t : Ib xa.Arr}
      → failed ≢ p
      → resolve xa k params rdma dst port failed m d ≡ ok p t
      → (u : Ib xa.Arr) × Held xa k params d u
        × (u.multicast_ctrl ≡ d.multicast_ctrl)
        × (m u ≡ ok p t)
  unfolding resolve parse_src ask_resolve
  resolve-past rdma dst port failed m d {p} {t} ne h =
      let parse_dst = parse_ipaddr xa k params dst d in
      let (r1, d1, e1, h1) =
        past parse_dst rdma failed (parse_src xa k params rdma dst port failed m) ne h in
      let (r2, d2, e2, h2) =
        past (parse_ipaddr xa k params params.src_ip d1) rdma failed
          (ask_resolve xa k params rdma dst port failed m) ne h1 in
      let asked = Call.resolve_addr rdma params.src_ip dst port in
      let d3 : Ib xa.Arr = record d2 { log = asked ∷ d2.log } in
      let (r3, d4, e3, h3) = past (ok (k.answer d2.log asked) d3) rdma failed m ne h2 in
      let back = Held-trans xa k params in
      let near = parse_ipaddr-Held xa k params dst d e1 in
      let far = parse_ipaddr-Held xa k params params.src_ip d1 e2 in
      let last = Holds-ok xa k params d2 (ok _ d3) (refl, refl, refl, refl, refl) e3 in
      let same : d3 ≡ d4 = after e3 in
      (
        d4,
        back d d1 d4 near (back d1 d2 d4 far last),
        ap (λ (s : Ib xa.Arr). s.multicast_ctrl) (sym same)
            ∙ parse_ipaddr-group xa k params params.src_ip d1 e2
            ∙ parse_ipaddr-group xa k params dst d e1,
        h3,
      )
    where
      after : {a b : ℕ} {s u : Ib xa.Arr} → ok a s ≡ ok b u → s ≡ u
      after h = cc

  wait_ctrl-Held :
      (self : ℕ) (d : Ib xa.Arr) {p : ℕ} {t : Ib xa.Arr}
      → wait_ctrl xa k params self d ≡ ok p t
      → (p ≡ self) × Held xa k params d t
  unfolding wait_ctrl
  wait_ctrl-Held self d {p} {t} h =
      let (e, u, waited, last) = and_then-eq-ok (rdma_ctrl_wait_for_cm xa k params self d) _ h in
      let held = rdma_ctrl_wait_for_cm-Held xa k params self d waited in
      let after = Holds-ok xa k params u (ok self u) (refl, refl, refl, refl, refl) last in
      (value_of last, Held-trans xa k params d u t held after)
    where
      value_of : {u : Ib xa.Arr} → ok self u ≡ ok p t → p ≡ self
      value_of h = cc

  -- the connection `c` at the head of the list now has this id, which is a new one
  abbrev Makes : ℕ → Setup → List Setup → (d t : Ib xa.Arr) → Type 0
  Makes rdma c cs d t =
      (map tag t.rdma_ctrl_list ≡ (c.self, c.id, rdma) ∷ map tag cs)
      × (tag t.multicast_ctrl ≡ tag d.multicast_ctrl)
      × (t.main_rdma_ctrl ≡ d.main_rdma_ctrl)
      × (created k t.log ≡ rdma ∷ created k d.log)
      × (destroyed t.log ≡ destroyed d.log)

  -- From the id on, of the newest connection.
  resolve_ctrl-Makes :
      (ip : List ℕ) (c : Setup) (cs : List Setup) (d : Ib xa.Arr) {p : ℕ} {t : Ib xa.Arr}
      → d.rdma_ctrl_list ≡ c ∷ cs
      → p ≢ 0
      → resolve_ctrl xa k params c.self ip d ≡ ok p t
      → (p ≡ c.self) × Makes (k.answer d.log Call.create_id) c cs d t
  unfolding resolve_ctrl
  resolve_ctrl-Makes ip c cs d {p} {t} hd ne h =
      let rdma = k.answer d.log Call.create_id in
      let d1 : Ib xa.Arr = record d { log = Call.create_id ∷ d.log } in
      let put = λ (s : Setup). record s { rdma = rdma } in
      let d2 = at_head put c cs d1 in
      let wait = wait_ctrl xa k params c.self in
      let go = resolve xa k params rdma ip params.serverport 0 wait in
      let h2 : (test is_err c.self then pure 0 else go) d2 ≡ ok p t =
        rw (change_ctrl-head put c cs d1 hd) at h in
      elim (Bool-cases (is_err c.self)) [
        | inl bad ↦ let out : ok 0 d2 ≡ ok p t = rw bad at h2 in ground (arith, ne, out)
        | inr fine ↦
            let h3 : go d2 ≡ ok p t = rw fine at h2 in
            let (u, held, group, h4) =
              resolve-past rdma ip params.serverport 0 wait d2 (λ e. ne (sym e)) h3 in
            let (ret, waited) = wait_ctrl-Held c.self u h4 in
            (ret, Held-trans xa k params d2 u t held waited)
      ]

  buffer_ctrl-Makes :
      (ip : List ℕ) (c : Setup) (cs : List Setup) (d : Ib xa.Arr) {p : ℕ} {t : Ib xa.Arr}
      → d.rdma_ctrl_list ≡ c ∷ cs
      → p ≢ 0
      → buffer_ctrl xa k params c.self ip d ≡ ok p t
      → (rdma : ℕ) × (p ≡ c.self) × Makes rdma c cs d t
  unfolding buffer_ctrl
  buffer_ctrl-Makes ip c cs d {p} {t} hd ne h =
      let buffer = k.answer d.log (Call.kzalloc page_size) in
      let d1 : Ib xa.Arr = record d { log = Call.kzalloc page_size ∷ d.log } in
      let put = λ (s : Setup). record s { buffer = buffer } in
      let d2 = at_head put c cs d1 in
      let go = resolve_ctrl xa k params c.self ip in
      let h2 : (test buffer == 0 then pure 0 else go) d2 ≡ ok p t =
        rw (change_ctrl-head put c cs d1 hd) at h in
      elim (Bool-cases (buffer == 0)) [
        | inl null ↦ let out : ok 0 d2 ≡ ok p t = rw null at h2 in ground (arith, ne, out)
        | inr got ↦
            let h3 : go d2 ≡ ok p t = rw got at h2 in
            let (ret, m) = resolve_ctrl-Makes ip (put (lend xa k params c d1)) cs d2 refl ne h3 in
            (k.answer d2.log Call.create_id, ret, m)
      ]

  -- A pointer that comes back is that of the newest connection on the list, with its number and
  -- the id that was made for it.
  pub init_rdma_ctrl-makes :
      (ip : List ℕ) (id : ℕ) (d : Ib xa.Arr) {p : ℕ} {t : Ib xa.Arr}
      → p ≢ 0
      → init_rdma_ctrl xa k params ip id d ≡ ok p t
      → (rdma : ℕ) × (map tag t.rdma_ctrl_list ≡ (p, id, rdma) ∷ map tag d.rdma_ctrl_list)
        × (tag t.multicast_ctrl ≡ tag d.multicast_ctrl)
        × (t.main_rdma_ctrl ≡ d.main_rdma_ctrl)
        × (created k t.log ≡ rdma ∷ created k d.log)
        × (destroyed t.log ≡ destroyed d.log)
  unfolding init_rdma_ctrl zeroed
  init_rdma_ctrl-makes ip id d {p} {t} ne h =
      let self = k.answer d.log Call.kzalloc_ctrl in
      let c : Setup = record (zeroed self) { id = id } in
      let d1 : Ib xa.Arr = record d {
        rdma_ctrl_list = c ∷ d.rdma_ctrl_list;
        log = Call.kzalloc_ctrl ∷ d.log;
      } in
      elim (Bool-cases (self == 0)) [
        | inl null ↦
            let out : ok 0 (record d { log = Call.kzalloc_ctrl ∷ d.log }) ≡ ok p t = rw null at h in
            ground (arith, ne, out)
        | inr got ↦
            let h2 : buffer_ctrl xa k params c.self ip d1 ≡ ok p t = rw got at h in
            let (rdma, ret, m) = buffer_ctrl-Makes ip c d.rdma_ctrl_list d1 refl ne h2 in
            let back = sym ret in
            let list = m.0 ∙ (λ i. (back i, id, rdma) ∷ map tag d.rdma_ctrl_list) in
            (rdma, list, m.1, m.2, m.3, m.4)
      ]
