-- ===== src/Drive/Start/Held.antt =====
-- What waiting for a connection leaves alone, whatever events come.
use maruswap.Base.{
  ℕ, ◌≡◌, refl, sym, ap, ◌∙◌, List, [], ◌∷◌, ◌==◌, map, Option, none, some, Bool-cases, inl, inr,
  arith,
}
use maruswap.Base.Run.{Run, ok, fault, out_of_fuel, and_then-eq-ok}
use maruswap.Drive.Xarray.{Xarray}
use maruswap.Drive.Connect.{
  Event, Target, connection, group, Call, Kernel, Setup, ib_rdma_cm_handler,
}
use maruswap.Drive.Connect.Quiet.{created, destroyed, Quiet, ib_rdma_cm_handler-Quiet}
use maruswap.Drive.Group.Quiet.{ib_multicast_cm_handler-Quiet}
use maruswap.Drive.Wait.{
  Params, Ib, find_setup, put_setup, lend, take_back, on_found, on_ctrl, take_back_group, on_group,
  handle, deliver, wait_for_completion, parse_ipaddr, rdma_ctrl_wait_for_cm,
}

-- a connection's address, its number, and its id
abbrev pub tag : Setup → ℕ × ℕ × ℕ
tag c = (c.self, c.id, c.rdma)

put_setup-same :
    (self : ℕ) (s c : Setup) (cs : List Setup)
    → find_setup self cs ≡ some c
    → tag s ≡ tag c
    → map tag (put_setup self s cs) ≡ map tag cs
unfolding find_setup put_setup
put_setup-same self s c [] h e = refl
put_setup-same self s c (x ∷ xs) h e = elim (Bool-cases (x.self == self)) [
  | inl hit ↦
      let same : x ≡ c = ground (arith, hit, h) in
      rw hit (ap (λ (t : ℕ × ℕ × ℕ). t ∷ map tag xs) (e ∙ sym (ap tag same)))
  | inr miss ↦
      let later : find_setup self xs ≡ some c = ground (arith, miss, h) in
      rw miss (ap (λ l. tag x ∷ l) (put_setup-same self s c xs later e))
]

module _ (xa : Xarray) (k : Kernel) (params : Params) where
  -- the same connections and the same group, and the same ids
  abbrev pub Held : Ib xa.Arr → Ib xa.Arr → Type 0
  Held d t =
      (map tag t.rdma_ctrl_list ≡ map tag d.rdma_ctrl_list)
      × (tag t.multicast_ctrl ≡ tag d.multicast_ctrl)
      × (t.main_rdma_ctrl ≡ d.main_rdma_ctrl)
      × (created k t.log ≡ created k d.log)
      × (destroyed t.log ≡ destroyed d.log)

  pub Held-trans : (d t u : Ib xa.Arr) → Held d t → Held t u → Held d u
  Held-trans d t u p q = (q.0 ∙ p.0, q.1 ∙ p.1, q.2 ∙ p.2, q.3 ∙ p.3, q.4 ∙ p.4)

  -- if it returned, then held
  abbrev pub Holds : {A : Type 0} → Ib xa.Arr → Run (Ib xa.Arr) A → Type 0
  Holds d (ok a t) = Held d t
  Holds d fault = Unit {0}
  Holds d out_of_fuel = Unit {0}

  take_back-Holds :
      (self : ℕ) (c : Setup) (d : Ib xa.Arr) (r : Run Setup ℕ)
      → find_setup self d.rdma_ctrl_list ≡ some c
      → Quiet k (lend xa k params c d) r
      → Holds d (take_back xa k params self d r)
  unfolding take_back
  take_back-Holds self c d (ok a t) h q =
      (put_setup-same self t c d.rdma_ctrl_list h λ i. (q.0 i, q.1 i, q.2 i), refl, refl, q.3, q.4)
  take_back-Holds self c d fault h q = tt
  take_back-Holds self c d out_of_fuel h q = tt

  take_back_group-Holds :
      (d : Ib xa.Arr) (r : Run Setup ℕ)
      → Quiet k (lend xa k params d.multicast_ctrl d) r
      → Holds d (take_back_group xa k params d r)
  unfolding take_back_group
  take_back_group-Holds d (ok a t) q = (refl, λ i. (q.0 i, q.1 i, q.2 i), refl, q.3, q.4)
  take_back_group-Holds d fault q = tt
  take_back_group-Holds d out_of_fuel q = tt

  on_found-Holds :
      (self : ℕ) (ev : Event) (d : Ib xa.Arr) (o : Option Setup)
      → find_setup self d.rdma_ctrl_list ≡ o
      → Holds d (on_found xa k params self (ib_rdma_cm_handler k ev) d o)
  unfolding on_found
  on_found-Holds self ev d none h = (refl, refl, refl, refl, refl)
  on_found-Holds self ev d (some c) h =
      take_back-Holds self c d _ h (ib_rdma_cm_handler-Quiet k ev (lend xa k params c d))

  handle-Holds :
      (target : Target) (ev : Event) (d : Ib xa.Arr) → Holds d (handle xa k params target ev d)
  unfolding handle on_ctrl on_group
  handle-Holds (connection self) ev d = on_found-Holds self ev d _ refl
  handle-Holds group ev d =
      take_back_group-Holds d _
        (ib_multicast_cm_handler-Quiet k ev (lend xa k params d.multicast_ctrl d))

  pub Holds-ok :
      {A : Type 0} (d : Ib xa.Arr) (r : Run (Ib xa.Arr) A) {a : A} {t : Ib xa.Arr}
      → Holds d r
      → r ≡ ok a t
      → Held d t
  Holds-ok d r q h = rw h at q

  deliver-Held :
      (evs : List (Target × Event)) (d : Ib xa.Arr) {t : Ib xa.Arr}
      → deliver xa k params evs d ≡ ok tt t
      → Held d t
  unfolding deliver
  deliver-Held [] d {t} h = Holds-ok d (ok tt d) (refl, refl, refl, refl, refl) h
  deliver-Held ((target, ev) ∷ evs) d {t} h =
      let (r, m, first, rest) = and_then-eq-ok (handle xa k params target ev d) _ h in
      Held-trans d m t (Holds-ok d _ (handle-Holds target ev d) first) (deliver-Held evs m rest)

  pub wait_for_completion-Held :
      (d : Ib xa.Arr) {t : Ib xa.Arr} → wait_for_completion xa k params d ≡ ok tt t → Held d t
  unfolding wait_for_completion
  wait_for_completion-Held d {t} h =
      let m : Ib xa.Arr = record d { log = Call.wait_for_completion ∷ d.log } in
      deliver-Held (k.events m.log) m h

  pub rdma_ctrl_wait_for_cm-Held :
      (self : ℕ) (d : Ib xa.Arr) {e : ℕ} {t : Ib xa.Arr}
      → rdma_ctrl_wait_for_cm xa k params self d ≡ ok e t
      → Held d t
  unfolding rdma_ctrl_wait_for_cm
  rdma_ctrl_wait_for_cm-Held self d {e} {t} h =
      let (u, m, first, rest) = and_then-eq-ok (wait_for_completion xa k params d) _ h in
      Held-trans d m t (wait_for_completion-Held d first)
        (Holds-ok m _ (refl, refl, refl, refl, refl) rest)

  parse_ipaddr-Holds : (ip : List ℕ) (d : Ib xa.Arr) → Holds d (parse_ipaddr xa k params ip d)
  unfolding parse_ipaddr
  parse_ipaddr-Holds ip d = ground arith

  pub parse_ipaddr-Held :
      (ip : List ℕ) (d : Ib xa.Arr) {r : ℕ} {t : Ib xa.Arr}
      → parse_ipaddr xa k params ip d ≡ ok r t
      → Held d t
  parse_ipaddr-Held ip d h = Holds-ok d _ (parse_ipaddr-Holds ip d) h

  -- if it returned, with the very same group
  abbrev SameGroup : {A : Type 0} → Ib xa.Arr → Run (Ib xa.Arr) A → Type 0
  SameGroup d (ok a t) = t.multicast_ctrl ≡ d.multicast_ctrl
  SameGroup d fault = Unit {0}
  SameGroup d out_of_fuel = Unit {0}

  SameGroup-ok :
      {A : Type 0} (d : Ib xa.Arr) (r : Run (Ib xa.Arr) A) {a : A} {t : Ib xa.Arr}
      → SameGroup d r
      → r ≡ ok a t
      → t.multicast_ctrl ≡ d.multicast_ctrl
  SameGroup-ok d r q h = rw h at q

  parse_ipaddr-SameGroup :
      (ip : List ℕ) (d : Ib xa.Arr) → SameGroup d (parse_ipaddr xa k params ip d)
  unfolding parse_ipaddr
  parse_ipaddr-SameGroup ip d = ground arith

  pub parse_ipaddr-group :
      (ip : List ℕ) (d : Ib xa.Arr) {r : ℕ} {t : Ib xa.Arr}
      → parse_ipaddr xa k params ip d ≡ ok r t
      → t.multicast_ctrl ≡ d.multicast_ctrl
  parse_ipaddr-group ip d h = SameGroup-ok d _ (parse_ipaddr-SameGroup ip d) h
