-- ===== src/Drive/Binder/Reserve.antt =====
-- drive/sib.c: what `__get_binder` returns.
use maruswap.Base.{
  ℕ, zero, suc, ◌+◌, ◌%◌, ◌<◌, ◌≡◌, refl, inl, inr, List, ◌∷◌, ◌==◌, if◌then◌else◌, length,
  length-set, get_or-set_self, get_or-set_ne, ap, get_or-beyond, Bool-cases, eq→==, arith,
}
use native.Mathlib.Decide.{dec_lt}
use maruswap.Base.Run.{ok}
use maruswap.Drive.Net.{Binder, Net, Verbs, Call, History}
use maruswap.Drive.Binder.{
  nr_binders, free, binder_at, flags_at, set_flags, file_answer, init_from, init_binder, get_random,
  get_binder,
}

pub flags_at-set_flags :
    (bs : List Binder) (i w j : ℕ)
    → i < length bs
    → flags_at (set_flags i w bs) j ≡ (if i == j then w else flags_at bs j)
unfolding set_flags
flags_at-set_flags bs i w j h = elim (Bool-cases (i == j)) [
  | inl same ↦ ground (arith, get_or-set_self bs i (record (binder_at bs i) { flags = w }) free h)
  | inr other ↦ ground (arith, get_or-set_ne bs i j (record (binder_at bs i) { flags = w }) free)
]

pub flags_at-file_answer :
    (bs : List Binder) (i w j : ℕ)
    → i < length bs
    → flags_at (file_answer i w bs) j ≡ (if i == j then 2 else flags_at bs j)
unfolding file_answer
flags_at-file_answer bs i w j h = elim (Bool-cases (i == j)) [
  | inl same ↦ ground (arith, get_or-set_self bs i (record { flags = 2; private = w }) free h)
  | inr other ↦ ground (arith, get_or-set_ne bs i j (record { flags = 2; private = w }) free)
]

pub length-set_flags : (i w : ℕ) (bs : List Binder) → length (set_flags i w bs) ≡ length bs
unfolding set_flags
length-set_flags i w bs = length-set bs i _

pub length-file_answer : (i w : ℕ) (bs : List Binder) → length (file_answer i w bs) ≡ length bs
unfolding file_answer
length-file_answer i w bs = length-set bs i _

init_from-free :
    (n i j : ℕ) (bs : List Binder)
    → i + n ≡ length bs
    → ((m : ℕ) → m < i → flags_at bs m ≡ 0)
    → flags_at (init_from n i bs) j ≡ 0
unfolding init_from
init_from-free zero i j bs h done = elim (dec_lt j i) [
  | yes below ↦ done j below
  | no above ↦ ap (λ (b : Binder). b.flags) (get_or-beyond bs j free (omega arith))
]
init_from-free (suc n) i j bs h done =
    init_from-free n (suc i) j (set_flags i 0 bs) (omega (arith, length-set_flags i 0 bs))
      λ m lt. ground (arith, flags_at-set_flags bs i 0 m (omega arith), done m)

length-init_from : (n i : ℕ) (bs : List Binder) → length (init_from n i bs) ≡ length bs
unfolding init_from
length-init_from zero i bs = refl
length-init_from (suc n) i bs =
    omega (arith, length-init_from n (suc i) (set_flags i 0 bs), length-set_flags i 0 bs)

pub length-init_binder : (bs : List Binder) → length (init_binder bs) ≡ length bs
unfolding init_binder
length-init_binder bs = length-init_from 256 0 bs

-- At the start every binder is free.
pub init_binder-free :
    (bs : List Binder) (j : ℕ) → length bs ≡ nr_binders → flags_at (init_binder bs) j ≡ 0
unfolding init_binder
init_binder-free bs j h = init_from-free 256 0 j bs (omega arith) (λ m lt. absurd (omega arith))

-- `__get_binder` changes one entry, which was free and below 256, from 0 to 1.
pub get_binder-reserves :
    (v : Verbs) (fuel : ℕ) (s : Net) {index : ℕ} {s' : Net}
    → get_binder v fuel s ≡ ok index s'
    → (flags_at s.binders index ≡ 0)
      × (index < nr_binders)
      × (s'.binders ≡ set_flags index 1 s.binders)
unfolding get_binder get_random
get_binder-reserves v zero s h = cc
get_binder-reserves v (suc n) s {index} {s'} h = ground (
  arith,
  get_binder-reserves v n (record s { log = Call.clock ∷ s.log }) {index = index} {s' = s'},
)

-- the calls after `k` more reads of the clock
abbrev ticks : ℕ → History → History
ticks zero log = log
ticks (suc k) log = ticks k (Call.clock ∷ log)

abbrev taken : Verbs → Net → Net
taken v s = record {
  binders = set_flags (v.clock s.log % 256) 1 s.binders;
  log = Call.clock ∷ s.log;
}

get_binder-found :
    (v : Verbs) (k fuel : ℕ) (s : Net)
    → k < fuel
    → flags_at s.binders (v.clock (ticks k s.log) % 256) ≡ 0
    → (index : ℕ) × (s' : Net) × (get_binder v fuel s ≡ ok index s')
unfolding get_binder get_random
get_binder-found v k zero s h e = absurd (omega arith)
get_binder-found v zero (suc n) s h e = (v.clock s.log % 256, taken v s, rw (eq→== _ _ e) refl)
get_binder-found v (suc k) (suc n) s h e =
    let (j, t, r) =
      get_binder-found v k n (record s { log = Call.clock ∷ s.log }) (omega arith) e in
    elim (Bool-cases (flags_at s.binders (v.clock s.log % 256) == 0)) [
      | inl hit ↦ (v.clock s.log % 256, taken v s, rw hit refl)
      | inr miss ↦ (j, t, rw miss r)
    ]

-- `__get_binder` returns as soon as the clock points at a free entry: the rounds it takes are at
-- most those up to a reading that does. The binder that it returns was free and below 256, and is
-- the one that is taken: its mark alone changes, to 1.
pub get_binder-total :
    (v : Verbs) (k fuel : ℕ) (s : Net)
    → k < fuel
    → flags_at s.binders (v.clock (ticks k s.log) % 256) ≡ 0
    → (index : ℕ) × (s' : Net) × (get_binder v fuel s ≡ ok index s')
      × (flags_at s.binders index ≡ 0)
      × (index < nr_binders)
      × (s'.binders ≡ set_flags index 1 s.binders)
get_binder-total v k fuel s h e =
    let (index, s', r) = get_binder-found v k fuel s h e in
    let (was_free, below, taken_now) = get_binder-reserves v fuel s {index = index} {s' = s'} r in
    (index, s', r, was_free, below, taken_now)
