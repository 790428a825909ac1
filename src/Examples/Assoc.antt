-- ===== src/Examples/Assoc.antt =====
-- An xarray that can be run: the stores and erasures, the latest first.
use maruswap.Base.{
  ℕ, ◌≡◌, refl, ◌≢◌, true, List, [], ◌∷◌, ◌==◌, if◌then◌else◌, contains, Bool-cases, inl, inr,
  arith,
}
use maruswap.Drive.Xarray.{Xarray}

abbrev pub Entries : Type 0
Entries = List (ℕ × ℕ)

abbrev pub load_entry : Entries → ℕ → ℕ
load_entry [] i = 0
load_entry ((k, v) ∷ es) i = if k == i then v else load_entry es i

abbrev pub keys : Entries → List ℕ
keys [] = []
keys ((k, v) ∷ es) = k ∷ keys es

pub keys-visits : (es : Entries) (i : ℕ) → load_entry es i ≢ 0 → contains i (keys es) ≡ true
keys-visits [] i h = absurd (h refl)
keys-visits ((k, v) ∷ es) i h = elim (Bool-cases (k == i)) [
  | inl hit ↦ ground (arith, hit)
  | inr miss ↦ ground (arith, miss, keys-visits es i (rw miss at h))
]

abbrev pub assoc : Xarray
assoc = record {
  Arr = Entries;
  empty = [];
  load = load_entry;
  store = λ es i v. (i, v) ∷ es;
  erase = λ es i. (i, 0) ∷ es;
  entries = keys;
  load-empty = λ i. refl;
  load-store = λ es i v j. refl;
  load-erase = λ es i j. refl;
  visits = keys-visits;
}
