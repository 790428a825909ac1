-- ===== src/Drive/Xarray.antt =====
-- The kernel's xarray, as far as drive/sib.c relies on it. A NULL entry, 0, is no entry. A store
-- takes effect: `__xa_store` can fail for want of memory, which the code does not look at.
use maruswap.Base.{ℕ, ◌≡◌, ◌≢◌, true, List, ◌==◌, if◌then◌else◌, contains}

pub record Xarray : Type 1 where
  pub Arr : Type 0
  -- `xa_init`
  pub empty : Arr
  pub load : Arr → ℕ → ℕ
  pub store : Arr → ℕ → ℕ → Arr
  pub erase : Arr → ℕ → Arr
  -- the indices that `xa_for_each` visits
  pub entries : Arr → List ℕ
  pub load-empty : (i : ℕ) → load empty i ≡ 0
  pub load-store : (a : Arr) (i v j : ℕ) → load (store a i v) j ≡ (if i == j then v else load a j)
  pub load-erase : (a : Arr) (i j : ℕ) → load (erase a i) j ≡ (if i == j then 0 else load a j)
  pub visits : (a : Arr) (i : ℕ) → load a i ≢ 0 → contains i (entries a) ≡ true
