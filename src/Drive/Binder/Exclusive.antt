-- ===== src/Drive/Binder/Exclusive.antt =====
-- Threads that run `__ib_rpc` at once, an atomic access to the table at a time.
use maruswap.Base.{
  ℕ, ◌<◌, ◌≡◌, ◌≢◌, true, List, [], ◌∷◌, length, contains, erase, IsNodup, contains-erase,
  erase-IsNodup, arith,
}
use mathlib.Core.Bool.{false≢true}
use maruswap.Drive.Net.{Binder}
use maruswap.Drive.Binder.{nr_binders, flags_at, set_flags, file_answer, init_binder}
use maruswap.Drive.Binder.Reserve.{
  flags_at-set_flags, flags_at-file_answer, length-set_flags, length-file_answer,
  length-init_binder,
}

-- The table, and the binders of the threads that are between `__get_binder` and `__put_binder`.
pub record Table : Type 0 where
  pub binders : List Binder
  pub held : List ℕ

pub data Step (t : Table) : Table → Type 0 where
  -- the compare-exchange of `__get_binder` succeeds
  reserve :
      (i : ℕ)
      → i < nr_binders
      → flags_at t.binders i ≡ 0
      → Step t (record { binders = set_flags i 1 t.binders; held = i ∷ t.held })
  -- some thread files a completion; the slot comes from the wire and need not be reserved
  answer :
      (i work : ℕ) → i < nr_binders → Step t (record t { binders = file_answer i work t.binders })
  -- `__put_binder` by a thread that has seen its answer
  release :
      (i : ℕ)
      → contains i t.held ≡ true
      → flags_at t.binders i ≡ 2
      → Step t (record { binders = set_flags i 0 t.binders; held = erase i t.held })
  -- a thread that gives up on an error keeps its entry, and never touches it again
  abandon : (i : ℕ) → contains i t.held ≡ true → Step t (record t { held = erase i t.held })

pub data Reach (bs : List Binder) : Table → Type 0 where
  start : Reach bs (record { binders = init_binder bs; held = [] })
  later : {t u : Table} → Reach bs t → Step t u → Reach bs u

record Inv (t : Table) : Type 0 where
  size : length t.binders ≡ nr_binders
  distinct : IsNodup t.held
  in_use : (i : ℕ) → contains i t.held ≡ true → (i < nr_binders) × (flags_at t.binders i ≢ 0)

Step-Inv : {t u : Table} → Step t u → Inv t → Inv u
Step-Inv {t} (reserve i lt was_free) inv = record {
  size = omega (arith, length-set_flags i 1 t.binders, inv.size);
  distinct = (ground (arith, inv.in_use i), inv.distinct);
  in_use = λ j h.
      ground (arith, flags_at-set_flags t.binders i 1 j (omega (arith, inv.size)), inv.in_use j);
}
Step-Inv {t} (answer i work lt) inv = record {
  size = omega (arith, length-file_answer i work t.binders, inv.size);
  distinct = inv.distinct;
  in_use = λ j h.
      ground
        (arith, flags_at-file_answer t.binders i work j (omega (arith, inv.size)), inv.in_use j);
}
Step-Inv {t} (release i has came) inv = record {
  size = omega (arith, length-set_flags i 0 t.binders, inv.size);
  distinct = erase-IsNodup i t.held inv.distinct;
  in_use = λ j h. ground (
    arith,
    flags_at-set_flags t.binders i 0 j (omega (arith, inv.size, inv.in_use i has)),
    contains-erase j i t.held inv.distinct,
    inv.in_use j,
  );
}
Step-Inv {t} (abandon i has) inv = record {
  size = inv.size;
  distinct = erase-IsNodup i t.held inv.distinct;
  in_use = λ j h. ground (arith, contains-erase j i t.held inv.distinct, inv.in_use j);
}

Reach-Inv : {bs : List Binder} {t : Table} → length bs ≡ nr_binders → Reach bs t → Inv t
Reach-Inv {bs} size start = record {
  size = omega (arith, length-init_binder bs, size);
  distinct = tt;
  in_use = λ i h. absurd (false≢true h);
}
Reach-Inv size (later r st) = Step-Inv st (Reach-Inv size r)

-- Whatever the order of the threads' accesses, and whatever slots the answers name, no two threads
-- hold one binder, and a held binder is in the table and not free.
pub held_exclusive :
    {bs : List Binder} {t : Table}
    → length bs ≡ nr_binders
    → Reach bs t
    → IsNodup t.held
      × ((i : ℕ) → contains i t.held ≡ true → (i < nr_binders) × (flags_at t.binders i ≢ 0))
held_exclusive size r = let inv = Reach-Inv size r in (inv.distinct, inv.in_use)
