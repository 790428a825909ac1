-- ===== src/Drive/Binder.antt =====
-- drive/sib.c: the table that tells the answers of concurrent RPCs apart.
-- flags 0: free, 1: reserved by a request, 2: its answer has come.
pub mod Reserve
pub mod Exclusive
use maruswap.Base.{ℕ, zero, suc, ◌%◌, ◌≡◌, List, [], ◌∷◌, ◌==◌, get_or, set, replicate}
use maruswap.Base.Run.{ok, out_of_fuel, Cmd, pure, ◌>>=◌, ◌>>◌, gets, modify, test◌then◌else◌}
use maruswap.Drive.Net.{Binder, Net, Verbs, Call, ask}

abbrev pub nr_binders : ℕ
nr_binders = 256

abbrev pub free : Binder
free = record { flags = 0; private = 0 }

abbrev pub binder_at : List Binder → ℕ → Binder
binder_at bs i = get_or bs i free

abbrev pub flags_at : List Binder → ℕ → ℕ
flags_at bs i = (binder_at bs i).flags

-- `atomic_set(&binders[index].flags, v)`
unfoldable pub set_flags : ℕ → ℕ → List Binder → List Binder
set_flags index v bs = set bs index (record (binder_at bs index) { flags = v })

-- the two writes on an answer, to `private` and then to `flags`
unfoldable pub file_answer : (slot work : ℕ) → List Binder → List Binder
file_answer slot work bs = set bs slot (record { flags = 2; private = work })

-- for (; i < n; i++), with `n - i` rounds left
init_from : (rounds i : ℕ) → List Binder → List Binder
init_from zero i bs = bs
init_from (suc n) i bs = init_from n (suc i) (set_flags i 0 bs)

pub init_binder : List Binder → List Binder
unfolding init_from
init_binder bs = init_from nr_binders 0 bs

module _ (v : Verbs) where
  unfoldable pub get_random : Cmd Net ℕ
  get_random = do now ← ask Call.clock v.clock; pure (now % 256)

  -- `do { … } while (old != 0)`, with fuel for the rounds
  unfoldable pub get_binder : (fuel : ℕ) → Cmd Net ℕ
  unfolding get_random set_flags
  get_binder zero = λ _. out_of_fuel
  get_binder (suc n) = do
    index ← get_random
    old ← gets (λ s. flags_at s.binders index)
    test old == 0
        then (do modify (λ s. record s { binders = set_flags index 1 s.binders }); pure index)
        else get_binder n

-- A binder with no answer is left as it is.
unfoldable pub put_binder : ℕ → Cmd Net (Unit {0})
unfolding set_flags
put_binder index = do
  state ← gets (λ s. flags_at s.binders index)
  test state == 2 then modify (λ s. record s { binders = set_flags index 0 s.binders }) else pure tt
