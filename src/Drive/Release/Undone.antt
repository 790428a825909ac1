-- ===== src/Drive/Release/Undone.antt =====
-- Loading the module and taking it down again.
use maruswap.Base.{ℕ, ◌≢◌, List, [], ◌∷◌}
use maruswap.Drive.Xarray.{Xarray}
use maruswap.Drive.Release.Traces.{present}

-- the ids, from the tags of the connections
abbrev tag_ids : List (ℕ × ℕ × ℕ) → List ℕ → List ℕ
tag_ids [] l = l
tag_ids ((self, id, rdma) ∷ cs) l = tag_ids cs (present rdma l)

abbrev NonNull : List ℕ → Type 0
NonNull [] = Unit {0}
NonNull (x ∷ xs) = (x ≢ 0) × NonNull xs
