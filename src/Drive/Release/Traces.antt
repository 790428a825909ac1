-- ===== src/Drive/Release/Traces.antt =====
-- What a log of calls shows of ids, protection domains and queues.
use maruswap.Base.{ℕ, ◌≡◌, refl, ◌∙◌, List, [], ◌∷◌, ◌==◌, Bool-cases, inl, inr, if◌then◌else◌}
use maruswap.Drive.Connect.{
  Call, History, Setup, destroy_id, destroy_qp, dealloc_pd, free_cq, kfree, dereg_mr,
}
use maruswap.Drive.Connect.Quiet.{destroyed}

-- the protection domains and completion queues that it gives back
abbrev pub returned : History → List ℕ
returned [] = []
returned (dealloc_pd pd ∷ log) = pd ∷ returned log
returned (free_cq cq ∷ log) = cq ∷ returned log
returned (_ ∷ log) = returned log

abbrev pub present : ℕ → List ℕ → List ℕ
present p l = if p == 0 then l else p ∷ l

-- the ids of connections on a list, on top of others
abbrev pub ids : List Setup → List ℕ → List ℕ
ids [] l = l
ids (c ∷ cs) l = ids cs (present c.rdma l)

abbrev pub logged : (p : ℕ) → Call → History → History
logged p c log = if p == 0 then log else c ∷ log

pub logged-same :
    (f : History → List ℕ) (p : ℕ) (c : Call) (log : History)
    → f (c ∷ log) ≡ f log
    → f (logged p c log) ≡ f log
logged-same f p c log h = elim (Bool-cases (p == 0)) [ inl e ↦ rw e refl | inr e ↦ rw e h ]

pub logged-destroy_id :
    (p : ℕ) (log : History) → destroyed (logged p (destroy_id p) log) ≡ present p (destroyed log)
logged-destroy_id p log = elim (Bool-cases (p == 0)) [ inl e ↦ rw e refl | inr e ↦ rw e refl ]

-- A view of the log that frees and queue pairs do not show in.
unfoldable pub Blind : (History → List ℕ) → Type 0
Blind f =
    (log : History) (p : ℕ)
    → (f (kfree p ∷ log) ≡ f log)
      × (f (dereg_mr p ∷ log) ≡ f log)
      × (f (destroy_qp p ∷ log) ≡ f log)

pub destroyed-Blind : Blind destroyed
unfolding Blind
destroyed-Blind log p = (refl, refl, refl)

pub returned-Blind : Blind returned
unfolding Blind
returned-Blind log p = (refl, refl, refl)

-- the log with all that a connection or the group has but its id
abbrev pub owned_log : Setup → History → History
owned_log c log = logged c.qp (destroy_qp c.rdma) (logged c.mr (dereg_mr c.mr) log)

pub owned_log-same :
    (f : History → List ℕ) (c : Setup) (log : History) → Blind f → f (owned_log c log) ≡ f log
unfolding Blind
owned_log-same f c log b =
    logged-same f c.qp _ _ (b _ c.rdma).2 ∙ logged-same f c.mr _ log (b log c.mr).1

pub freed-same :
    (f : History → List ℕ) (p : ℕ) (log : History) → Blind f → f (logged p (kfree p) log) ≡ f log
unfolding Blind
freed-same f p log b = logged-same f p (kfree p) log (b log p).0
