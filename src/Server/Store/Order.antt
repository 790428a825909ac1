-- ===== src/Server/Store/Order.antt =====
-- The order in which the pages of a batch come, and the receive works that they take.
use mathlib.Core.Path.{fun_ext}
use mathlib.Core.Logic.{∥∥₁_elim}
use mathlib.Core.List.{Perm, Permᴰ}
use maruswap.Base.{
  ℕ, ◌≡◌, refl, sym, ap, ◌∙◌, ◌≢◌, false, ◌||◌, List, [], ◌∷◌, ◌==◌, contains, IsNodup, Bool-cases,
  inl, inr, or_left_comm, arith,
}
use maruswap.Base.Run.{ok}
use maruswap.Server.State.{Verbs, Server}
use maruswap.Server.Store.{
  Arrival, arrive_all, IsStore, AllAwaited, works_of, Pages, put, put_all, view,
}
use maruswap.Server.Store.Batch.{arrive_all-Came}

-- what the driver sends, a page number and a content
abbrev pub sent : List Arrival → List (ℕ × ℕ)
sent [] = []
sent (a ∷ rest) = (a.number, a.content) ∷ sent rest

abbrev pub numbers : List (ℕ × ℕ) → List ℕ
numbers [] = []
numbers (m ∷ rest) = m.0 ∷ numbers rest

abbrev pub put_each : List (ℕ × ℕ) → Pages → Pages
put_each [] s = s
put_each (m ∷ rest) s = put_each rest (put m.0 m.1 s)

pub put_all-sent : (pages : List Arrival) (s : Pages) → put_all pages s ≡ put_each (sent pages) s
put_all-sent [] s = refl
put_all-sent (a ∷ rest) s = put_all-sent rest (put a.number a.content s)

put_comm : (n k c d : ℕ) (s : Pages) → n ≢ k → put n c (put k d s) ≡ put k d (put n c s)
put_comm n k c d s ne = fun_ext λ j. elim (Bool-cases (n == j)) [
  | inl here ↦ let miss : (k == j) ≡ false = ground (arith, ne, here) in rw (here, miss) refl
  | inr not_here ↦ rw not_here refl
]

contains-perm :
    {xs ys : List (ℕ × ℕ)} (n : ℕ) → Permᴰ xs ys → contains n (numbers xs) ≡ contains n (numbers ys)
contains-perm n Permᴰ.nil = refl
contains-perm n (Permᴰ.cons e p) = λ i. ((e i).0 == n) || contains-perm n p i
contains-perm n (Permᴰ.swap {a} {b} {l = l} e f) =
    or_left_comm (a.0 == n) (b.0 == n) (contains n (numbers l))
    ∙ (λ i. ((f i).0 == n) || (((e i).0 == n) || contains n (numbers l)))
contains-perm n (Permᴰ.trans p q) = contains-perm n p ∙ contains-perm n q

IsNodup-perm : {xs ys : List (ℕ × ℕ)} → Permᴰ xs ys → IsNodup (numbers xs) → IsNodup (numbers ys)
IsNodup-perm Permᴰ.nil h = tt
IsNodup-perm (Permᴰ.cons {b = b} e p) h =
    (sym (contains-perm b.0 p) ∙ rw (← ap (λ m. m.0) e) h.0, IsNodup-perm p h.1)
IsNodup-perm (Permᴰ.swap {a} {b} {a'} {b'} {l} e f) h =
    let e0 : a.0 ≡ b'.0 = ap (λ m. m.0) e in
    let f0 : b.0 ≡ a'.0 = ap (λ m. m.0) f in ground (arith, h.0, h.1.0)
IsNodup-perm (Permᴰ.trans p q) h = IsNodup-perm q (IsNodup-perm p h)

put_each-perm :
    {xs ys : List (ℕ × ℕ)} (s : Pages)
    → Permᴰ xs ys
    → IsNodup (numbers xs)
    → put_each xs s ≡ put_each ys s
put_each-perm s Permᴰ.nil h = refl
put_each-perm s (Permᴰ.cons {a} {l₂ = l} e p) h =
    put_each-perm (put a.0 a.1 s) p h.1 ∙ (λ i. put_each l (put (e i).0 (e i).1 s))
put_each-perm s (Permᴰ.swap {a} {b} {l = l} e f) h =
    ap (put_each l) (put_comm b.0 a.0 b.1 a.1 s (λ eq. ground (arith, h.0, eq)))
    ∙ (λ i. put_each l (put (e i).0 (e i).1 (put (f i).0 (f i).1 s)))
put_each-perm s (Permᴰ.trans p q) h = put_each-perm s p h ∙ put_each-perm s q (IsNodup-perm p h)

Pages-set : IsSet Pages
Pages-set = hlevel

pub put_each-Perm :
    {xs ys : List (ℕ × ℕ)} (s : Pages)
    → Perm xs ys
    → IsNodup (numbers xs)
    → put_each xs s ≡ put_each ys s
put_each-Perm s p h = ∥∥₁_elim p (Pages-set _ _) (λ q. put_each-perm s q h)

module _ (v : Verbs) (v' : Verbs) where
  -- Two servers that hold the same store get the same batch, no page number twice, each in an order
  -- of its own and in receive works of its own, all awaited. Then both take in all of it, hold the
  -- same store again, and keep the invariant.
  pub arrive_all-Perm :
      (fuel fuel' : ℕ) (pages pages' : List Arrival) (s s' : Server)
      → IsStore v s
      → IsStore v' s'
      → AllAwaited v s pages
      → AllAwaited v' s' pages'
      → IsNodup (works_of pages)
      → IsNodup (works_of pages')
      → Perm (sent pages) (sent pages')
      → IsNodup (numbers (sent pages))
      → view s ≡ view s'
      → (t : Server) × (t' : Server) × (arrive_all v fuel pages s ≡ ok tt t)
        × (arrive_all v' fuel' pages' s' ≡ ok tt t')
        × (view t ≡ view t')
        × IsStore v t
        × IsStore v' t'
  arrive_all-Perm fuel fuel' pages pages' s s' i i' all all' nodup nodup' perm single same =
      let (t, e, c) = arrive_all-Came v fuel pages s i all nodup in
      let (t', e', c') = arrive_all-Came v' fuel' pages' s' i' all' nodup' in
      (
        t,
        t',
        e,
        e',
        c.shows
            ∙ put_all-sent pages (view s)
            ∙ put_each-Perm (view s) perm single
            ∙ sym (put_all-sent pages' (view s))
            ∙ ap (put_all pages') same
            ∙ sym c'.shows,
        c.store,
        c'.store,
      )
