-- ===== src/Server/Store/Calls.antt =====
-- lib/handler.c: the calls that the commits of batches make.
use maruswap.Base.{ℕ, ◌≡◌, refl, ap, ◌∙◌, true, List, [], ◌∷◌, contains, arith}
use maruswap.Server.State.{History, Verbs, Server}
use maruswap.Server.Send.Deliver.{Line, line, sent_answer}
use maruswap.Server.Handler.Commit.{reposted-ids, id_of}
use maruswap.Server.Handler.Rounds.{commit_calls}
use maruswap.Server.Store.{Arrival, works_of}
use maruswap.Server.Store.{Delivery}
use maruswap.Server.Store.Batch.{Came, put_first}

module _ (v : Verbs) where
  -- The calls of a batch's commit: its receive works are posted again, and it is answered.
  abbrev pub batch_calls : Line → Delivery → (k : ℕ) → History → History
  batch_calls l b k log = commit_calls v l (λ p. p) (put_first b.pages []) b.commit.imm_data k log

  pub Came-calls :
      (pages : List Arrival) (imm_data k : ℕ) (s m : Server)
      → s.commit_list ≡ []
      → Came v pages s m
      → commit_calls v (line m) (id_of m) m.commit_list imm_data k m.log
        ≡ commit_calls v (line s) (λ p. p) (put_first pages []) imm_data k s.log
  Came-calls pages imm_data k s m none_filed c =
      let own : (p : ℕ) → contains p m.commit_list ≡ true → id_of m p ≡ p = λ p h.
        let here : contains p (works_of pages) ≡ true =
          ground (arith, h, c.filed p, ap (contains p) none_filed) in
        c.ids p ∙ rw here refl in
      let qp = m.multicast_qp in
      ap (λ (h : History). sent_answer v (line m) 1 imm_data true k h)
        (reposted-ids (id_of m) (λ p. p) qp m.commit_list m.log own)
      ∙ ap (λ (l : Line). commit_calls v l (λ p. p) m.commit_list imm_data k m.log) c.line_kept
      ∙ ap (λ (works : List ℕ). commit_calls v (line s) (λ p. p) works imm_data k m.log)
          (c.listed ∙ ap (put_first pages) none_filed)
      ∙ ap (λ (h : History). commit_calls v (line s) (λ p. p) (put_first pages []) imm_data k h)
          c.log

  -- The calls of batches with their commits, and no other, lead from one history to another.
  abbrev pub Handled : Line → List Delivery → (before after : History) → Type 0
  Handled l [] before after = after ≡ before
  Handled l (b ∷ bs) before after = (k : ℕ) × Handled l bs (batch_calls l b k before) after

  pub Handled-from :
      {l l' : Line} {before before' : History} (bs : List Delivery) (after : History)
      → l ≡ l'
      → before ≡ before'
      → Handled l bs before after
      → Handled l' bs before' after
  Handled-from bs after same calls handled = rw (same, calls) at handled
