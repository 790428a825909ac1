-- ===== src/Server/Handler/Rounds.antt =====
-- lib/handler.c, `__process_rdma_rpc_commit`: the rounds that a commit waits.
use maruswap.Base.{ℕ, ◌≡◌, refl, ap, ◌∙◌, Bool, true, false, List, ◌∷◌}
use maruswap.Base.Run.{ok, Cmd}
use maruswap.Drive.Net.{Wc}
use maruswap.Server.State.{History, Verbs, Server}
use maruswap.Server.Send.Deliver.{Line, line, Delivers, sent_answer, ib_rdma_send-Delivers}
use maruswap.Server.Handler.{
  wait_batch, commit_ready, commit_target, answer_commit, process_rdma_rpc_commit,
}
use maruswap.Server.Handler.Commit.{
  reposted, id_of, Counted, Reposts, Settled, commit_ready-Settled,
}

module _ (v : Verbs) where
  pub answer_commit-Delivers :
      (fuel : ℕ) (wc : Wc) (inline_data : Bool) (s : Server)
      → Delivers v fuel s.send_cq
      → (k : ℕ) × (answer_commit v fuel wc inline_data s
          ≡ ok tt (record s { log = sent_answer v (line s) 1 wc.imm_data inline_data k s.log }))
  unfolding answer_commit
  answer_commit-Delivers fuel wc inline_data s delivers =
      let (k, e) = ib_rdma_send-Delivers v fuel 1 wc.imm_data inline_data s delivers in
      (k, rw e refl)

  -- the calls of a commit of `pages`: each receive work is posted to the group's queue again, and
  -- the request is answered
  abbrev pub commit_calls : Line → (id : ℕ → ℕ) → List ℕ → (imm_data k : ℕ) → History → History
  commit_calls l id pages imm_data k log =
      sent_answer v l 1 imm_data true k (reposted id l.multicast_qp pages log)

  -- What follows the wait: the pages that have come are settled, and their works and the answer
  -- posted.
  pub commit_ready-answered :
      (fuel : ℕ) (wc : Wc) (s : Server)
      → Reposts v
      → Delivers v fuel s.send_cq
      → Counted v s
      → s.lock ≡ false
      → (n t : Server) × (commit_ready v s ≡ ok tt n)
        × (answer_commit v fuel wc true n ≡ ok tt t)
        × Settled v s t
        × (line t ≡ line s)
        × (k : ℕ) × (t.log ≡ commit_calls (line s) (id_of s) s.commit_list wc.imm_data k s.log)
  commit_ready-answered fuel wc s good delivers counted free =
      let (n, done, settled, calls, same) = commit_ready-Settled v s good counted free in
      let cq = ap (λ (l : Line). l.send_cq) same in
      let (k, answered) = answer_commit-Delivers fuel wc true n (rw cq delivers) in
      let t : Server = record n { log = sent_answer v (line n) 1 wc.imm_data true k n.log } in
      (
        n,
        t,
        done,
        answered,
        record {
          emptied = settled.emptied;
          batch = settled.batch;
          fresh = settled.fresh;
          memory = settled.memory;
          memblocks = settled.memblocks;
          lock = settled.lock;
        },
        same,
        k,
        ap (λ (l : Line). sent_answer v l 1 wc.imm_data true k n.log) same
            ∙ ap (λ (h : History). sent_answer v (line s) 1 wc.imm_data true k h) calls,
      )

  -- What holds while the commit waits.
  pub record Waiting (cq : ℕ) (s : Server) : Type 0 where
    pub counted : Counted v s
    pub free : s.lock ≡ false
    pub same_cq : s.send_cq ≡ cq

  -- the steps of a commit, in their order
  pub commit_steps :
      (other : Cmd Server (Unit {0})) (fuel : ℕ) (wc : Wc) (s m n t : Server) (p : ℕ) (ps : List ℕ)
      → s.commit_list ≡ p ∷ ps
      → wait_batch v other fuel (commit_target v wc.imm_data) s ≡ ok tt m
      → commit_ready v m ≡ ok tt n
      → answer_commit v fuel wc true n ≡ ok tt t
      → process_rdma_rpc_commit v other fuel wc s ≡ ok tt t
  unfolding process_rdma_rpc_commit
  commit_steps other fuel wc s m n t p ps pages waited done answered = cc
