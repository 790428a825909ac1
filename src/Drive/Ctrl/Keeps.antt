-- ===== src/Drive/Ctrl/Keeps.antt =====
-- What requests to the servers leave alone: the staged pages, the batch, the page frames.
use maruswap.Base.{ℕ, ◌≡◌, Bool, true, false, Option, none, some, List, [], ◌∷◌, bit_or, arith}
use maruswap.Base.Run.{ok, Cmd, pure, stop, gets, ◌>>=◌, test◌then◌else◌, and_then-eq-ok}
use maruswap.Drive.Xarray.{Xarray}
use maruswap.Drive.Net.{Verbs}
use maruswap.Drive.Stage.{stage_buffer_commit}
use maruswap.Drive.Ctrl.{
  RdmaCtrl, Drive, not_null, deref, get_sub, get_main_rdma_ctrl, get_sub_rdma_ctrl, check_rdma_info,
  open_request, ib_rpc_open_unlocked, ib_rpc_open_all, commit_request, ib_rpc_commit_unlocked,
  ib_rpc_qcommit_unlocked, request_each, commit_all, ib_rpc_commit_all, ib_rpc_qcommit_all,
}

module _ (xa : Xarray) (v : Verbs) where
  pub record Keeps (s t : Drive xa.Arr) : Type 0 where
    pub stage_buffer : t.stage_buffer ≡ s.stage_buffer
    pub batch : t.batch ≡ s.batch
    pub frame : t.frame ≡ s.frame
    pub main_rdma_ctrl : t.main_rdma_ctrl ≡ s.main_rdma_ctrl
    pub ud_package : t.ud_package ≡ s.ud_package

  -- A command that keeps all this, however it returns.
  abbrev pub Quiet : {A : Type 0} → Cmd (Drive xa.Arr) A → Type 0
  Quiet {A} m = (s : Drive xa.Arr) (r : A) (t : Drive xa.Arr) → m s ≡ ok r t → Keeps s t

  pub bind-Quiet :
      {A B : Type 0} (m : Cmd (Drive xa.Arr) A) (f : A → Cmd (Drive xa.Arr) B)
      → Quiet m
      → ((a : A) → Quiet (f a))
      → Quiet (m >>= f)
  bind-Quiet m f hm hf s r t h =
      let (a, s', e, h') = and_then-eq-ok (m s) f h in
      let first = hm s a s' e in let rest = hf a s' r t h' in ground (arith, first, rest)

  pub test-Quiet :
      {A : Type 0} (b : Bool) (m k : Cmd (Drive xa.Arr) A)
      → Quiet m
      → Quiet k
      → Quiet (test b then m else k)
  test-Quiet true m k hm hk = hm
  test-Quiet false m k hm hk = hk

  pub pure-Quiet : {A : Type 0} (a : A) → Quiet (pure a)
  pure-Quiet a s r t h = ground arith

  stop-Quiet : (A : Type 0) → Quiet (stop {A = A})
  stop-Quiet A s r t h = cc

  gets-Quiet : {A : Type 0} (f : Drive xa.Arr → A) → Quiet (gets f)
  gets-Quiet f s r t h = ground arith

  deref-Quiet : (i : ℕ) → Quiet (deref xa v i)
  deref-Quiet i s r t h = ground arith

  not_null-Quiet : (o : Option ℕ) → Quiet (not_null xa v o)
  not_null-Quiet none s r t h = cc
  not_null-Quiet (some i) s r t h = ground arith

  open_request-Quiet :
      (fuel i offset : ℕ) (c : RdmaCtrl) → Quiet (open_request xa v fuel i offset c)
  unfolding open_request
  open_request-Quiet fuel i offset c s r t h = ground arith

  ib_rpc_open_unlocked-Quiet : (fuel i offset : ℕ) → Quiet (ib_rpc_open_unlocked xa v fuel i offset)
  unfolding ib_rpc_open_unlocked
  ib_rpc_open_unlocked-Quiet fuel i offset = bind-Quiet (deref xa v i) _ (deref-Quiet i) λ c.
      test-Quiet _ _ _ (stop-Quiet ℕ)
        (test-Quiet _ _ _ (open_request-Quiet fuel i offset c) (pure-Quiet 0))

  pub ib_rpc_open_all-Quiet : (fuel offset : ℕ) → Quiet (ib_rpc_open_all xa v fuel offset)
  unfolding ib_rpc_open_all get_main_rdma_ctrl get_sub_rdma_ctrl
  ib_rpc_open_all-Quiet fuel offset =
      let open_at = λ (b : Bool) (i : ℕ) (r : ℕ).
        test-Quiet b _ (pure r) (ib_rpc_open_unlocked-Quiet fuel i offset) (pure-Quiet r) in
      bind-Quiet _ _ (gets-Quiet (λ s. s.main_rdma_ctrl)) λ main.
        bind-Quiet _ _ (gets-Quiet (λ s. get_sub s.main_rdma_ctrl s.rdma_ctrl_list)) λ found.
          bind-Quiet _ _ (not_null-Quiet found) λ sub. bind-Quiet _ _ (deref-Quiet sub) λ c.
            bind-Quiet _ _ (open_at c.alive sub 0) λ first. bind-Quiet _ _ (deref-Quiet main) λ c'.
              bind-Quiet _ _ (open_at c'.alive main first) λ last. pure-Quiet (bit_or first last)

  commit_request-Quiet : (fuel opcode i : ℕ) → Quiet (commit_request xa v fuel opcode i)
  unfolding commit_request
  commit_request-Quiet fuel opcode i s r t h = ground arith

  request_each-Quiet :
      (request : ℕ → Cmd (Drive xa.Arr) ℕ) (cs : List RdmaCtrl) (ret : ℕ)
      → ((i : ℕ) → Quiet (request i))
      → Quiet (request_each xa v request cs ret)
  unfolding request_each
  request_each-Quiet request [] ret q = pure-Quiet ret
  request_each-Quiet request (c ∷ cs) ret q =
      test-Quiet c.alive _ _
        (bind-Quiet _ _ (q c.id) λ tret. request_each-Quiet request cs (bit_or ret tret) q)
        (request_each-Quiet request cs ret q)

  -- A commit of all connections empties the staged pages and the batch in the state that it began
  -- in, and keeps the rest, whatever the servers answered.
  pub record Committed (s t : Drive xa.Arr) : Type 0 where
    pub stage_buffer : t.stage_buffer ≡ stage_buffer_commit xa s.stage_buffer
    pub batch : t.batch ≡ 0
    pub frame : t.frame ≡ s.frame
    pub main_rdma_ctrl : t.main_rdma_ctrl ≡ s.main_rdma_ctrl
    pub ud_package : t.ud_package ≡ s.ud_package

  commit_all-Committed :
      (request : ℕ → Cmd (Drive xa.Arr) ℕ) (s : Drive xa.Arr) {r : ℕ} {t : Drive xa.Arr}
      → ((i : ℕ) → Quiet (request i))
      → commit_all xa v request s ≡ ok r t
      → Committed s t
  unfolding commit_all get_main_rdma_ctrl
  commit_all-Committed request s {r} {t} q h =
      let (ret, s', e, h') = and_then-eq-ok (request_each xa v request s.rdma_ctrl_list 0 s) _ h in
      let kept = request_each-Quiet request s.rdma_ctrl_list 0 q s ret s' e in ground (arith, kept)

  -- A commit to all servers that returns has cleared the staged pages and the counts, whatever the
  -- servers said, and left the page frames and the choice of servers alone.
  pub ib_rpc_commit_all-Committed :
      (fuel : ℕ) (s : Drive xa.Arr) {r : ℕ} {t : Drive xa.Arr}
      → ib_rpc_commit_all xa v fuel s ≡ ok r t
      → Committed s t
  unfolding ib_rpc_commit_all ib_rpc_commit_unlocked
  ib_rpc_commit_all-Committed fuel s h =
      commit_all-Committed _ s (λ i. commit_request-Quiet fuel _ i) h

  ib_rpc_qcommit_all-Committed :
      (fuel count : ℕ) (s : Drive xa.Arr) {r : ℕ} {t : Drive xa.Arr}
      → ib_rpc_qcommit_all xa v fuel count s ≡ ok r t
      → Committed s t
  unfolding ib_rpc_qcommit_all ib_rpc_qcommit_unlocked
  ib_rpc_qcommit_all-Committed fuel count s h =
      commit_all-Committed _ s (λ i. commit_request-Quiet fuel _ i) h

  pub check_rdma_info-Quiet : (nr : ℕ) → Quiet (check_rdma_info xa v nr)
  unfolding check_rdma_info
  check_rdma_info-Quiet nr s r t h = ground arith
