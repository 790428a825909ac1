-- ===== src/Server/Rpc.antt =====
-- lib/rpc.c: the binders of the library, and the requests that a client of it makes.
pub mod GivenBack
use maruswap.Base.{
  ℕ, zero, suc, ◌%◌, Bool, true, false, not, List, ◌∷◌, ◌==◌, get_or, set, bit_or, bit_and,
  if◌then◌else◌,
}
use maruswap.Base.Run.{ok, out_of_fuel, Cmd, pure, ◌>>=◌, ◌>>◌, gets, modify, stop, test◌then◌else◌}
use maruswap.Drive.Net.{empty, failed, completed}
use maruswap.Server.State.{send_with_imm, SendWr, Call, History, Verbs}

-- `struct binder`
pub record Binder : Type 0 where
  pub flags : ℕ
  pub private : ℕ

abbrev pub nr_binders : ℕ
nr_binders = 256

abbrev pub ready_buffer : ℕ
ready_buffer = 3

abbrev pub release_buffer : ℕ
release_buffer = 0

abbrev pub free : Binder
free = record { flags = 0; private = 0 }

-- `binders`, and the calls made
pub record Client : Type 0 where
  pub binders : List Binder
  pub log : History

abbrev pub binder_at : Client → ℕ → Binder
binder_at s i = get_or s.binders i free

-- `buffer[0]` of a `char *buffer`, as the byte it holds
unfoldable pub set_ready_buffer : (buffer : ℕ) → ℕ
set_ready_buffer buffer = bit_or buffer ready_buffer

unfoldable pub set_release_buffer : (buffer : ℕ) → ℕ
set_release_buffer buffer = bit_and buffer release_buffer

-- `atomic_set(&binders[i].flags, f)`
unfoldable pub set_binder_flags : (i f : ℕ) → Client → Client
set_binder_flags i f s = record s {
  binders = set s.binders i (record (binder_at s i) { flags = f });
}

-- the two writes of an answer
unfoldable pub file_binder : (i work : ℕ) → Client → Client
file_binder i work s = record s { binders = set s.binders i (record { flags = 2; private = work }) }

-- from entry `i` on
unfoldable pub init_from : (rounds i : ℕ) → Client → Client
unfolding set_binder_flags
init_from zero i s = s
init_from (suc n) i s = init_from n (suc i) (set_binder_flags i 0 s)

unfoldable pub init_binder : Cmd Client (Unit {0})
unfolding init_from
init_binder = modify (init_from nr_binders 0)

module _ (v : Verbs) where
  abbrev ask : {A : Type 0} → Call → (History → A) → Cmd Client A
  ask c f s = ok (f s.log) (record s { log = c ∷ s.log })

  -- `do { … } while (old != 0)`; `rand()` is not negative.
  unfoldable pub get_binder : (fuel : ℕ) → Cmd Client ℕ
  unfolding set_binder_flags
  get_binder zero = λ _. out_of_fuel
  get_binder (suc n) = do
    random ← ask Call.rand (λ log. v.answer log Call.rand)
    let index = random % nr_binders
    old ← gets (λ s. (binder_at s index).flags)
    test old == 0 then (do modify (set_binder_flags index 1); pure index) else get_binder n

  -- With its assertion.
  unfoldable pub put_binder : (index : ℕ) → Cmd Client (Unit {0})
  unfolding set_binder_flags
  put_binder index = do
    flags ← gets (λ s. (binder_at s index).flags)
    test flags == 2 then modify (set_binder_flags index 0) else stop

  -- `while (flags != 2)`; the status of a completion is not looked at. `false` is the return of it.
  unfoldable pub await_binder : (fuel cq binder : ℕ) → Cmd Client Bool
  unfolding file_binder
  await_binder zero cq binder = λ _. out_of_fuel
  await_binder (suc n) cq binder = do
    flags ← gets (λ s. (binder_at s binder).flags)
    test flags == 2 then pure true else do
      polled ← ask (Call.poll_cq cq) (λ log. v.poll_cq log cq)
      elim polled [
        | empty ↦ await_binder n cq binder
        | failed ↦ pure false
        | completed wc ↦ do
          modify (file_binder (bit_and wc.imm_data 0xff) wc.wr_id)
          await_binder n cq binder
      ]

  -- `while (mr && !done)`: an error of the poll leaves the loop.
  unfoldable pub await_sent : (fuel cq mine : ℕ) → Cmd Client Bool
  await_sent zero cq mine = λ _. out_of_fuel
  await_sent (suc n) cq mine = do
    polled ← ask (Call.poll_cq cq) (λ log. v.poll_cq log cq)
    elim polled [
      | empty ↦ await_sent n cq mine
      | failed ↦ pure true
      | completed wc ↦
          test wc.success
          then (test wc.wr_id == mine then pure true else await_sent n cq mine)
          else pure false
    ]

  -- An assertion follows each post.
  unfoldable pub post_request : (qp : ℕ) → SendWr → Cmd Client (Unit {0})
  post_request qp wr = do
    bad ← ask (Call.post_send qp wr) (λ log. v.bad_wr log (Call.post_send qp wr))
    test bad then stop else pure tt

  -- The receive work is handed back and the binder freed; it faults on a binder with no work.
  unfoldable pub take_work : (qp binder : ℕ) → Cmd Client (Unit {0})
  unfolding put_binder
  take_work qp binder = do
    work ← gets (λ s. (binder_at s binder).private)
    test work == 0 then stop else do
      bad ← ask (Call.post_recv qp work) (λ log. v.bad_wr log (Call.post_recv qp work))
      test bad then stop else put_binder binder

  -- A request with no registration, 0, is sent inline, and its completion is not waited for.
  unfoldable pub client_wr :
      (mine opcode binder req req_size mr : ℕ) → (signaled : Bool) → (ah qpn qkey : ℕ) → SendWr
  client_wr mine opcode binder req req_size mr signaled ah qpn qkey = record {
    opcode = send_with_imm;
    imm_data = bit_or opcode binder;
    wr_id = mine;
    addr = req;
    length = req_size;
    lkey = if mr == 0 then 0 else v.mr_lkey mr;
    signaled = signaled;
    inline_data = mr == 0;
    remote_addr = 0;
    rkey = 0;
    ah = ah;
    remote_qpn = qpn;
    remote_qkey = qkey;
  }

  -- The copy of the answer to `res` is not kept.
  unfoldable pub ib_rpc : (fuel qp send_cq recv_cq opcode req req_size mr : ℕ) → Cmd Client Bool
  unfolding client_wr get_binder post_request await_binder take_work await_sent
  ib_rpc fuel qp send_cq recv_cq opcode req req_size mr = do
    mine ← gets (λ s. v.local s.log)
    binder ← get_binder fuel
    post_request qp (client_wr mine opcode binder req req_size mr true 0 0 0)
    came ← await_binder fuel recv_cq binder
    test not came
        then pure false
        else do take_work qp binder; test mr == 0 then pure true else await_sent fuel send_cq mine

  -- No answer is copied, and nothing waits for the request's completion.
  unfoldable pub ib_multicast_rpc :
      (fuel qp recv_cq opcode req req_size mr ah qpn qkey : ℕ) → Cmd Client Bool
  unfolding client_wr get_binder post_request await_binder take_work
  ib_multicast_rpc fuel qp recv_cq opcode req req_size mr ah qpn qkey = do
    binder ← get_binder fuel
    post_request qp (client_wr 0 opcode binder req req_size mr false ah qpn qkey)
    came ← await_binder fuel recv_cq binder
    test not came then pure false else do take_work qp binder; pure true
