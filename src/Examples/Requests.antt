-- ===== src/Examples/Requests.antt =====
-- Binders and requests over a network that answers, refuses or goes astray.
use maruswap.Base.{
  ℕ, ◌<◌, ◌≡◌, refl, ◌≢◌, true, none, List, [], ◌∷◌, length, contains, IsNodup, replicate, arith,
}
use maruswap.Base.Run.{Run, ok, fault, out_of_fuel}
use maruswap.Drive.Header.{rpc_imm, open_opcode, answer_slot}
use maruswap.Drive.Net.{empty, completed, Wc, Verbs, Net, Binder}
use maruswap.Drive.Binder.{
  nr_binders, free, flags_at, get_binder, get_random, set_flags, file_answer, init_binder,
}
use maruswap.Drive.Binder.Reserve.{init_binder-free, get_binder-total}
use maruswap.Drive.Binder.Exclusive.{Table, Reach, reserve, answer, start, later, held_exclusive}
use maruswap.Drive.Rpc.{finished, await_answer, ib_rpc, ib_rpc_reserved, ib_rpc_answer, rpc_request}
use maruswap.Drive.Rpc.Leak.{ib_rpc-leaks}
use maruswap.Drive.Rpc.Wait.{
  Arrives, now, later, polls, Only, Works, await_answer-finishes, open_starves,
}
use maruswap.Examples.Driver.{prompt, qp0}

abbrev idle : List Binder
idle = replicate nr_binders free

abbrev net0 : Net
net0 = record { binders = idle; log = [] }

abbrev net_of : {A : Type 0} → Run Net A → Net
net_of (ok a s) = s
net_of fault = net0
net_of out_of_fuel = net0

abbrev reserved7 : Net
reserved7 = net_of (get_binder prompt 2 net0)

reserved7_ok : get_binder prompt 2 net0 ≡ ok 7 reserved7
unfolding get_binder get_random set_flags
reserved7_ok = refl

get_binder-total_example :
    (index : ℕ) × (s' : Net) × (get_binder prompt 2 net0 ≡ ok index s')
    × (flags_at net0.binders index ≡ 0)
    × (index < nr_binders)
    × (s'.binders ≡ set_flags index 1 net0.binders)
get_binder-total_example = get_binder-total prompt 0 2 net0 (omega arith) refl

-- a thread reserves binder 7, and an answer comes for it
abbrev table2 : Table
table2 = record { binders = file_answer 7 1 (set_flags 7 1 (init_binder idle)); held = 7 ∷ [] }

table2-Reach : Reach idle table2
table2-Reach =
    later (later start (reserve 7 (omega arith) (init_binder-free idle 7 refl)))
      (answer 7 1 (omega arith))

held_exclusive_example :
    IsNodup table2.held
    × ((i : ℕ) → contains i table2.held ≡ true → (i < nr_binders) × (flags_at table2.binders i ≢ 0))
held_exclusive_example = held_exclusive {bs = idle} {t = table2} refl table2-Reach

-- a queue pair that takes no request
abbrev refusing : Verbs
refusing = record prompt { bad_wr = λ log qp wr. true }

abbrev leaked : Net
leaked = net_of (ib_rpc refusing 2 qp0 0x30000000 0x6000 4 net0)

leaked_ok : ib_rpc refusing 2 qp0 0x30000000 0x6000 4 net0 ≡ ok none leaked
unfolding ib_rpc ib_rpc_reserved rpc_request get_binder get_random set_flags
leaked_ok = refl

ib_rpc-leaks_example :
    (i : ℕ) × (i < nr_binders) × (flags_at net0.binders i ≡ 0) × (flags_at leaked.binders i ≢ 0)
ib_rpc-leaks_example =
    ib_rpc-leaks refusing 2 qp0 0x30000000 0x6000 4 net0 {t = leaked} refl leaked_ok

abbrev wc7 : Wc
wc7 = record { success = true; imm_data = 7; wr_id = 1 }

-- the completion comes at the second look
abbrev slow : Verbs
slow = record prompt { poll_cq = λ log cq. elim log [ [] ↦ empty | c ∷ cs ↦ completed wc7 ] }

slow-Arrives : Arrives slow 3 wc7 1 []
slow-Arrives = later refl (now refl refl)

await_answer-finishes_example :
    await_answer slow 3 3 7 net0
    ≡ ok finished (record { binders = file_answer 7 1 idle; log = polls slow 3 2 [] })
unfolding answer_slot
await_answer-finishes_example =
    await_answer-finishes slow {k = 1} {cq = 3} {wc = wc7} 3 net0 slow-Arrives (omega arith) refl
      (omega arith) (omega arith)

-- A server that answers the request for page number 0x40003 with the request's own header.
abbrev echo : Verbs
echo = record prompt {
  poll_cq = λ log cq.
      completed (record { success = true; imm_data = rpc_imm (open_opcode 0x40003) 1; wr_id = 1 });
}

abbrev asked : Net
asked = record { binders = set_flags 1 1 idle; log = [] }

echo-Only : Only echo 3 (rpc_imm (open_opcode 0x40003) 1)
echo-Only log wc h = ground (arith, h)

echo-Works : Works echo 3
echo-Works log h = ground (arith, h)

asked_size : length asked.binders ≡ nr_binders
unfolding set_flags
asked_size = refl

asked_reserved : flags_at asked.binders 1 ≡ 1
unfolding set_flags
asked_reserved = refl

open_starves_example : ib_rpc_answer echo 1000 qp0 1 asked ≡ out_of_fuel
open_starves_example =
    open_starves echo 1000 qp0 0x40003 1 asked (omega arith) (omega arith) echo-Only echo-Works
      asked_size asked_reserved
