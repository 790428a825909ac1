-- ===== src/Examples/Servers.antt =====
-- A server with one block and a page on its way.
use maruswap.Base.{
  ℕ, ◌≡◌, refl, Bool, true, false, none, some, [], ◌∷◌, length, get_or, replicate, arith,
}
use maruswap.Base.Run.{ok}
use maruswap.Drive.Header.{max_memblock, flow_header, get_num_memblock}
use maruswap.Drive.Net.{Wc, completed}
use maruswap.Server.Header.{Fields, interpret_header}
use maruswap.Server.State.{Call, History, Verbs, Memblock, RecvWork, Server}
use maruswap.Server.Send.Deliver.{line, Delivers, now, sent_answer}
use maruswap.Server.Memblock.{add_memblock}
use maruswap.Server.Memblock.Add.{Added, add_memblock-Added}
use maruswap.Server.Handler.{process_rdma_rpc_open}
use maruswap.Server.Handler.Commit.{Counted}
use maruswap.Server.Handler.Open.{told, process_rdma_rpc_open-answers}
use maruswap.Server.Multicast.{ib_process_multicast_completion}
use maruswap.Server.Multicast.Flow.{flowed, ib_process_multicast_completion-flowed}
use maruswap.Server.Alloc.{rdma_memory_handler_die}
use maruswap.Server.Alloc.Buffers.{rdma_memory_handler_die-empties}

-- Pointers are given out as 16, ints are 0, and a poll completes the request posted last.
abbrev pub pointer : Call → ℕ
pointer Call.malloc = 16
pointer (Call.mmap size) = 16
pointer (Call.reg_mr pd addr size) = 16
pointer Call.create_event_channel = 16
pointer _ = 0

abbrev pub latest : History → ℕ
latest [] = 0
latest (Call.post_send qp wr ∷ log) = wr.wr_id
latest (c ∷ log) = latest log

abbrev pub prompt : Verbs
prompt = record {
  answer = λ log c. pointer c;
  bad_wr = λ log c. false;
  poll_cq = λ log cq. completed (record { success = true; imm_data = 0; wr_id = latest log });
  local = λ log. 1;
  new_id = λ log. 17;
  event = λ log. 0;
  ud_qp_num = λ log. 0;
  ud_qkey = λ log. 0;
  event_id = λ log. 18;
  id_qp = λ id. 1;
  id_send_cq = λ id. 2;
  id_recv_cq = λ id. 3;
  id_pd = λ id. 4;
  mr_addr = λ mr. 0x40000000;
  mr_lkey = λ mr. 2;
  mr_rkey = λ mr. 3;
}

abbrev pub block0 : Memblock
block0 = record { address = 16; memblock_id = 0; buffer = 0x40000000; mr = 16 }

-- page number 5, come in at address 32
abbrev pub wc5 : Wc
wc5 = record { success = true; imm_data = flow_header 5; wr_id = 32 }

abbrev pub empty_work : RecvWork
empty_work = record { id = 0; size = 4136; buffer = 64; page = 77; wc = wc5; convey = false }

abbrev pub server0 : Server
server0 = record {
  qp = 1;
  send_cq = 2;
  pd = 3;
  rpc_buffer = 4096;
  rpc_mr = 5;
  multicast_qp = 6;
  multicast_send_cq = 7;
  multicast_ah = 8;
  remote_qpn = 9;
  remote_qkey = 10;
  memblocks = some block0 ∷ replicate 127 none;
  memblock_list = 0 ∷ [];
  memblock_lock = false;
  response = record { remote_addr = 0; rkey = 0 };
  batch = 0;
  works = λ p. empty_work;
  commit_list = [];
  lock = false;
  memory = λ p. 0;
  log = [];
}

ib_process_multicast_completion-flowed_example :
    ib_process_multicast_completion prompt 3 wc5 server0
    ≡ ok tt (flowed prompt wc5 5 block0 server0)
unfolding get_num_memblock
ib_process_multicast_completion-flowed_example =
    ib_process_multicast_completion-flowed prompt 3 5 wc5 server0 block0 refl (omega arith) refl
      refl refl

pub server0-Counted : Counted prompt server0
server0-Counted = record { nodup = tt; conveyed = λ p h. ground (arith, h); counted = refl }

pub prompt-Delivers : Delivers prompt 600 2
prompt-Delivers log qp wr = (refl, 0, omega arith, now refl refl refl)

-- the request for the block of page number 5
abbrev open5 : Wc
open5 = record { success = true; imm_data = 0x10000005; wr_id = 48 }

abbrev fields5 : Fields
fields5 = record { opcode = 1; nr_buffer = 0; offset = 5 }

process_rdma_rpc_open-answers_example :
    (k : ℕ) × (process_rdma_rpc_open prompt 600 open5 server0
      ≡ ok tt (record server0 {
        memblock_lock = false;
        response = told prompt block0;
        log = sent_answer prompt (line server0) 16 open5.imm_data true k [];
      }))
unfolding interpret_header
process_rdma_rpc_open-answers_example =
    process_rdma_rpc_open-answers prompt 600 open5 server0 fields5 block0 prompt-Delivers refl refl
      (omega arith) refl

add_memblock-Added_example :
    (r : Bool) × (t : Server) × (add_memblock prompt 3 server0 ≡ ok r t)
    × Added prompt 3 server0 t r
add_memblock-Added_example = add_memblock-Added prompt 3 server0 (omega arith) refl

rdma_memory_handler_die-empties_example :
    (t : Server) × (rdma_memory_handler_die prompt 16 17 18 server0 ≡ ok tt t)
    × (length t.memblocks ≡ max_memblock)
    × ((j : ℕ) → get_or t.memblocks j none ≡ none)
rdma_memory_handler_die-empties_example =
    rdma_memory_handler_die-empties prompt 16 17 18 server0 refl
