-- ===== src/Examples/Stores.antt =====
-- Batches of two pages that come to a server; a page that is sent, and a block that is opened.
use maruswap.Base.{
  ℕ, ◌==◌, if◌then◌else◌, zero, suc, ◌≡◌, refl, ◌≢◌, none, some, List, [], ◌∷◌, true, false, get_or,
  replicate, arith,
}
use mathlib.Core.List.{Permᴰ}
use maruswap.Base.Run.{ok}
use maruswap.Drive.Header.{get_num_memblock, flow_header}
use maruswap.Drive.Net.{Wc, Verbs}
use maruswap.Drive.Ctrl.{RdmaCtrl, Drive, find_ctrl, no_info, ib_rpc_open_unlocked}
use maruswap.Drive.Swap.Posted.{Message, maruswap_multicast_write-Message}
use maruswap.Server.State.{Memblock, Server}
use maruswap.Server.Handler.{commit_target}
use maruswap.Server.Header.{commit_count}
use maruswap.Server.Store.{
  Delivery, cycles, all_pages, Arrival, completion, arrive_all, IsStore, AllAwaited, put_all, view,
}
use maruswap.Server.Send.Deliver.{line}
use maruswap.Server.Store.Batch.{Came, arrive_all-Came}
use maruswap.Server.Worker.{Worker, work_round}
use maruswap.Server.Worker.Drains.{AllQueued, work_round-Came}
use maruswap.Server.Store.Calls.{Handled}
use maruswap.Server.Store.Cycle.{AllFit, Ready, cycles-Ready}
use maruswap.Server.Store.Order.{arrive_all-Perm}
use maruswap.Examples.Servers
use maruswap.Examples.Servers.{server0, server0-Counted, empty_work, block0, prompt-Delivers}
use maruswap.Examples.Driver
use maruswap.Examples.Driver.{drive0, drive1, run1_ok, prompt-Reports}
use maruswap.Examples.Assoc.{Entries, assoc}

abbrev page5 : Arrival
page5 = record { work = 32; number = 5; content = 105 }

abbrev page6 : Arrival
page6 = record { work = 64; number = 6; content = 106 }

abbrev batch56 : List Arrival
batch56 = page5 ∷ page6 ∷ []

-- the same pages, the later one first, in each other's receive works
abbrev batch65 : List Arrival
batch65 = record page6 { work = 32 } ∷ record page5 { work = 64 } ∷ []

pub no_block : (n i : ℕ) {b : Memblock} → get_or (replicate n none) i none ≢ some b
no_block zero i h = cc
no_block (suc n) zero h = cc
no_block (suc n) (suc i) h = no_block n i h

-- block 0 is the only one
one_block : (i : ℕ) {b : Memblock} → get_or server0.memblocks i none ≡ some b → i ≡ 0
one_block zero h = refl
one_block (suc i) h = absurd (no_block 127 i h)

pub server0-IsStore : IsStore Servers.prompt server0
server0-IsStore = record {
  apart = λ i j a b ne ha hb. absurd (ne (omega (arith, one_block i ha, one_block j hb)));
  free = refl;
  counted = server0-Counted;
}

server0-AllAwaited : AllAwaited Servers.prompt server0 batch56
unfolding get_num_memblock
server0-AllAwaited = (
  record { posted = refl; not_filed = refl; small = omega arith; block = block0; there = refl },
  (
    record { posted = refl; not_filed = refl; small = omega arith; block = block0; there = refl },
    tt,
  ),
)

server0-AllAwaited65 : AllAwaited Servers.prompt server0 batch65
unfolding get_num_memblock
server0-AllAwaited65 = (
  record { posted = refl; not_filed = refl; small = omega arith; block = block0; there = refl },
  (
    record { posted = refl; not_filed = refl; small = omega arith; block = block0; there = refl },
    tt,
  ),
)

arrive_all-Came_example :
    (t : Server) × (arrive_all Servers.prompt 3 batch56 server0 ≡ ok tt t)
    × Came Servers.prompt batch56 server0 t
arrive_all-Came_example =
    arrive_all-Came Servers.prompt 3 batch56 server0 server0-IsStore server0-AllAwaited
      (refl, (refl, tt))

arrive_all-Perm_example :
    (t : Server) × (t' : Server) × (arrive_all Servers.prompt 3 batch56 server0 ≡ ok tt t)
    × (arrive_all Servers.prompt 3 batch65 server0 ≡ ok tt t')
    × (view t ≡ view t')
    × IsStore Servers.prompt t
    × IsStore Servers.prompt t'
arrive_all-Perm_example =
    arrive_all-Perm Servers.prompt Servers.prompt 3 3 batch56 batch65 server0 server0
      server0-IsStore server0-IsStore server0-AllAwaited server0-AllAwaited65 (refl, (refl, tt))
      (refl, (refl, tt)) ∣ Permᴰ.swap refl refl ∣₁ (refl, (refl, tt)) refl

-- a quick commit of two pages
abbrev commit2 : Wc
commit2 = record { success = true; imm_data = 0x70000200; wr_id = 48 }

target2 : commit_target Servers.prompt commit2.imm_data ≡ 2
unfolding commit_target commit_count
target2 = refl

-- the same works take a batch twice
abbrev twice : List Delivery
twice =
    record { pages = batch56; commit = commit2 } ∷ record { pages = batch65; commit = commit2 } ∷ []

server0-Ready : Ready Servers.prompt (32 ∷ 64 ∷ []) server0
server0-Ready = record { store = server0-IsStore; none_filed = refl; free = λ p h. refl }

batch56-Fits : AllFit Servers.prompt (32 ∷ 64 ∷ []) server0.memblocks twice
unfolding get_num_memblock
batch56-Fits = (
  record {
    nodup = (refl, (refl, tt));
    inside = λ p h. h;
    placed = (omega arith, (block0, refl), (omega arith, (block0, refl), tt));
    some_page = λ e. cc;
    enough = omega (arith, target2);
  },
  (
    record {
      nodup = (refl, (refl, tt));
      inside = λ p h. h;
      placed = (omega arith, (block0, refl), (omega arith, (block0, refl), tt));
      some_page = λ e. cc;
      enough = omega (arith, target2);
    },
    tt,
  ),
)

cycles-Ready_example :
    (t : Server) × (cycles Servers.prompt (λ s. ok tt s) 600 twice server0 ≡ ok tt t)
    × (view t ≡ put_all (all_pages twice) (view server0))
    × Ready Servers.prompt (32 ∷ 64 ∷ []) t
    × (t.memblocks ≡ server0.memblocks)
    × Handled Servers.prompt (line server0) twice [] t.log
cycles-Ready_example =
    cycles-Ready Servers.prompt (λ s. ok tt s) 599 (32 ∷ 64 ∷ []) twice server0
      (λ log qp work. refl) prompt-Delivers server0-Ready batch56-Fits

-- both pages wait for a worker
abbrev queued : Worker
queued = record {
  server = record server0 {
    works = λ p.
        if p == 32
        then record empty_work { page = 105; wc = completion page5 }
        else record empty_work { page = 106; wc = completion page6 };
  };
  work_list = 32 ∷ 64 ∷ [];
  work_lock = false;
}

queued-IsStore : IsStore Servers.prompt queued.server
queued-IsStore = record {
  apart = server0-IsStore.apart;
  free = refl;
  counted = record { nodup = tt; conveyed = λ p h. ground (arith, h); counted = refl };
}

queued-AllQueued : AllQueued Servers.prompt queued.server batch56
unfolding get_num_memblock
queued-AllQueued = (
  record {
    awaited = record {
      posted = refl;
      not_filed = refl;
      small = omega arith;
      block = block0;
      there = refl;
    };
    page = refl;
    wc = refl;
  },
  (
    record {
      awaited = record {
        posted = refl;
        not_filed = refl;
        small = omega arith;
        block = block0;
        there = refl;
      };
      page = refl;
      wc = refl;
    },
    tt,
  ),
)

work_round-Came_example :
    (t : Server) × (work_round Servers.prompt 3 queued
      ≡ ok tt (record queued { server = t; work_list = []; work_lock = false }))
    × Came Servers.prompt batch56 queued.server t
work_round-Came_example =
    work_round-Came Servers.prompt 3 batch56 queued queued-IsStore queued-AllQueued
      (refl, (refl, tt)) refl refl

maruswap_multicast_write-Message_example :
    (c : RdmaCtrl) × (find_ctrl 8 drive0.rdma_ctrl_list ≡ some c)
    × Message assoc Driver.prompt drive0.ud_package 0x5000 (flow_header 5) drive1.net.log
maruswap_multicast_write-Message_example =
    maruswap_multicast_write-Message assoc Driver.prompt 3 1 5 drive0 {t = drive1} prompt-Reports
      run1_ok

-- a server that answers with an address and a key
abbrev answering : Verbs
answering = record Driver.prompt {
  received = λ log work. record { remote_addr = 0x40000000; rkey = 3 };
}

-- a connection that has asked for no block
abbrev closed : RdmaCtrl
closed = record (Driver.server 8) { rdma_info = no_info ∷ [] }

abbrev before : Drive Entries
before = record drive0 { rdma_ctrl_list = closed ∷ Driver.server 9 ∷ [] }

abbrev after : Drive Entries
after = Driver.state_of before (ib_rpc_open_unlocked assoc answering 3 8 5 before)
