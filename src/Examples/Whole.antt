-- ===== src/Examples/Whole.antt =====
-- Page frame 1 is swapped out as page number 5, comes to a server, is committed and is read back.
use maruswap.Base.{
  inl, ℕ, zero, suc, ◌≡◌, refl, ◌⊎◌, none, some, List, [], ◌∷◌, true, get_or, replicate, ◌==◌,
  if◌then◌else◌, arith,
}
use maruswap.Base.Run.{ok}
use maruswap.Drive.Header.{get_num_memblock, page_size}
use maruswap.Drive.Net.{rdma_read, Wc}
use maruswap.Drive.Stage.{init_stage_buffer, stage_buffer_load}
use maruswap.Drive.Swap.{maruswap_rdma_read}
use maruswap.Drive.Swap.Remote.{mapped, request, fetched}
use maruswap.Drive.Rpc.Wait.{now}
use maruswap.Server.State.{Verbs, Memblock, Server}
use maruswap.Server.Header.{commit_count}
use maruswap.Server.Handler.{commit_target}
use maruswap.Server.Send.Deliver
use maruswap.Server.Send.Deliver.{line, Delivers}
use maruswap.Server.Store.{Delivery, cycles}
use maruswap.Server.Store.Calls.{Handled}
use maruswap.Server.Store.Cycle.{AllFit, Ready}
use maruswap.Protocol.Coherent.{Coherent, maruswap_rdma_read-cycles}
use maruswap.Examples.Assoc.{assoc}
use maruswap.Examples.Driver
use maruswap.Examples.Driver.{drive0, drive0-Sound, prompt-Reports}
use maruswap.Examples.Servers
use maruswap.Examples.Servers.{server0}
use maruswap.Examples.Stores.{no_block}
use maruswap.Examples.Cycle.{history, history_ok, later, later-serves}

-- a server whose answers the driver has
abbrev known : Verbs
known = record Servers.prompt { mr_addr = λ mr. 0x10000000; mr_rkey = λ mr. 9 }

known-Delivers : Delivers known 600 2
known-Delivers log qp wr = (refl, 0, omega arith, Deliver.now refl refl refl)

abbrev block : Memblock
block = record { address = 16; memblock_id = 0; buffer = 0x10000000; mr = 16 }

abbrev empty : Server
empty = record server0 { memblocks = some block ∷ replicate 127 none }

one_block : (i : ℕ) {b : Memblock} → get_or empty.memblocks i none ≡ some b → i ≡ 0
one_block zero h = refl
one_block (suc i) h = absurd (no_block 127 i h)

empty-Ready : Ready known (32 ∷ []) empty
empty-Ready = record {
  store = record {
    apart = λ i j a b ne ha hb. absurd (ne (omega (arith, one_block i ha, one_block j hb)));
    free = refl;
    counted = record { nodup = tt; conveyed = λ p h. ground (arith, h); counted = refl };
  };
  none_filed = refl;
  free = λ p h. refl;
}

-- what the history sends, and a quick commit of one page
abbrev deliveries : List Delivery
deliveries =
    record {
      pages = record { work = 32; number = 5; content = 101 } ∷ [];
      commit = record { success = true; imm_data = 0x70000100; wr_id = 48 };
    }
    ∷ []

target1 : commit_target known 0x70000100 ≡ 1
unfolding commit_target commit_count
target1 = refl

deliveries-Fit : AllFit known (32 ∷ []) empty.memblocks deliveries
unfolding get_num_memblock
deliveries-Fit = (
  record {
    nodup = (refl, tt);
    inside = λ p h. h;
    placed = (omega arith, (block, refl), tt);
    some_page = λ e. cc;
    enough = omega (arith, target1);
  },
  tt,
)

drive0-Coherent : Coherent assoc Driver.prompt known drive0 empty
unfolding init_stage_buffer stage_buffer_load
drive0-Coherent i x h = cc

abbrev wc1 : Wc
wc1 = record { success = true; imm_data = 7; wr_id = 1 }

maruswap_rdma_read-cycles_example :
    let c = Driver.server 8 in
    let log = later.net.log in
    let wr = request assoc Driver.prompt c 2 5 log in
    (w' : Server) × (cycles known (λ s. ok tt s) 600 deliveries empty ≡ ok tt w')
    × Ready known (32 ∷ []) w'
    × Coherent assoc Driver.prompt known later w'
    × Handled known (line empty) deliveries [] w'.log
    × ((maruswap_rdma_read assoc Driver.prompt 3 1 2 5 later
          ≡ ok 0 (record later { frame = λ p. if p == 2 then 101 else later.frame p }))
        ⊎ ((maruswap_rdma_read assoc Driver.prompt 3 1 2 5 later
              ≡ ok
                  (Driver.prompt.post_send (mapped assoc Driver.prompt c 2 log) c.qp.handle wr)
                  (fetched assoc Driver.prompt c 2 5 0 later))
            × (wr.opcode ≡ rdma_read)
            × (wr.addr ≡ 0x5000)
            × (wr.lkey ≡ 5)
            × (w'.memory wr.remote_addr ≡ 101)
            × (wr.rkey ≡ 9)
            × (wr.length ≡ page_size)))
unfolding get_num_memblock
maruswap_rdma_read-cycles_example =
    maruswap_rdma_read-cycles assoc Driver.prompt known prompt-Reports 3 history drive0 later
      drive0-Sound history_ok (λ s. ok tt s) 599 (32 ∷ []) deliveries empty (λ log qp work. refl)
      known-Delivers empty-Ready deliveries-Fit (inl refl) drive0-Coherent 1 2 5 101 0
      (Driver.server 8) block wc1 (omega arith) refl later-serves refl refl refl (omega arith) refl
      refl (now refl refl) (omega arith)
