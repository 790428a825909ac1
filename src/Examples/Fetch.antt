-- ===== src/Examples/Fetch.antt =====
-- A page that is not staged comes from the main server.
use maruswap.Base.{◌+◌, ◌%◌, ◌^◌, ◌≡◌, refl, true, [], get_or, arith}
use maruswap.Base.Run.{ok}
use maruswap.Drive.Header.{page_size, get_num_memblock, read_offset}
use maruswap.Drive.Net.{rdma_read, Wc}
use maruswap.Drive.Stage.{stage_buffer_load, init_stage_buffer}
use maruswap.Drive.Rpc.Wait.{now}
use maruswap.Drive.Ctrl.{no_info}
use maruswap.Drive.Swap.{maruswap_rdma_read}
use maruswap.Drive.Swap.Staged.{serves}
use maruswap.Drive.Swap.Remote.{request, fetched, maruswap_rdma_read-fetched}
use maruswap.Examples.Assoc.{assoc}
use maruswap.Examples.Driver.{prompt, server, drive0}

abbrev wc1 : Wc
wc1 = record { success = true; imm_data = 7; wr_id = 1 }

maruswap_rdma_read-fetched_example :
    (maruswap_rdma_read assoc prompt 3 1 1 6 drive0
      ≡ ok 0 (fetched assoc prompt (server 8) 1 6 0 drive0))
    × ((request assoc prompt (server 8) 1 6 []).opcode ≡ rdma_read)
    × ((request assoc prompt (server 8) 1 6 []).addr ≡ 0x5000)
    × ((request assoc prompt (server 8) 1 6 []).lkey ≡ 5)
    × ((request assoc prompt (server 8) 1 6 []).remote_addr
        ≡ ((get_or (server 8).rdma_info (get_num_memblock 6) no_info).remote_addr + read_offset 6)
          % 2 ^ 64)
    × ((request assoc prompt (server 8) 1 6 []).rkey
        ≡ (get_or (server 8).rdma_info (get_num_memblock 6) no_info).rkey)
    × ((request assoc prompt (server 8) 1 6 []).length ≡ page_size)
unfolding stage_buffer_load init_stage_buffer serves get_num_memblock
maruswap_rdma_read-fetched_example =
    maruswap_rdma_read-fetched assoc prompt 3 1 1 6 0 drive0 (server 8) wc1 refl refl (omega arith)
      refl refl (now refl refl) (omega arith)
