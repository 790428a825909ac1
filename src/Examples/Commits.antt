-- ===== src/Examples/Commits.antt =====
-- A commit of a batch that comes in while the server waits.
use maruswap.Base.{ℕ, suc, ◌+◌, ◌≡◌, refl, true, false, List, [], ◌∷◌, ◌==◌, if◌then◌else◌}
use maruswap.Base.Run.{Run, ok, fault, out_of_fuel, Cmd}
use maruswap.Drive.Header.{flow_header}
use maruswap.Drive.Net.{Wc}
use maruswap.Server.State.{Server}
use maruswap.Server.Header.{interpret_header, ib_get_opcode, multicast_opcode_commit}
use maruswap.Server.Multicast.{ib_process_multicast_completion}
use maruswap.Server.Store.{Arrival, arrive, view}
use maruswap.Server.Store.Lost.{ib_process_multicast_completion-loses}
use maruswap.Examples.Servers.{prompt, server0, empty_work}

-- one page to commit, already conveyed
abbrev server1 : Server
server1 = record server0 {
  batch = 1;
  commit_list = 32 ∷ [];
  works = λ p. record empty_work { convey = true };
}

-- an address above all in a list
abbrev total : List ℕ → ℕ
total [] = 0
total (n ∷ ns) = n + total ns

-- a thread that takes in one more page, in a receive work that is not waiting
abbrev feed : Cmd Server (Unit {0})
feed s =
    let work = suc (total s.commit_list) in
    ok tt (record s {
      works = λ p. if p == work then record (s.works p) { convey = true } else s.works p;
      commit_list = work ∷ s.commit_list;
      batch = suc s.batch;
    })

-- a commit of 512 pages, 511 of which are still to come
abbrev commit512 : Wc
commit512 = record { success = true; imm_data = 0x30000007; wr_id = 48 }

-- a commit that comes by multicast while that page is filed
abbrev group_commit : Wc
group_commit = record { success = true; imm_data = 0x30000000; wr_id = 48 }

abbrev server_of : Run Server (Unit {0}) → Server
server_of (ok r s) = s
server_of fault = server1
server_of out_of_fuel = server1

abbrev server2 : Server
server2 = server_of (ib_process_multicast_completion prompt 3 group_commit server1)

server2_ok : ib_process_multicast_completion prompt 3 group_commit server1 ≡ ok tt server2
unfolding ib_process_multicast_completion ib_get_opcode interpret_header flow_header
server2_ok = refl

server2_free : server2.lock ≡ false
unfolding ib_process_multicast_completion ib_get_opcode interpret_header flow_header
server2_free = refl

commit_opcode_read : ib_get_opcode group_commit.imm_data ≡ multicast_opcode_commit
unfolding ib_get_opcode
commit_opcode_read = refl

-- the next page takes the receive work that was handed back
abbrev next : Arrival
next = record { work = 32; number = 6; content = 106 }

ib_process_multicast_completion-loses_example :
    (u : Server) × (arrive prompt 3 next server2 ≡ ok tt u)
    × (view u ≡ view server2)
    × (u.commit_list ≡ 32 ∷ server2.commit_list)
    × (u.batch ≡ server2.batch)
ib_process_multicast_completion-loses_example =
    ib_process_multicast_completion-loses prompt 3 group_commit server1 {t = server2} next
      commit_opcode_read server2_ok refl server2_free
