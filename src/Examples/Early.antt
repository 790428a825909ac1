-- ===== src/Examples/Early.antt =====
-- A commit that overtakes the second half of the driver's batch.
use maruswap.Base.{ℕ, zero, suc, List, [], ◌∷◌}
use maruswap.Drive.Ctrl.{Drive, ib_rpc_commit_all}
use maruswap.Server.State.{Server}
use maruswap.Drive.Stage.{put_entry}
use maruswap.Server.Store.{Arrival}
use maruswap.Examples.Assoc.{Entries, assoc}
use maruswap.Examples.Driver
use maruswap.Examples.Driver.{drive0}
use maruswap.Examples.Servers

-- the pages below `k`, each in the receive work of its number
upto : ℕ → List Arrival
upto zero = []
upto (suc k) = record { work = k; number = k; content = k } ∷ upto k

-- all 1024 pages of the batch have been sent, number 600 among them
abbrev full : Drive Entries
full = record drive0 { batch = 1024; stage_buffer = put_entry assoc drive0.stage_buffer 700 600 }

abbrev committed : Drive Entries
committed = Driver.state_of full (ib_rpc_commit_all assoc Driver.prompt 3 full)
