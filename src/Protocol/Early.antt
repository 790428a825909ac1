-- ===== src/Protocol/Early.antt =====
-- The driver's batch of 1024 pages and the 512 that a commit waits for at a server.
use maruswap.Drive.Header
use maruswap.Drive.Xarray.{Xarray}
use maruswap.Drive.Net
use maruswap.Drive.Ctrl.{Drive}
use maruswap.Drive.Stage.Refine
use maruswap.Server.State.{Server}
