-- ===== src/Lib.antt =====
-- Verification of maruswap, a swap device that keeps pages in the memory of two servers.
--
-- The driver (drive/) is called by the kernel for each page that is swapped out or in. A page goes
-- out by one multicast message to both servers and is kept in a staging buffer; it comes back from
-- the staging buffer or by an RDMA read from a server. After a batch of pages the driver asks the
-- servers to commit, and drops the staged copies. A server (lib/) copies each page that comes to
-- its place in a memory block, and answers the driver's requests.
--
-- Drive/Header models the 32-bit headers of drive/ib.h and drive/sib.c, Drive/Stage the staging
-- buffer (`init_stage_buffer`, `stage_buffer_store`, `stage_buffer_load`,
-- `clear_stage_buffer_addr`), Drive/Binder the table of pending requests (`init_binder`,
-- `__get_binder`, `__put_binder`), Drive/Rpc `__ib_rpc`, Drive/Ctrl the requests to open a block
-- and to commit (`ib_rpc_open_all`, `ib_rpc_commit_all`, `ib_rpc_qcommit_all`), Drive/Swap
-- `maruswap_multicast_write` and `maruswap_rdma_read` with the calls of drive/maruswap.c,
-- Drive/Module their registration (`maruswap_ops`, `init_maruswap`), and Drive/Connect the events
-- of a connection (`ib_rdma_cm_handler`). Drive/Group models the events of the multicast group
-- (`ib_multicast_cm_handler`), Drive/Wait the module's connections together and its waits, in
-- which any events may come to any of them, Drive/Start the start of the module (`init_ib`), and
-- Drive/Release its end (`cleanup_ib`). Server/Header models the headers of lib/rpc.c and
-- include/rpc.h, Server/State the handlers of include/ib.h, Server/Send the sends of lib/ib.c,
-- Server/Memblock lib/memblock.c, Server/Convey, Server/Handler and Server/Multicast the messages
-- of lib/handler.c, Server/Alloc and Server/Connect the set-up of a handler and the connections of
-- lib/ib.c, Server/Group its connection to the multicast group (`ib_connect_multicast`) and the
-- start of client/main.c, Server/Machine the handlers together, the group's one
-- (`alloc_multicast_memory_handler`) and the end of all (`stop_handlers`), Server/Threads the
-- events of the connection (`rdma_event_handler`), the threads of lib/handler.c and `init_server`
-- of server/main.c, Server/Worker the thread that takes pages from a list
-- (`process_multicast_memory_work`), and Server/Rpc the requests of lib/rpc.c. Server/Store states
-- what a server is to be, a partial map from page numbers to contents, with the pages that the
-- network card writes as the environment, and Server/Marked follows the marks on its receive
-- works. Protocol compares both sides, and puts a driver and a server together. Examples runs the
-- model on small inputs.
--
-- A function of the code is a command on an explicit state (Base/Run): it returns a value and a
-- state, faults (a failed assertion, an access through NULL or outside an array), or runs out of
-- fuel. Only polling loops take fuel, the number of their rounds; theorems on what they return say
-- how many are enough. The kernel, libibverbs, librdmacm and the C library are parameters, records
-- of functions from the calls made so far to the answer; the xarray of the kernel is an interface
-- with laws, whose stores take effect. Lists that the code links through its structures are lists of addresses. Addresses
-- and keys are numbers, a page's content is one number, and memory is a function of an address.
-- Prints are left out. Counters in an `int` are not wrapped: they count pages and
-- connections, far below 2 ^ 31.
-- A handler of the driver or the server runs alone, except for the binder table, whose threads are
-- a step relation, and the wait of a commit and the turns of the worker, between whose rounds
-- another thread runs.
--
-- Not modelled: the driver's versions that are not built (drive/ib.c, drive/cib.c, drive/rib.c),
-- the copies of Linux headers in include/, the argument parsing of the programs, and the tests.
pub mod Base
pub mod Drive
pub mod Server
pub mod Protocol
pub mod Examples
