-- ===== src/Drive.antt =====
-- drive/sib.c and drive/ib.h: the kernel module that swaps pages out to the memory servers.
pub mod Header
pub mod Xarray
pub mod Stage
pub mod Net
pub mod Binder
pub mod Rpc
pub mod Ctrl
pub mod Swap
pub mod Module
pub mod Connect
pub mod Group
pub mod Wait
pub mod Start
pub mod Release
