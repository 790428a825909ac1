-- ===== src/Examples.antt =====
-- Runs of the model on small inputs.
mod Assoc
mod Messages
mod Driver
mod Requests
mod Servers
mod Commits
mod Links
mod Fetch
mod Cycle
mod Loading
mod Sessions
mod Stores
mod Whole
mod Early
