-- ===== src/Server/Store.antt =====
-- lib/handler.c: the pages that come to a server, one after the other, and the abstract store that
-- they are to make up: a partial map from page numbers to contents.
pub mod Refine
pub mod Batch
pub mod Calls
pub mod Cycle
pub mod Order
pub mod Lost
use maruswap.Base.{
  ℕ, ◌+◌, ◌^◌, ◌≤◌, ◌<◌, ◌≡◌, ◌≢◌, ◌⊎◌, Bool, true, false, Option, none, some, List, [], ◌∷◌, ◌++◌,
  ◌==◌, ltb, contains, get_or, if◌then◌else◌,
}
use maruswap.Base.Run.{Cmd, pure, ◌>>=◌, ◌>>◌, modify}
use maruswap.Drive.Header.{get_num_memblock, flow_header, read_offset}
use maruswap.Drive.Net.{Wc}
use maruswap.Server.State.{Verbs, Memblock, Server, change_work}
use maruswap.Server.Memblock.{memblock_size}
use maruswap.Server.Handler.Commit.{Counted}
use maruswap.Server.Handler.{process_rdma_rpc_commit}
use maruswap.Server.Multicast.{ib_process_multicast_completion}

-- A page on its way: the receive work that it takes, its number and its content.
pub record Arrival : Type 0 where
  pub work : ℕ
  pub number : ℕ
  pub content : ℕ

-- What the network card does: it writes to the buffer of the receive work, and completes it.
abbrev pub filled : Arrival → Server → Server
filled a s = change_work a.work (λ w. record w { page = a.content }) s

abbrev pub completion : Arrival → Wc
completion a = record { success = true; imm_data = flow_header a.number; wr_id = a.work }

module _ (v : Verbs) where
  -- the card's write, and what the thread does with the completion
  unfoldable pub arrive : (fuel : ℕ) → Arrival → Cmd Server (Unit {0})
  unfolding ib_process_multicast_completion
  arrive fuel a = do modify (filled a); ib_process_multicast_completion v fuel (completion a)

  unfoldable pub arrive_all : (fuel : ℕ) → List Arrival → Cmd Server (Unit {0})
  unfolding arrive
  arrive_all fuel [] = pure tt
  arrive_all fuel (a ∷ rest) = do arrive fuel a; arrive_all fuel rest

  -- Between two pages: the blocks lie apart, as those of `mmap` do, the lock is free, and the
  -- pages that wait for a commit are counted.
  pub record IsStore (s : Server) : Type 0 where
    pub apart :
        (i j : ℕ) (a b : Memblock)
        → i ≢ j
        → get_or s.memblocks i none ≡ some a
        → get_or s.memblocks j none ≡ some b
        → (a.buffer + memblock_size ≤ b.buffer) ⊎ (b.buffer + memblock_size ≤ a.buffer)
    pub free : s.lock ≡ false
    pub counted : Counted v s

  -- The receive work of a page is posted and does not wait for a commit, and the page's block is
  -- there.
  pub record Awaited (s : Server) (a : Arrival) : Type 0 where
    pub posted : (s.works a.work).convey ≡ false
    pub not_filed : contains a.work s.commit_list ≡ false
    pub small : a.number < 2 ^ 25
    pub block : Memblock
    pub there : get_or s.memblocks (get_num_memblock a.number) none ≡ some block

  abbrev pub AllAwaited : Server → List Arrival → Type 0
  AllAwaited s [] = Unit {0}
  AllAwaited s (a ∷ rest) = Awaited s a × AllAwaited s rest

-- a batch of pages, in the receive works that await them, none of which is taken twice
abbrev pub works_of : List Arrival → List ℕ
works_of [] = []
works_of (a ∷ rest) = a.work ∷ works_of rest

-- a batch, and the commit request after it
pub record Delivery : Type 0 where
  pub pages : List Arrival
  pub commit : Wc

abbrev pub all_pages : List Delivery → List Arrival
all_pages [] = []
all_pages (b ∷ bs) = b.pages ++ all_pages bs

module _ (v : Verbs) where
  unfoldable pub cycle :
      (other : Cmd Server (Unit {0})) (fuel : ℕ) → Delivery → Cmd Server (Unit {0})
  unfolding arrive_all process_rdma_rpc_commit
  cycle other fuel b = do arrive_all v fuel b.pages; process_rdma_rpc_commit v other fuel b.commit

  unfoldable pub cycles :
      (other : Cmd Server (Unit {0})) (fuel : ℕ) → List Delivery → Cmd Server (Unit {0})
  unfolding cycle
  cycles other fuel [] = pure tt
  cycles other fuel (b ∷ bs) = do cycle other fuel b; cycles other fuel bs

-- the abstract store
abbrev pub Pages : Type 0
Pages = ℕ → Option ℕ

abbrev pub put : (number content : ℕ) → Pages → Pages
put n c m k = if n == k then some c else m k

abbrev pub put_all : List Arrival → Pages → Pages
put_all [] m = m
put_all (a ∷ rest) m = put_all rest (put a.number a.content m)

abbrev pub at_place : (ℕ → ℕ) → (number : ℕ) → Option Memblock → Option ℕ
at_place memory n none = none
at_place memory n (some mb) = some (memory (mb.buffer + read_offset n))

-- What lies where an RDMA read of a page number looks, for numbers in range.
abbrev pub view_of : (ℕ → ℕ) → List (Option Memblock) → Pages
view_of memory memblocks n =
    if ltb n (2 ^ 25) then at_place memory n (get_or memblocks (get_num_memblock n) none) else none

abbrev pub view : Server → Pages
view s = view_of s.memory s.memblocks
