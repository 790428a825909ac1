-- ===== src/Drive/Swap/Cache.antt =====
-- The staged pages as a cache: what a page written out does to it.

use maruswap.Base.{ℕ, ◌+◌, ◌≡◌, refl, inl, inr, Option, none, some, ◌==◌, leb, if◌then◌else◌, arith}
use maruswap.Base.Run.{ok}
use maruswap.Drive.Header.{config_batch}
use maruswap.Drive.Xarray.{Xarray}
use maruswap.Drive.Net.{Verbs}
use maruswap.Drive.Ctrl.{Drive}
use maruswap.Drive.Swap.{maruswap_multicast_write}
use maruswap.Drive.Swap.Wrote.{
  Sound, Reports, Wrote, kept, only_committed, counted, maruswap_multicast_write-Wrote,
}
use maruswap.Drive.Swap.Staged.{staged, staged-maruswap_multicast_write}

-- The pages that are held, by their numbers, and how many are out since the last commit.
pub record Cache : Type 0 where
  pub pages : ℕ → Option ℕ
  pub batch : ℕ

-- A full batch is committed first, and its pages are dropped.
abbrev pub write_out : (id content : ℕ) → Cache → Cache
write_out id content c = record {
  pages =
      λ i. if id == i then some content else if leb config_batch c.batch then none else c.pages i;
  batch = if leb config_batch c.batch then 1 else c.batch + 1;
}

module _ (xa : Xarray) (v : Verbs) where
  abbrev pub cache : Drive xa.Arr → Cache
  cache s = record { pages = staged xa v s; batch = s.batch }

  batch-Wrote :
      {page id : ℕ} {s t : Drive xa.Arr}
      → Reports xa v
      → Wrote xa v page id 0 s t
      → (t.batch ≡ (if leb config_batch s.batch then 1 else s.batch + 1)) × (t.frame ≡ s.frame)
  batch-Wrote reports (kept ne k) = absurd (ne refl)
  batch-Wrote reports (only_committed ne c) = absurd (ne refl)
  batch-Wrote reports (counted m n (inl (k, room)) e (inl p)) =
      ground (arith, k.batch, k.frame, p.batch, p.frame)
  batch-Wrote reports (counted m n (inr (c, full)) e (inl p)) =
      ground (arith, c.batch, c.frame, p.batch, p.frame)
  batch-Wrote reports (counted m n from e (inr (k, ne))) = absurd (ne reports refl)

  -- A write that returns 0 does to the driver's cache what `write_out` does, and keeps the frames.
  pub cache-maruswap_multicast_write :
      (fuel page id : ℕ) (s : Drive xa.Arr) {t : Drive xa.Arr}
      → Reports xa v
      → Sound xa v s
      → maruswap_multicast_write xa v fuel page id s ≡ ok 0 t
      → (cache t ≡ write_out id (s.frame page) (cache s)) × (t.frame ≡ s.frame)
  cache-maruswap_multicast_write fuel page id s {t} reports sound h =
      let (batch, frame) =
        batch-Wrote reports (maruswap_multicast_write-Wrote xa v fuel page id s sound h) in
      let pages = staged-maruswap_multicast_write xa v fuel page id s reports sound h in
      (λ i. record { pages = λ k. pages k i; batch = batch i }, frame)
