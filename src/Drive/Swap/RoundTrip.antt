-- ===== src/Drive/Swap/RoundTrip.antt =====
-- drive/maruswap.c: a page that is stored, and then loaded.
use maruswap.Base.{
  ℕ, ◌%◌, ◌^◌, ◌<◌, ◌≡◌, inl, inr, some, ◌==◌, not, ==→eq, ap, ◌∙◌, if◌then◌else◌, arith,
}
use maruswap.Base.Run.{Run, ok, pure, and_then, test◌then◌else◌, and_then-eq-ok, test_not-eq-ok}
use maruswap.Drive.Xarray.{Xarray}
use maruswap.Drive.Net.{Verbs}
use maruswap.Drive.Ctrl.{RdmaCtrl, Drive}
use maruswap.Drive.Swap.{
  neg, maruswap_multicast_write, maruswap_rdma_read, maruswap_store, maruswap_load,
}
use maruswap.Drive.Swap.Wrote.{Sound, Reports}
use maruswap.Drive.Swap.Staged.{
  staged, serves, staged-maruswap_multicast_write, maruswap_rdma_read-staged,
}

module _ (xa : Xarray) (v : Verbs) where
  pub store_wrote :
      (fuel page id : ℕ) (s : Drive xa.Arr) {t : Drive xa.Arr}
      → maruswap_store xa v fuel page id s ≡ ok 0 t
      → maruswap_multicast_write xa v fuel page (id % 2 ^ 32) s ≡ ok 0 t
  unfolding maruswap_store
  store_wrote fuel page id s {t} h =
      let (ret, m, e, rest) =
        and_then-eq-ok (maruswap_multicast_write xa v fuel page (id % 2 ^ 32) s) _ h in
      elim (test_not-eq-ok (ret == 0) (neg 1) (pure 0) m rest) [
        | inl (bad, er, et) ↦ absurd (omega (arith, er))
        | inr (fine, done) ↦ (rw (==→eq ret 0 fine) at e) ∙ done
      ]

  pub load_read :
      (fuel cpu to id : ℕ) (s u : Drive xa.Arr)
      → maruswap_rdma_read xa v fuel cpu to (id % 2 ^ 32) s ≡ ok 0 u
      → maruswap_load xa v fuel cpu to id s ≡ ok 0 u
  unfolding maruswap_load
  load_read fuel cpu to id s u h =
      ap
        (λ (r : Run (Drive xa.Arr) ℕ).
          and_then r (λ ret. test not (ret == 0) then pure (neg 1) else pure 0))
        h

  -- In a sound driver, a page with a number below 2 ^ 32 that was stored with success loads into any
  -- page on any processor that has a connection: the load returns 0 and the page then holds what the stored page held.
  pub maruswap_load-maruswap_store :
      (fuel cpu page to id : ℕ) (s : Drive xa.Arr) {t : Drive xa.Arr} (c : RdmaCtrl)
      → id < 2 ^ 32
      → Reports xa v
      → Sound xa v s
      → maruswap_store xa v fuel page id s ≡ ok 0 t
      → serves xa v cpu t ≡ some c
      → maruswap_load xa v fuel cpu to id t
        ≡ ok 0 (record t { frame = λ p. if p == to then s.frame page else t.frame p })
  maruswap_load-maruswap_store fuel cpu page to id s {t} c small reports sound h which =
      let cut : id % 2 ^ 32 ≡ id = omega arith in
      let wrote = rw cut at (store_wrote fuel page id s h) in
      let shows = staged-maruswap_multicast_write xa v fuel page id s reports sound wrote id in
      let there : staged xa v t id ≡ some (s.frame page) = ground (arith, shows) in
      let read = maruswap_rdma_read-staged xa v fuel cpu to id (s.frame page) t c there which in
      load_read fuel cpu to id t _ (rw cut read)
