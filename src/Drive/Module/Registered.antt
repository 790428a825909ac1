-- ===== src/Drive/Module/Registered.antt =====
-- drive/maruswap.c: histories of calls to the module that is registered.
use maruswap.Base.{
  ℕ, ◌%◌, ◌^◌, ◌≡◌, refl, ap, ◌∙◌, inl, inr, not, some, List, [], ◌∷◌, ◌==◌, ==→eq, if◌then◌else◌,
  arith,
}
use maruswap.Base.Run.{
  ok, Cmd, pure, ◌>>=◌, ◌>>◌, modify, test◌then◌else◌, and_then-eq-ok, test_not-eq-ok,
}
use maruswap.Drive.Xarray.{Xarray}
use maruswap.Drive.Net.{Verbs}
use maruswap.Drive.Ctrl.{RdmaCtrl, Drive}
use maruswap.Drive.Swap.Wrote.{Sound, Reports}
use maruswap.Drive.Swap.Sound.{maruswap_multicast_write-Sound}
use maruswap.Drive.Swap.Staged.{serves, maruswap_rdma_read-staged}
use maruswap.Drive.Swap.Cache.{Cache, write_out, cache, cache-maruswap_multicast_write}
use maruswap.Drive.Swap.RoundTrip.{store_wrote, load_read}
use maruswap.Drive.Module.{FrontswapOps, maruswap_ops, init_maruswap}

-- What frontswap calls, besides loads, and what the kernel writes to a page meanwhile.
pub data FrontCall : Type 0 where
  started : (type : ℕ) → FrontCall
  stores : (type offset page : ℕ) → FrontCall
  gone_page : (type offset : ℕ) → FrontCall
  gone_area : (type : ℕ) → FrontCall
  changed : (page content : ℕ) → FrontCall

abbrev pub call :
    {S : Type 0} → (change : (page content : ℕ) → S → S) → FrontswapOps S → FrontCall → Cmd S ℕ
call change ops (started type) = ops.init type >> pure 0
call change ops (stores type offset page) = ops.store type offset page
call change ops (gone_page type offset) = ops.invalidate_page type offset >> pure 0
call change ops (gone_area type) = ops.invalidate_area type >> pure 0
call change ops (changed page content) = modify (change page content) >> pure 0

-- one after the other, up to the first that fails
abbrev pub calls :
    {S : Type 0} → (change : (page content : ℕ) → S → S) → FrontswapOps S → List FrontCall → Cmd S ℕ
calls change ops [] = pure 0
calls change ops (c ∷ cs) =
    call change ops c >>= λ r. test not (r == 0) then pure r else calls change ops cs

-- what they do to the contents of the pages
abbrev pub frame_after : (frame : ℕ → ℕ) → FrontCall → ℕ → ℕ
frame_after frame (changed page content) p = if p == page then content else frame p
frame_after frame (started type) p = frame p
frame_after frame (stores type offset page) p = frame p
frame_after frame (gone_page type offset) p = frame p
frame_after frame (gone_area type) p = frame p

abbrev pub frames_after : (frame : ℕ → ℕ) → List FrontCall → ℕ → ℕ
frames_after frame [] = frame
frames_after frame (c ∷ cs) = frames_after (frame_after frame c) cs

-- what they do to a cache; an offset is cut to 32 bits
abbrev pub cached : (frame : ℕ → ℕ) → FrontCall → Cache → Cache
cached frame (stores type offset page) c = write_out (offset % 2 ^ 32) (frame page) c
cached frame (started type) c = c
cached frame (gone_page type offset) c = c
cached frame (gone_area type) c = c
cached frame (changed page content) c = c

abbrev pub cached_all : (frame : ℕ → ℕ) → List FrontCall → Cache → Cache
cached_all frame [] c = c
cached_all frame (x ∷ xs) c = cached_all (frame_after frame x) xs (cached frame x c)

module _ (xa : Xarray) where
  abbrev pub change_page : (page content : ℕ) → Drive xa.Arr → Drive xa.Arr
  change_page page content s = record s { frame = frame_after s.frame (changed page content) }

module _ (xa : Xarray) (v : Verbs) (reports : Reports xa v) where
  -- the driver after a history of calls
  pub record Cached (cs : List FrontCall) (s t : Drive xa.Arr) : Type 0 where
    pub shows : cache xa v t ≡ cached_all s.frame cs (cache xa v s)
    pub frame : t.frame ≡ frames_after s.frame cs
    pub sound : Sound xa v t

  Cached-call :
      (fuel : ℕ) (c : FrontCall) (s : Drive xa.Arr) {t : Drive xa.Arr}
      → Sound xa v s
      → call (change_page xa) (maruswap_ops xa v fuel) c s ≡ ok 0 t
      → Cached (c ∷ []) s t
  unfolding maruswap_ops
  Cached-call fuel (stores type offset page) s {t} sound h =
      let wrote = store_wrote xa v fuel page offset s h in
      let (shows, frame) =
        cache-maruswap_multicast_write xa v fuel page (offset % 2 ^ 32) s reports sound wrote in
      record {
        shows = shows;
        frame = frame;
        sound = maruswap_multicast_write-Sound xa v fuel page (offset % 2 ^ 32) s sound wrote;
      }
  Cached-call fuel (started type) s {t} sound h =
      let e : t ≡ s = cc in rw e (record { shows = refl; frame = refl; sound = sound })
  Cached-call fuel (gone_page type offset) s {t} sound h =
      let e : t ≡ s = cc in rw e (record { shows = refl; frame = refl; sound = sound })
  Cached-call fuel (gone_area type) s {t} sound h =
      let e : t ≡ s = cc in rw e (record { shows = refl; frame = refl; sound = sound })
  Cached-call fuel (changed page content) s {t} sound h =
      let e : t ≡ change_page xa page content s = cc in
      rw e (record {
        shows = refl;
        frame = refl;
        sound = record {
          window = sound.window;
          batch_le = sound.batch_le;
          counted = sound.counted;
        };
      })

  pub calls-Cached :
      (fuel : ℕ) (cs : List FrontCall) (s : Drive xa.Arr) {t : Drive xa.Arr}
      → Sound xa v s
      → calls (change_page xa) (maruswap_ops xa v fuel) cs s ≡ ok 0 t
      → Cached cs s t
  calls-Cached fuel [] s {t} sound h =
      let e : t ≡ s = cc in rw e (record { shows = refl; frame = refl; sound = sound })
  calls-Cached fuel (c ∷ cs) s {t} sound h =
      let (r, m, e, rest) =
        and_then-eq-ok (call (change_page xa) (maruswap_ops xa v fuel) c s) _ h in
      elim (test_not-eq-ok (r == 0) r (calls (change_page xa) (maruswap_ops xa v fuel) cs) m rest) [
        | inl (bad, er, et) ↦ absurd (ground (arith, bad, er))
        | inr (fine, done) ↦
            let one = Cached-call fuel c s {t = m} sound (rw (==→eq r 0 fine) at e) in
            let more = calls-Cached fuel cs m {t = t} one.sound done in
            record {
              shows =
                  more.shows
                  ∙ ap (λ (f : ℕ → ℕ). cached_all f cs (cache xa v m)) one.frame
                  ∙ ap (cached_all (frame_after s.frame c) cs) one.shows;
              frame = more.frame ∙ ap (λ (f : ℕ → ℕ). frames_after f cs) one.frame;
              sound = more.sound;
            }
      ]

  -- Loading the module returns 0 and puts its calls before those that frontswap had, if the
  -- kernel's registration does so. Take any history of calls to what is then registered, of pages
  -- to store and of notices of swap devices and invalid pages and areas, that all return 0, with
  -- pages that the kernel changes between them. Then the driver's cache is what `cached_all` makes
  -- of it, the pages are as the kernel left them, the driver stays sound, and a page that the cache
  -- has loads into any page on any processor that has a connection.
  pub init_maruswap-serves :
      {K : Type 0} (frontswap_register_ops : FrontswapOps (Drive xa.Arr) → Cmd K (Unit {0}))
      (frontswap_ops : K → List (FrontswapOps (Drive xa.Arr)))
      → ((ops : FrontswapOps (Drive xa.Arr)) (k : K)
          → (k' : K) × (frontswap_register_ops ops k ≡ ok tt k')
            × (frontswap_ops k' ≡ ops ∷ frontswap_ops k))
      → (k : K) (fuel cpu type to offset content : ℕ) (cs : List FrontCall) (s t : Drive xa.Arr)
        (c : RdmaCtrl)
      → Sound xa v s
      → calls (change_page xa) (maruswap_ops xa v fuel) cs s ≡ ok 0 t
      → (cached_all s.frame cs (cache xa v s)).pages (offset % 2 ^ 32) ≡ some content
      → serves xa v cpu t ≡ some c
      → (k' : K) × (ops : FrontswapOps (Drive xa.Arr)) × (init_maruswap frontswap_register_ops
            (maruswap_ops xa v fuel)
            k
          ≡ ok 0 k')
        × (frontswap_ops k' ≡ ops ∷ frontswap_ops k)
        × (calls (change_page xa) ops cs s ≡ ok 0 t)
        × Cached cs s t
        × (ops.load cpu type offset to t
            ≡ ok 0
                (record t { frame = λ p. if p == to then content else frames_after s.frame cs p }))
  unfolding init_maruswap maruswap_ops
  init_maruswap-serves register frontswap_ops registers k fuel cpu type to offset content cs s t c
        sound h there which =
      let (k', e, put) = registers (maruswap_ops xa v fuel) k in
      let now = calls-Cached fuel cs s {t = t} sound h in
      let held = ap (λ (x : Cache). x.pages (offset % 2 ^ 32)) now.shows ∙ there in
      let read =
        maruswap_rdma_read-staged xa v fuel cpu to (offset % 2 ^ 32) content t c held which in
      (
        k',
        maruswap_ops xa v fuel,
        rw e refl,
        put,
        h,
        now,
        load_read xa v fuel cpu to offset t _ read
            ∙ ap (λ (f : ℕ → ℕ). ok 0 (record t { frame = λ p. if p == to then content else f p }))
                now.frame,
      )
