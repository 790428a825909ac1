-- ===== src/Drive/Swap/Sound.antt =====
-- drive/sib.c: the number of pages that are out, and of staged copies, under writes.
use maruswap.Base.{ℕ, ◌+◌, ◌≤◌, ◌<◌, ◌≡◌, ◌⊎◌, inl, inr, arith}
use maruswap.Base.Run.{ok}
use maruswap.Drive.Header.{config_batch}
use maruswap.Drive.Xarray.{Xarray}
use maruswap.Drive.Net.{Verbs}
use maruswap.Drive.Stage.Window.{put_entry-IsWindow}
use maruswap.Drive.Stage.Refine.{count-put_entry}
use maruswap.Drive.Ctrl.{Drive}
use maruswap.Drive.Ctrl.Keeps.{Keeps, Committed}
use maruswap.Drive.Swap.{maruswap_multicast_write}
use maruswap.Drive.Swap.Wrote.{
  Sound, Sound-Keeps, Sound-Committed, Put, Wrote, kept, only_committed, counted,
  maruswap_multicast_write-Wrote,
}

module _ (xa : Xarray) (v : Verbs) where
  -- the state before the increment: the one that the write met, or that one committed
  abbrev pub From : Drive xa.Arr → Drive xa.Arr → Type 0
  From s m =
      (Keeps xa v s m × (s.batch < config_batch)) ⊎ (Committed xa v s m × (config_batch ≤ s.batch))

  pub From-Sound :
      (s m : Drive xa.Arr) → Sound xa v s → From s m → Sound xa v m × (m.batch < config_batch)
  From-Sound s m sound (inl (k, lt)) = (Sound-Keeps xa v k sound, omega (arith, k.batch))
  From-Sound s m sound (inr (c, le)) = (Sound-Committed xa v c sound, omega (arith, c.batch))

  Put-Sound :
      (page offset : ℕ) (m n t : Drive xa.Arr)
      → Sound xa v m
      → m.batch < config_batch
      → n ≡ record m { batch = m.batch + 1 }
      → Put xa v page offset n t
      → Sound xa v t
  Put-Sound page offset m n t sound lt e p =
      let st = n.stage_buffer in
      let same : st ≡ m.stage_buffer = ground (arith, e) in
      let more : n.batch ≡ m.batch + 1 = ground (arith, e) in
      let few : st.count ≤ m.batch = rw same sound.counted in
      record {
        window =
            rw p.stage_buffer
              (put_entry-IsWindow xa (n.frame page) offset (rw same sound.window) (omega arith));
        batch_le = rw p.batch (omega arith);
        counted =
            rw (p.stage_buffer, p.batch, count-put_entry xa st (n.frame page) offset) (omega arith);
      }

  Skip-Sound :
      (m n t : Drive xa.Arr)
      → Sound xa v m
      → m.batch < config_batch
      → n ≡ record m { batch = m.batch + 1 }
      → Keeps xa v n t
      → Sound xa v t
  Skip-Sound m n t sound lt e k =
      let same : t.stage_buffer ≡ m.stage_buffer = ground (arith, e, k.stage_buffer) in
      let more : t.batch ≡ m.batch + 1 = ground (arith, e, k.batch) in
      record {
        window = rw same sound.window;
        batch_le = omega arith;
        counted = rw (same, more) (omega (arith, sound.counted));
      }

  Wrote-Sound :
      {page offset r : ℕ} {s t : Drive xa.Arr}
      → Sound xa v s
      → Wrote xa v page offset r s t
      → Sound xa v t
  Wrote-Sound sound (kept ne k) = Sound-Keeps xa v k sound
  Wrote-Sound sound (only_committed ne c) = Sound-Committed xa v c sound
  Wrote-Sound {page} {offset} {s} {t} sound (counted m n from e (inl p)) =
      let (ready, lt) = From-Sound s m sound from in Put-Sound page offset m n t ready lt e p
  Wrote-Sound {s} {t} sound (counted m n from e (inr (k, ne))) =
      let (ready, lt) = From-Sound s m sound from in Skip-Sound m n t ready lt e k

  -- However a write returns, the driver stays sound: at most `CONFIG_BATCH` pages are out, no more
  -- copies are staged than pages are out, and the ring's window is in order. So the branch of
  -- `stage_buffer_store` for a full buffer is never taken by a write.
  pub maruswap_multicast_write-Sound :
      (fuel page offset : ℕ) (s : Drive xa.Arr) {r : ℕ} {t : Drive xa.Arr}
      → Sound xa v s
      → maruswap_multicast_write xa v fuel page offset s ≡ ok r t
      → Sound xa v t
  maruswap_multicast_write-Sound fuel page offset s sound h =
      Wrote-Sound sound (maruswap_multicast_write-Wrote xa v fuel page offset s sound h)
