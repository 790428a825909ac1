-- ===== src/Drive/Module.antt =====
-- drive/maruswap.c: the calls that frontswap makes, and the module that registers them.
pub mod Registered
use maruswap.Base.{ℕ, not, ◌==◌, Bool}
use maruswap.Base.Run.{Run, ok, Cmd, pure, ◌>>=◌, ◌>>◌}
use maruswap.Drive.Xarray.{Xarray}
use maruswap.Drive.Net.{Verbs}
use maruswap.Drive.Ctrl.{Drive}
use maruswap.Drive.Swap.{maruswap_store, maruswap_load}

-- `struct frontswap_ops`: calls on the driver's state. A page is its frame, and a load is told the
-- processor that it runs on.
pub record FrontswapOps (S : Type 0) : Type 0 where
  pub init : (type : ℕ) → Cmd S (Unit {0})
  pub store : (type offset page : ℕ) → Cmd S ℕ
  pub load : (cpu type offset page : ℕ) → Cmd S ℕ
  pub invalidate_page : (type offset : ℕ) → Cmd S (Unit {0})
  pub invalidate_area : (type : ℕ) → Cmd S (Unit {0})

module _ (xa : Xarray) (v : Verbs) (fuel : ℕ) where
  -- These three do nothing but print.
  unfoldable pub maruswap_invalidate_page : (type offset : ℕ) → Cmd (Drive xa.Arr) (Unit {0})
  maruswap_invalidate_page type offset = pure tt

  unfoldable pub maruswap_invalidate_area : (type : ℕ) → Cmd (Drive xa.Arr) (Unit {0})
  maruswap_invalidate_area type = pure tt

  unfoldable pub maruswap_init : (type : ℕ) → Cmd (Drive xa.Arr) (Unit {0})
  maruswap_init type = pure tt

  unfoldable pub maruswap_ops : FrontswapOps (Drive xa.Arr)
  unfolding maruswap_init maruswap_invalidate_page maruswap_invalidate_area
  maruswap_ops = record {
    init = maruswap_init;
    store = λ type offset page. maruswap_store xa v fuel page offset;
    load = λ cpu type offset page. maruswap_load xa v fuel cpu page offset;
    invalidate_page = maruswap_invalidate_page;
    invalidate_area = maruswap_invalidate_area;
  }

unfoldable pub maruswap_init_debugfs : {K : Type 0} → Cmd K ℕ
maruswap_init_debugfs = pure 0

module _ {K : Type 0} {S : Type 0} (frontswap_register_ops : FrontswapOps S → Cmd K (Unit {0}))
    (ops : FrontswapOps S) where
  -- A failure of `maruswap_init_debugfs` is printed, and no more.
  unfoldable pub init_maruswap : Cmd K ℕ
  unfolding maruswap_init_debugfs
  init_maruswap = do frontswap_register_ops ops; _ ← maruswap_init_debugfs; pure 0

-- The ops stay registered.
unfoldable pub exit_maruswap : {K : Type 0} → Cmd K (Unit {0})
exit_maruswap = pure tt
