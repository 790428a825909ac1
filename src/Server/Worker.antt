-- ===== src/Server/Worker.antt =====
-- lib/handler.c: the worker thread that takes received pages from a list. No code starts it.
pub mod Drains
use maruswap.Base.{ℕ, zero, suc, Bool, true, false, List, [], ◌∷◌, erase}
use maruswap.Base.Run.{
  Run, ok, fault, out_of_fuel, Cmd, pure, ◌>>=◌, ◌>>◌, gets, modify, test◌then◌else◌,
}
use maruswap.Server.State.{Verbs, Server}
use maruswap.Server.Multicast.{ib_process_multicast_completion}

-- The handler, with the receive works to process and the lock of their list.
pub record Worker : Type 0 where
  pub server : Server
  pub work_list : List ℕ
  pub work_lock : Bool

-- a command on the handler without the list
unfoldable pub settle : {A : Type 0} → Worker → Run Server A → Run Worker A
settle w (ok a s) = ok a (record w { server = s })
settle w fault = fault
settle w out_of_fuel = out_of_fuel

module _ (v : Verbs) where
  -- the completion that a receive work holds
  unfoldable pub process_work : (fuel work : ℕ) → Cmd Server (Unit {0})
  unfolding ib_process_multicast_completion
  process_work fuel work s = ib_process_multicast_completion v fuel (s.works work).wc s

  -- `list_for_each_entry_safe`: each work leaves the list before its page is processed
  unfoldable pub process_each : (fuel : ℕ) → List ℕ → Cmd Worker (Unit {0})
  unfolding settle process_work
  process_each fuel [] = pure tt
  process_each fuel (work ∷ works) = do
    modify (λ w. record w { work_list = erase work w.work_list })
    λ w. settle w (process_work fuel work w.server)
    process_each fuel works

  -- One turn of `while (1)`; `pthread_spin_trylock` fails if the lock is held.
  unfoldable pub work_round : (fuel : ℕ) → Cmd Worker (Unit {0})
  unfolding process_each
  work_round fuel = do
    busy ← gets (λ w. w.work_lock)
    test busy then pure tt else (do
      modify (λ w. record w { work_lock = true })
      works ← gets (λ w. w.work_list)
      process_each fuel works
      modify (λ w. record w { work_lock = false }))

  -- `other` is what the other threads do between two turns.
  unfoldable pub process_multicast_memory_work :
      (other : Cmd Worker (Unit {0})) (polls fuel : ℕ) → Cmd Worker (Unit {0})
  unfolding work_round
  process_multicast_memory_work other polls zero = λ _. out_of_fuel
  process_multicast_memory_work other polls (suc n) = do
    work_round polls
    other
    process_multicast_memory_work other polls n
