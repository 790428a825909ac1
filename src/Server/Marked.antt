-- ===== src/Server/Marked.antt =====
-- lib/handler.c, lib/ib.c: commands that leave the mark of a conveyed page on its receive work.
pub mod Sends
pub mod Blocks
pub mod Commit
use maruswap.Base.{
  ℕ, zero, suc, ◌≡◌, refl, ◌∙◌, Bool, true, false, not, Option, none, some, List, [], ◌∷◌, ◌++◌,
  set, erase, ◌==◌, if◌then◌else◌, Bool-cases, inl, inr, Option-cases, arith,
}
use maruswap.Base.Run.{
  Run, ok, fault, out_of_fuel, Cmd, pure, ◌>>=◌, ◌>>◌, gets, modify, stop, test◌then◌else◌,
  and_then-eq-ok,
}
use maruswap.Drive.Net.{Wc, Poll, empty, failed, completed}
use maruswap.Server.Header.{Fields, interpret_header}
use maruswap.Server.State.{
  SendWr, WrOpcode, send_with_imm, Call, Verbs, Memblock, Server, ask, tell,
}

-- A command that leaves a receive work marked.
pub record Leaves (work : ℕ) {A : Type 0} (m : Cmd Server A) : Type 0 where
  pub stays :
      (s : Server) (r : A) (t : Server)
      → m s ≡ ok r t
      → (s.works work).convey ≡ true
      → (t.works work).convey ≡ true

module _ (work : ℕ) where
  pub pure-Leaves : {A : Type 0} (a : A) → Leaves work (pure a)
  pure-Leaves a = record { stays = λ s r t h marked. let e : t ≡ s = cc in rw e marked }

  pub gets-Leaves : {A : Type 0} (f : Server → A) → Leaves work (gets f)
  gets-Leaves f = record { stays = λ s r t h marked. let e : t ≡ s = cc in rw e marked }

  pub stop-Leaves : {A : Type 0} → Leaves work (stop {A = A})
  stop-Leaves = record { stays = λ s r t h marked. cc }

  pub ask-Leaves : {A : Type 0} (c : Call) (f : List Call → A) → Leaves work (ask c f)
  ask-Leaves c f = record {
    stays = λ s r t h marked. let e : t ≡ record s { log = c ∷ s.log } = cc in rw e marked;
  }

  pub bind-Leaves :
      {A B : Type 0} (m : Cmd Server A) (k : A → Cmd Server B)
      → Leaves work m
      → ((a : A) → Leaves work (k a))
      → Leaves work (m >>= k)
  bind-Leaves m k hm hk = record {
    stays = λ s r t h marked.
        let (a, x, e, rest) = and_then-eq-ok (m s) k h in
        (hk a).stays x r t rest (hm.stays s a x e marked);
  }

  pub then-Leaves :
      {A : Type 0} (m : Cmd Server (Unit {0})) (k : Cmd Server A)
      → Leaves work m
      → Leaves work k
      → Leaves work (m >> k)
  then-Leaves m k hm hk = bind-Leaves m (λ _. k) hm (λ _. hk)

  pub test-Leaves :
      {A : Type 0} (b : Bool) (m k : Cmd Server A)
      → Leaves work m
      → Leaves work k
      → Leaves work (test b then m else k)
  test-Leaves true m k hm hk = hm
  test-Leaves false m k hm hk = hk

  pub modify-Leaves :
      (f : Server → Server)
      → ((s : Server) → (s.works work).convey ≡ true → ((f s).works work).convey ≡ true)
      → Leaves work (modify f)
  modify-Leaves f keeps = record {
    stays = λ s r t h marked. let e : t ≡ f s = cc in rw e (keeps s marked);
  }

  pub option-Leaves :
      {A B : Type 0} (x : Option B) (m : Cmd Server A) (k : B → Cmd Server A)
      → Leaves work m
      → ((b : B) → Leaves work (k b))
      → Leaves work (elim x [ none ↦ m | some b ↦ k b ])
  option-Leaves none m k hm hk = hm
  option-Leaves (some b) m k hm hk = hk b

pub ruleset leaves = (
  pure-Leaves, gets-Leaves, stop-Leaves, ask-Leaves, bind-Leaves, then-Leaves, test-Leaves,
  option-Leaves,
)
