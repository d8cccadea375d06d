-- ===== src/Api/Rules.antt =====
-- Correctness of a part of a program, whatever the environment answers: it does nothing
-- undefined, it ends in a state that `Q` or the exits allow, and where it is still running the
-- trace so far is as `running` says.
use cloudssh.Base.Int.{ℤ}
use cloudssh.Api.Action.{Trace, Env, Run, ret, jump, leave, spin, Prog, and_then}

pub record Exits (J : Type 0) : Type 1 where
  pub jumping : J → Trace → Type 0
  pub leaving : ℤ → Trace → Type 0
  pub running : Trace → Type 0

pub data Meets {J A : Type 0} (E : Exits J) (Q : A → Trace → Type 0) : Run J A → Type 0 where
  returns : {a : A} {t : Trace} → Q a t → Meets E Q (ret a t)
  jumps : {j : J} {t : Trace} → E.jumping j t → Meets E Q (jump j t)
  leaves : {z : ℤ} {t : Trace} → E.leaving z t → Meets E Q (leave z t)
  spins : {t : Trace} → E.running t → Meets E Q (spin t)

module _ {J A : Type 0} {E : Exits J} {Q : A → Trace → Type 0} where
  pub Meets-bind :
      {B : Type 0} {R : B → Trace → Type 0} {r : Run J A} (k : A → Prog J B) (env : Env)
      → Meets E Q r
      → ((a : A) (t : Trace) → Q a t → Meets E R (k a env t))
      → Meets E R (and_then r k env)
  Meets-bind k env (returns q) next = next _ _ q
  Meets-bind k env (jumps q) next = jumps q
  Meets-bind k env (leaves q) next = leaves q
  Meets-bind k env (spins q) next = spins q

  pub Meets-mono :
      {R : A → Trace → Type 0} {r : Run J A}
      → Meets E Q r
      → ((a : A) (t : Trace) → Q a t → R a t)
      → Meets E R r
  Meets-mono (returns q) weaken = returns (weaken _ _ q)
  Meets-mono (jumps q) weaken = jumps q
  Meets-mono (leaves q) weaken = leaves q
  Meets-mono (spins q) weaken = spins q
