-- ===== src/Api/Steady.antt =====
-- Parts of a program that leave something that can be read off the trace as it is, and neither jump
-- nor end the program.
use cloudssh.Base.{ℕ, Bool, true, false, List, ◌∷◌, ◌≡◌, ◌∙◌, if◌then◌else◌}
use cloudssh.Base.Int.{ℤ}
use cloudssh.Api.Calls.{Stream, Input, Call}
use cloudssh.Api.Action.{
  called, wrote, took, Trace, Env, Run, ret, undefined, spin, Prog, and_then, pure, fault,
  out_of_rounds, call, write, read, ◌>>=◌, ◌>>◌,
}

-- The observation `see` is still `x`.
pub data Kept {J A X : Type 0} (see : Trace → X) (x : X) : Run J A → Type 0 where
  went_on : {a : A} {t : Trace} → see t ≡ x → Kept see x (ret a t)
  overran : {t : Trace} → see t ≡ x → Kept see x (undefined t)
  ran_on : {t : Trace} → see t ≡ x → Kept see x (spin t)

pub record IsSteady {J A X : Type 0} (see : Trace → X) (m : Prog J A) : Type 0 where
  pub keeps : (env : Env) (t : Trace) (x : X) → see t ≡ x → Kept see x (m env t)

-- What is seen does not depend on the data.
pub record IsDataFree {X : Type 0} (see : Trace → X) : Type 0 where
  pub wrote_same : (s : Stream) (bs : List ℕ) (z : ℤ) (t : Trace) → see (wrote s bs z ∷ t) ≡ see t
  pub took_same : (s : Stream) (n : ℕ) (i : Input) (t : Trace) → see (took s n i ∷ t) ≡ see t

module _ {J X : Type 0} {see : Trace → X} where
  Kept-bind :
      {A B : Type 0} {x : X} {run : Run J A} (k : A → Prog J B) (env : Env)
      → Kept see x run
      → ((a : A) → IsSteady see (k a))
      → Kept see x (and_then run k env)
  Kept-bind k env (went_on e) next = (next _).keeps env _ _ e
  Kept-bind k env (overran e) next = overran e
  Kept-bind k env (ran_on e) next = ran_on e

  pub bind-IsSteady :
      {A B : Type 0} {m : Prog J A} {k : A → Prog J B}
      → IsSteady see m
      → ((a : A) → IsSteady see (k a))
      → IsSteady see (m >>= k)
  bind-IsSteady {k = k} h next = record {
    keeps = λ env t x e. Kept-bind k env (h.keeps env t x e) next;
  }

  infixr 4 ◌⨾◌
  pub ◌⨾◌ :
      {A B : Type 0} {m : Prog J A} {n : Prog J B}
      → IsSteady see m
      → IsSteady see n
      → IsSteady see (m >> n)
  ◌⨾◌ h next = bind-IsSteady h (λ a. next)

  pub pure-IsSteady : {A : Type 0} (a : A) → IsSteady {J = J} see (pure a)
  pure-IsSteady a = record { keeps = λ env t x e. went_on e }

  pub fault-IsSteady : {A : Type 0} → IsSteady {J = J} see (fault {A = A})
  fault-IsSteady = record { keeps = λ env t x e. overran e }

  pub spin-IsSteady : {A : Type 0} → IsSteady {J = J} see (out_of_rounds {A = A})
  spin-IsSteady = record { keeps = λ env t x e. ran_on e }

  pub call-IsSteady :
      (c : Call)
      → ((z : ℤ) (t : Trace) → see (called c z ∷ t) ≡ see t)
      → IsSteady {J = J} see (call c)
  call-IsSteady c same = record { keeps = λ env t x e. went_on (same (env.reply t c) t ∙ e) }

  pub choice-IsSteady :
      {A : Type 0} (b : Bool) {m n : Prog J A}
      → IsSteady see m
      → IsSteady see n
      → IsSteady see (if b then m else n)
  choice-IsSteady true h h' = h
  choice-IsSteady false h h' = h'

  module _ (data_free : IsDataFree see) where
    pub write-IsSteady : (s : Stream) (bs : List ℕ) → IsSteady {J = J} see (write s bs)
    write-IsSteady s bs = record {
      keeps = λ env t x e. went_on (data_free.wrote_same s bs (env.accept t s bs) t ∙ e);
    }

    pub read-IsSteady : (s : Stream) (n : ℕ) → IsSteady {J = J} see (read s n)
    read-IsSteady s n = record {
      keeps = λ env t x e. went_on (data_free.took_same s n (env.input t s n) t ∙ e);
    }
