-- ===== src/Programs/Upload/Rules.antt =====
-- Rules to follow a run where calls are known to succeed.
use cloudssh.Base.{Bool, true, false, ◌∷◌, ◌≡◌, if◌then◌else◌}
use cloudssh.Base.Int.{ℤ}
use cloudssh.Api.{
  Call, Env, Trace, called, Exits, Meets, returns, jumps, leaves, spins, Meets-bind, Run, ret, jump,
  leave, undefined, spin, call, pure, labelled, at_shutdown, ◌>>=◌, ◌>>◌,
}
use cloudssh.Upload.Chunk.{within}
use cloudssh.Programs.Start.{Main}

-- From a trace where `P` holds, the action goes on where `Q` holds, or leaves as `E` allows.
pub record Serves {A : Type 0} (env : Env) (E : Exits (Unit {0})) (P : Trace → Type 0) (m : Main A)
    (Q : Trace → Type 0) : Type 0 where
  pub runs : (t : Trace) → P t → Meets E (λ _. Q) (m env t)

-- A call that carries no data does not matter to `P`.
pub record IsQuiet (P : Trace → Type 0) : Type 0 where
  pub kept : (c : Call) (z : ℤ) (t : Trace) → P t → P (called c z ∷ t)

Meets-labelled :
    {E : Exits (Unit {0})} {Q R : Trace → Type 0} {A : Type 0} (run : Run (Unit {0}) (Unit {0}))
    (k : Unit {0} → Main A) (env : Env)
    → ((t : Trace) → E.jumping tt t → ⊥)
    → Meets E (λ _. Q) run
    → ((t : Trace) → Q t → Meets E (λ _. R) (k tt env t))
    → Meets E (λ _. R) (labelled run k env)
Meets-labelled (ret tt t) k env never (returns q) next = next t q
Meets-labelled (jump tt t) k env never (jumps q) next = absurd (never t q)
Meets-labelled (undefined t) k env never done next = elim done [ ]
Meets-labelled (leave z t) k env never (leaves q) next = leaves q
Meets-labelled (spin t) k env never (spins q) next = spins q

-- A loop that only returns.
pub returning :
    {A : Type 0} {E : Exits (Unit {0})} {Q : Trace → Type 0} {run : Run (Unit {0}) A}
    → Meets (within (λ _. ⊥)) (λ _. Q) run
    → Meets E (λ _. Q) run
returning (returns q) = returns q
returning (jumps q) = absurd q
returning (leaves q) = absurd q
returning (spins q) = absurd q

module _ {env : Env} {E : Exits (Unit {0})} where
  pub bind-Serves :
      {A B : Type 0} {P Q R : Trace → Type 0} {m : Main A} {k : A → Main B}
      → Serves env E P m Q
      → ((a : A) → Serves env E Q (k a) R)
      → Serves env E P (m >>= k) R
  bind-Serves {k = k} h next = record {
    runs = λ t p. Meets-bind k env (h.runs t p) (λ a u q. (next a).runs u q);
  }

  infixr 4 ◌⨾◌
  pub ◌⨾◌ :
      {A B : Type 0} {P Q R : Trace → Type 0} {m : Main A} {n : Main B}
      → Serves env E P m Q
      → Serves env E Q n R
      → Serves env E P (m >> n) R
  ◌⨾◌ h next = bind-Serves h (λ a. next)

  pub pure-Serves : {A : Type 0} {P : Trace → Type 0} (a : A) → Serves env E P (pure a) P
  pure-Serves a = record { runs = λ t p. returns p }

  module _ {P : Trace → Type 0} (quiet : IsQuiet P) where
    pub call-Serves : (c : Call) → Serves env E P (call c) P
    call-Serves c = record { runs = λ t p. returns (quiet.kept c (env.reply t c) t p) }

    -- A test on the answer to a call, where the outcome is known.
    pub passes :
        {A : Type 0} {Q : Trace → Type 0} (c : Call) (test : ℤ → Bool) (bad : ℤ → Main A)
        {good : ℤ → Main A}
        → ((t : Trace) → test (env.reply t c) ≡ true)
        → ((z : ℤ) → Serves env E P (good z) Q)
        → Serves env E P (call c >>= λ z. if test z then good z else bad z) Q
    passes c test bad known next = record {
      runs = λ t p. rw (known t) ((next (env.reply t c)).runs _ (quiet.kept c (env.reply t c) t p));
    }

    pub fails :
        {A : Type 0} {Q : Trace → Type 0} (c : Call) (test : ℤ → Bool) (bad : ℤ → Main A)
        {good : ℤ → Main A}
        → ((t : Trace) → test (env.reply t c) ≡ false)
        → ((z : ℤ) → Serves env E P (good z) Q)
        → Serves env E P (call c >>= λ z. if test z then bad z else good z) Q
    fails c test bad known next = record {
      runs = λ t p. rw (known t) ((next (env.reply t c)).runs _ (quiet.kept c (env.reply t c) t p));
    }

    -- What is known of the answer is passed on.
    pub answered :
        {A : Type 0} {Q : Trace → Type 0} {k : ℤ → Main A} (c : Call) (test : ℤ → Bool) (b : Bool)
        → ((t : Trace) → test (env.reply t c) ≡ b)
        → ((z : ℤ) → test z ≡ b → Serves env E P (k z) Q)
        → Serves env E P (call c >>= k) Q
    answered c test b known next = record {
      runs = λ t p. (next (env.reply t c) (known t)).runs _ (quiet.kept c (env.reply t c) t p);
    }

  pub shutdown-Serves :
      {A : Type 0} {P Q R : Trace → Type 0} {m : Main (Unit {0})} (k : Unit {0} → Main A)
      → ((t : Trace) → E.jumping tt t → ⊥)
      → Serves env E P m Q
      → Serves env E Q (k tt) R
      → Serves env E P (at_shutdown m k) R
  shutdown-Serves {m = m} k never h next = record {
    runs = λ t p. Meets-labelled (m env t) k env never (h.runs t p) (λ u q. next.runs u q);
  }
