-- ===== src/Programs/Order/Rules.antt =====
-- Rules to show that actions lead from one phase to another.
use cloudssh.Base.{ℕ, List, Bool, true, false, ◌≡◌, refl, if◌then◌else◌, ◌⊎◌, inl, inr, arith}
use cloudssh.Base.Int.{ℤ, is_zero}
use cloudssh.Api.{
  Stream, Call, Env, Trace, Run, ret, jump, leave, undefined, spin, Prog, call, write, read, pure,
  goto, exit, fault, out_of_rounds, and_then, labelled, at_shutdown, with_jump, jumping_with,
  advance, ◌>>=◌, ◌>>◌,
}
use cloudssh.Programs.Order.{
  Phase, Label, unit_label, kind_of, step, kind_of_stream, phase, is_open, is_broken, Follows,
}

-- From the phase `p`, the action keeps the order, and goes on with `a` in the phase `q a`.
pub record Leads {J A : Type 0} ⦃label : Label J⦄ (may_fail : Phase → Bool) (p : Phase)
    (m : Prog J A) (q : A → Phase) : Type 0 where
  pub follows : (env : Env) (t : Trace) → phase t ≡ p → Follows may_fail q (m env t)

Follows-bind :
    {J A B : Type 0} ⦃label : Label J⦄ (may_fail : Phase → Bool) (q : A → Phase) (r : B → Phase)
    (run : Run J A) (k : A → Prog J B) (env : Env)
    → Follows may_fail q run
    → ((a : A) (t : Trace) → phase t ≡ q a → Follows may_fail r (k a env t))
    → Follows may_fail r (and_then run k env)
Follows-bind fail q r (ret a t) k env h next = next a t h
Follows-bind fail q r (jump j t) k env h next = h
Follows-bind fail q r (leave z t) k env h next = h
Follows-bind fail q r (undefined t) k env h next = h
Follows-bind fail q r (spin t) k env h next = h

Follows-labelled :
    {J K A : Type 0} ⦃label : Label J⦄ ⦃outer : Label K⦄ (may_fail : Phase → Bool) (q : J → Phase)
    (r : A → Phase) (run : Run J J) (k : J → Prog K A) (env : Env)
    → ((j : J) → is_open (label.untrusted j) (q j) ≡ true)
    → Follows may_fail q run
    → ((j : J) (t : Trace)
        → is_open (label.untrusted j) (phase t) ≡ true
        → Follows may_fail r (k j env t))
    → Follows may_fail r (labelled run k env)
Follows-labelled fail q r (ret a t) k env stays h next = next a t (rw h (stays a))
Follows-labelled fail q r (jump j t) k env stays h next = next j t h
Follows-labelled fail q r (leave z t) k env stays h next = h
Follows-labelled fail q r (undefined t) k env stays h next = h
Follows-labelled fail q r (spin t) k env stays h next = h

Follows-with_jump :
    {J A : Type 0} ⦃label : Label J⦄ (may_fail : Phase → Bool) (q : A → Phase) (j : J)
    (run : Run (Unit {0}) A)
    → label.untrusted j ≡ true
    → Follows ⦃label = unit_label⦄ may_fail q run
    → Follows may_fail q (with_jump j run)
Follows-with_jump fail q j (ret a t) allowed h = h
Follows-with_jump fail q j (jump u t) allowed h = rw allowed h
Follows-with_jump fail q j (leave z t) allowed h = h
Follows-with_jump fail q j (undefined t) allowed h = h
Follows-with_jump fail q j (spin t) allowed h = h

open-cases :
    (untrusted : Bool) (p : Phase)
    → is_open untrusted p ≡ true
    → ((p ≡ Phase.secured) × (untrusted ≡ true)) ⊎ (p ≡ Phase.trusted)
open-cases b Phase.secured h = inl (refl, h)
open-cases b Phase.trusted h = inr refl
open-cases b p h = absurd (ground arith)

module _ {may_fail : Phase → Bool} {J : Type 0} ⦃label : Label J⦄ where
  pub bind-Leads :
      {A B : Type 0} {p : Phase} {q : A → Phase} {r : B → Phase} {m : Prog J A} {k : A → Prog J B}
      → Leads {J = J} may_fail p m q
      → ((a : A) → Leads {J = J} may_fail (q a) (k a) r)
      → Leads {J = J} may_fail p (m >>= k) r
  bind-Leads {q = q} {r = r} {m = m} {k = k} h next = record {
    follows = λ env t at.
        Follows-bind may_fail q r (m env t) k env (h.follows env t at)
          (λ a t' at'. (next a).follows env t' at');
  }

  infixr 4 ◌⨾◌
  pub ◌⨾◌ :
      {A B : Type 0} {p q : Phase} {r : B → Phase} {m : Prog J A} {n : Prog J B}
      → Leads {J = J} may_fail p m (λ a. q)
      → Leads {J = J} may_fail q n r
      → Leads {J = J} may_fail p (m >> n) r
  ◌⨾◌ h next = bind-Leads h (λ a. next)

  pub call-Leads :
      {p : Phase} (c : Call) → Leads {J = J} may_fail p (call c) (λ z. step p (kind_of c) z)
  call-Leads c = record { follows = λ env t at. rw at refl }

  -- A call that does not change the phase.
  pub keep :
      {p : Phase} (c : Call)
      → ((z : ℤ) → step p (kind_of c) z ≡ p)
      → Leads {J = J} may_fail p (call c) (λ z. p)
  keep c keeps = record { follows = λ env t at. rw at (keeps (env.reply t c)) }

  pub write-Leads :
      {p : Phase} (s : Stream) (bs : List ℕ)
      → ((z : ℤ) → step p (kind_of_stream s) z ≡ p)
      → Leads {J = J} may_fail p (write s bs) (λ z. p)
  write-Leads s bs keeps = record { follows = λ env t at. rw at (keeps (env.accept t s bs)) }

  pub read-Leads :
      {p : Phase} (s : Stream) (n : ℕ)
      → ((z : ℤ) → step p (kind_of_stream s) z ≡ p)
      → Leads {J = J} may_fail p (read s n) (λ i. p)
  read-Leads s n keeps = record { follows = λ env t at. rw at (keeps (ℤ.pos 0)) }

  -- The branches of a test on a result, where the phase depends on the test.
  pub test :
      {A : Type 0} {p p' : Phase} {q : A → Phase} (b : Bool) {m n : Prog J A}
      → Leads {J = J} may_fail p m q
      → Leads {J = J} may_fail p' n q
      → Leads {J = J} may_fail (if b then p else p') (if b then m else n) q
  test true h h' = h
  test false h h' = h'

  pub either :
      {A : Type 0} {p : Phase} {q : A → Phase} (b : Bool) {m n : Prog J A}
      → Leads {J = J} may_fail p m q
      → Leads {J = J} may_fail p n q
      → Leads {J = J} may_fail p (if b then m else n) q
  either true h h' = h
  either false h h' = h'

  pub pure-Leads : {A : Type 0} {q : A → Phase} (a : A) → Leads {J = J} may_fail (q a) (pure a) q
  pure-Leads a = record { follows = λ env t at. at }

  pub goto-Leads :
      {A : Type 0} {p : Phase} {q : A → Phase} (j : J)
      → is_open (label.untrusted j) p ≡ true
      → Leads {J = J} may_fail p (goto {A = A} j) q
  goto-Leads j stays = record { follows = λ env t at. rw at stays }

  pub spin-Leads :
      {A : Type 0} {p : Phase} {q : A → Phase}
      → is_broken p ≡ false
      → Leads {J = J} may_fail p (out_of_rounds {A = A}) q
  spin-Leads kept = record { follows = λ env t at. rw at kept }

  pub fault-Leads :
      {A : Type 0} {p : Phase} {q : A → Phase}
      → is_broken p ≡ false
      → Leads {J = J} may_fail p (fault {A = A}) q
  fault-Leads kept = record { follows = λ env t at. rw at kept }

  pub exit-Leads :
      {A : Type 0} {p : Phase} {q : A → Phase} (z : ℤ)
      → (if is_zero z then p ≡ Phase.finished else may_fail p ≡ true)
      → Leads {J = J} may_fail p (exit {A = A} z) q
  exit-Leads z allowed = record { follows = λ env t at. rw at allowed }

  pub advance-Leads :
      {p : Phase} (z : ℤ) (buf : List ℕ)
      → is_broken p ≡ false
      → Leads {J = J} may_fail p (advance z buf) (λ l. p)
  unfolding advance
  advance-Leads z buf kept = either _ (pure-Leads _) (fault-Leads kept)

  -- A part that reads no variable at the label.
  pub jumping_with-Leads :
      {A : Type 0} {p : Phase} {q : A → Phase} {m : Prog (Unit {0}) A} (j : J)
      → label.untrusted j ≡ true
      → Leads ⦃label = unit_label⦄ may_fail p m q
      → Leads {J = J} may_fail p (jumping_with j m) q
  jumping_with-Leads {q = q} {m = m} j allowed h = record {
    follows = λ env t at. Follows-with_jump may_fail q j (m env t) allowed (h.follows env t at);
  }

  -- The label is reached with the session open.
  pub shutdown-Leads :
      {K A : Type 0} ⦃outer : Label K⦄ {p : Phase} {q : J → Phase} {r : A → Phase} {m : Prog J J}
      {k : J → Prog K A}
      → ((j : J) → is_open (label.untrusted j) (q j) ≡ true)
      → Leads {J = J} may_fail p m q
      → ((j : J) → label.untrusted j ≡ true → Leads {J = K} may_fail Phase.secured (k j) r)
      → ((j : J) → Leads {J = K} may_fail Phase.trusted (k j) r)
      → Leads {J = K} may_fail p (at_shutdown m k) r
  shutdown-Leads {q = q} {r = r} {m = m} {k = k} stays h from_secured from_trusted = record {
    follows = λ env t at.
        Follows-labelled may_fail q r (m env t) k env stays (h.follows env t at) (λ j t' is_at.
          elim (open-cases (label.untrusted j) (phase t') is_at) [
            | inl (e, allowed) ↦ (from_secured j allowed).follows env t' e
            | inr e ↦ (from_trusted j).follows env t' e
          ]);
  }
