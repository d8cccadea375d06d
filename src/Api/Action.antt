-- ===== src/Api/Action.antt =====
-- Programs as actions. The environment answers every call as it likes, knowing all calls before
-- it; the trace keeps each call with its answer, the latest first.
use cloudssh.Base.{ℕ, ◌≤◌, ◌≡◌, List, ◌∷◌, if◌then◌else◌, leb, le→leb, length, drop}
use cloudssh.Base.Int.{ℤ, pos_part}
use cloudssh.Api.Calls.{Stream, Input, Call}

pub data Event : Type 0 where
  called : Call → ℤ → Event
  wrote : Stream → List ℕ → ℤ → Event
  took : Stream → ℕ → Input → Event

abbrev pub Trace : Type 0
Trace = List Event

-- libssh2, the kernel, the C library, the server and the files.
pub record Env : Type 0 where
  pub reply : Trace → Call → ℤ
  pub accept : Trace → Stream → List ℕ → ℤ
  pub input : Trace → Stream → ℕ → Input

-- How a part of a program ends: it goes on with a value, jumps to the label `shutdown` with the
-- variables that are read there, leaves the program with an exit code, does what C leaves
-- undefined, or is still running when its rounds are used up.
pub data Run (J A : Type 0) : Type 0 where
  ret : A → Trace → Run J A
  jump : J → Trace → Run J A
  leave : ℤ → Trace → Run J A
  undefined : Trace → Run J A
  spin : Trace → Run J A

abbrev pub Prog : Type 0 → Type 0 → Type 0
Prog J A = Env → Trace → Run J A

abbrev pub and_then : {J A B : Type 0} → Run J A → (A → Prog J B) → Env → Run J B
and_then (ret a t) k env = k a env t
and_then (jump j t) k env = jump j t
and_then (leave z t) k env = leave z t
and_then (undefined t) k env = undefined t
and_then (spin t) k env = spin t

infixl 5 ◌>>=◌ ◌>>◌
abbrev pub ◌>>=◌ : {J A B : Type 0} → Prog J A → (A → Prog J B) → Prog J B
◌>>=◌ m k env t = and_then (m env t) k env

abbrev pub ◌>>◌ : {J A B : Type 0} → Prog J A → Prog J B → Prog J B
◌>>◌ m k env t = and_then (m env t) (λ _. k) env

module _ {J : Type 0} where
  abbrev pub pure : {A : Type 0} → A → Prog J A
  pure a env t = ret a t

  abbrev pub goto : {A : Type 0} → J → Prog J A
  goto j env t = jump j t

  abbrev pub exit : {A : Type 0} → ℤ → Prog J A
  exit z env t = leave z t

  abbrev pub fault : {A : Type 0} → Prog J A
  fault env t = undefined t

  abbrev pub out_of_rounds : {A : Type 0} → Prog J A
  out_of_rounds env t = spin t

  abbrev pub call : Call → Prog J ℤ
  call c env t = let z = env.reply t c in ret z (called c z ∷ t)

  abbrev pub write : Stream → List ℕ → Prog J ℤ
  write s bs env t = let z = env.accept t s bs in ret z (wrote s bs z ∷ t)

  abbrev pub read : Stream → ℕ → Prog J Input
  read s n env t = let i = env.input t s n in ret i (took s n i ∷ t)

  -- `ptr += rc; nread -= rc`: what is left of a buffer. A count beyond the buffer would wrap
  -- `nread` round and move `ptr` past its end.
  unfoldable pub advance : ℤ → List ℕ → Prog J (List ℕ)
  advance z buf = if leb (pos_part z) (length buf) then pure (drop (pos_part z) buf) else fault

  pub advance_within :
      (z : ℤ) (buf : List ℕ) (env : Env) (t : Trace)
      → pos_part z ≤ length buf
      → advance z buf env t ≡ ret (drop (pos_part z) buf) t
  unfolding advance
  advance_within z buf env t h = rw (le→leb _ _ h)

-- The label `shutdown`: it is reached by the end of the body and by every jump.
abbrev pub labelled : {J K A : Type 0} → Run J J → (J → Prog K A) → Env → Run K A
labelled (ret j t) k env = k j env t
labelled (jump j t) k env = k j env t
labelled (leave z t) k env = leave z t
labelled (undefined t) k env = undefined t
labelled (spin t) k env = spin t

abbrev pub at_shutdown : {J K A : Type 0} → Prog J J → (J → Prog K A) → Prog K A
at_shutdown m k env t = labelled (m env t) k env

-- Inside, no variable is read at the label; outside, the jump carries the variables as they are.
abbrev pub with_jump : {J A : Type 0} → J → Run (Unit {0}) A → Run J A
with_jump j (ret a t) = ret a t
with_jump j (jump u t) = jump j t
with_jump j (leave z t) = leave z t
with_jump j (undefined t) = undefined t
with_jump j (spin t) = spin t

abbrev pub jumping_with : {J A : Type 0} → J → Prog (Unit {0}) A → Prog J A
jumping_with j m env t = with_jump j (m env t)

abbrev pub trace_of : {J A : Type 0} → Run J A → Trace
trace_of (ret a t) = t
trace_of (jump j t) = t
trace_of (leave z t) = t
trace_of (undefined t) = t
trace_of (spin t) = t
