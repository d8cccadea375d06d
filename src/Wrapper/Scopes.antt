-- ===== src/Wrapper/Scopes.antt =====
-- Rules for parts of the wrapper's constructors, and what holds at their ends.
use cloudssh.Base.{ℕ, ◌⊎◌, inl, inr, ◌==◌, Bool, true, false, some, ◌∷◌, ◌≡◌, if◌then◌else◌}
use cloudssh.Base.Int.{is_zero}
use cloudssh.Api.{
  Call, Run, ret, jump, leave, undefined, spin, Trace, called, Env, call, pure, goto, and_then,
  ◌>>=◌, ◌>>◌,
}
use cloudssh.Wrapper.{Counts, Cpp, local_variable, set_member}
use cloudssh.Wrapper.Held.{Handle, Stack, held, only_library, all_handles, NoList}

-- A part returns where `Q` holds, or throws where `X` holds, or has searched a list that is NULL.
pub data Ends {A : Type 0} (X : Counts → Trace → Type 0) (Q : A → Trace → Type 0)
    : Run Counts A → Type 0 where
  returned : {a : A} {t : Trace} → Q a t → Ends X Q (ret a t)
  threw : {s : Counts} {t : Trace} → X s t → Ends X Q (jump s t)
  searched : {t : Trace} → NoList t → Ends X Q (undefined t)

-- The counts are known, and `H` holds.
pub data At (s : Counts) (H : Trace → Type 0) : Counts → Trace → Type 0 where
  at : {t : Trace} → H t → At s H s t

abbrev pub Holding : Stack → Trace → Type 0
Holding hs t = held t ≡ some hs

pub by_counts :
    (P : Counts → Trace → Type 0) {s : Counts} {H : Trace → Type 0}
    → ((t : Trace) → H t → P s t)
    → (s' : Counts) (t : Trace) → At s H s' t
    → P s' t
by_counts P known s' t (at h) = known t h

pub by_either :
    {P Q R : Counts → Trace → Type 0}
    → ((s : Counts) (t : Trace) → Q s t → P s t)
    → ((s : Counts) (t : Trace) → R s t → P s t)
    → (s : Counts) (t : Trace) → Q s t ⊎ R s t
    → P s t
by_either left right s t (inl q) = left s t q
by_either left right s t (inr r) = right s t r

-- What holds when a share is destroyed.
abbrev pub Dropped :
    (Counts → Trace → Type 0)
    → (Counts → Trace → Type 0)
    → (Counts → Cpp Counts)
    → Env
    → Counts
    → Trace
    → Type 0
Dropped X Q drop env s t = Ends X Q (drop s env t)

abbrev pub OneHandle : Trace → Type 0
OneHandle = Holding only_library

abbrev pub TwoHandles : Trace → Type 0
TwoHandles = Holding (Handle.socket_handle ∷ only_library)

abbrev pub ThreeHandles : Trace → Type 0
ThreeHandles = Holding (Handle.session_handle ∷ Handle.socket_handle ∷ only_library)

abbrev pub FourHandles : Trace → Type 0
FourHandles = Holding all_handles

module _ {X : Counts → Trace → Type 0} (env : Env) where
  pub Ends-bind :
      {A B : Type 0} {Q : A → Trace → Type 0} {R : B → Trace → Type 0} {run : Run Counts A}
      (k : A → Cpp B)
      → Ends X Q run
      → ((a : A) (t : Trace) → Q a t → Ends X R (k a env t))
      → Ends X R (and_then run k env)
  Ends-bind k (returned q) next = next _ _ q
  Ends-bind k (threw x) next = threw x
  Ends-bind k (searched n) next = searched n

  -- A test that throws.
  pub unless_thrown :
      {A : Type 0} {R : A → Trace → Type 0} (s : Counts) (t : Trace) (b : Bool) (m : Cpp A)
      → X s t
      → Ends X R (m env t)
      → Ends X R (and_then ((if b then pure {J = Counts} s else goto s) env t) (λ u. m) env)
  unless_thrown s t true m x next = next
  unless_thrown s t false m x next = threw x

  -- Statements whose call must answer 0.
  pub zero_or_thrown :
      {A : Type 0} {R : A → Trace → Type 0} (c : Call) (s : Counts) (t : Trace) (m : Cpp A)
      → X s (called c (env.reply t c) ∷ t)
      → Ends X R (m env (called c (env.reply t c) ∷ t))
      → Ends X R ((call c >>= λ z. (if is_zero z then pure s else goto s) >> m) env t)
  zero_or_thrown c s t m x next =
      unless_thrown s (called c (env.reply t c) ∷ t) (is_zero (env.reply t c)) m x next

  throws :
      {A : Type 0} {Q : A → Trace → Type 0} {run : Run Counts Counts}
      → Ends X X run
      → Ends X Q (and_then run goto env)
  throws (returned x) = threw x
  throws (threw x) = threw x
  throws (searched n) = searched n

  pub local_variable-Ends :
      {Y Q R : Counts → Trace → Type 0} (drop : Counts → Cpp Counts) (m : Cpp Counts) (t : Trace)
      → Ends Y Q (m env t)
      → ((s : Counts) (u : Trace) → Q s u → Ends X R (drop s env u))
      → ((s : Counts) (u : Trace) → Y s u → Ends X X (drop s env u))
      → Ends X R (local_variable drop m env t)
  unfolding local_variable
  local_variable-Ends {Y} {Q} {R} drop m t h leaving unwinding = go (m env t) h
    where
      go :
          (run : Run Counts Counts)
          → Ends Y Q run
          → Ends X R (elim run [
            | ret s t' ↦ drop s env t'
            | jump s t' ↦ and_then (drop s env t') goto env
            | leave z t' ↦ leave z t'
            | undefined t' ↦ undefined t'
            | spin t' ↦ spin t'
          ])
      go (ret s u) (returned q) = leaving s u q
      go (jump s u) (threw y) = throws (unwinding s u y)
      go (undefined u) (searched n) = searched n
      go (leave z u) h = elim h [ ]
      go (spin u) h = elim h [ ]

  pub set_member-Ends :
      {Y R : Counts → Trace → Type 0} (drop : Counts → Cpp Counts) (count : Counts → ℕ)
      (m : Cpp Counts) (t : Trace)
      → Ends Y R (m env t)
      → ((s : Counts) (u : Trace)
          → Y s u
          → Ends X X ((if count s == 0 then pure s else drop s) env u))
      → Ends X R (set_member drop count m env t)
  unfolding set_member
  set_member-Ends {Y} {R} drop count m t h unwinding = go (m env t) h
    where
      go :
          (run : Run Counts Counts)
          → Ends Y R run
          → Ends X R (elim run [
            | ret s t' ↦ ret s t'
            | jump s t' ↦
                and_then ((if count s == 0 then pure {J = Counts} s else drop s) env t') goto env
            | leave z t' ↦ leave z t'
            | undefined t' ↦ undefined t'
            | spin t' ↦ spin t'
          ])
      go (ret s u) (returned q) = returned q
      go (jump s u) (threw y) = throws (unwinding s u y)
      go (undefined u) (searched n) = searched n
      go (leave z u) h = elim h [ ]
      go (spin u) h = elim h [ ]
