-- ===== src/Programs/Agent/Identities.antt =====
-- The identities that ssh2_agent.c tries.
use Prim.Native.String.{String}
use cloudssh.Base.{ℕ, suc, true, [], ◌∷◌, ◌≡◌, if◌then◌else◌, ltb}
use cloudssh.Base.Int.{ℤ, pos, is_zero}
use cloudssh.Api.{Env, Run, ret, Trace, called, wrote, took, agent_get_identity, agent_userauth}

-- The identities that the agent gave, and the logins that the server refused.
abbrev pub given : Trace → ℕ
given [] = 0
given (called agent_get_identity z ∷ t) = if is_zero z then suc (given t) else given t
given (called c z ∷ t) = given t
given (wrote s bs z ∷ t) = given t
given (took s n i ∷ t) = given t

abbrev pub refusals : Trace → ℕ
refusals [] = 0
refusals (called (agent_userauth user) z ∷ t) = if is_zero z then refusals t else suc (refusals t)
refusals (called c z ∷ t) = refusals t
refusals (wrote s bs z ∷ t) = refusals t
refusals (took s n i ∷ t) = refusals t

-- An agent that gives its `n` identities one by one, and 1 behind the last.
pub record HoldsKeys (env : Env) (n : ℕ) : Type 0 where
  pub answers :
      (t : Trace) → env.reply t agent_get_identity ≡ (if ltb (given t) n then pos 0 else pos 1)

-- The server accepted an identity after it refused all that were given before it, or it refused all.
pub data Tried {J : Type 0} (user : String) (n : ℕ) : Run J ℤ → Type 0 where
  accepted :
      {z : ℤ} {t : Trace}
      → is_zero z ≡ true
      → given t ≡ suc (refusals t)
      → Tried user n (ret (pos 0) (called (agent_userauth user) z ∷ t))
  all_refused : {t : Trace} → given t ≡ n → refusals t ≡ n → Tried user n (ret (pos 1) t)
