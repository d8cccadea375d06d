-- ===== src/Programs/X11Main/Terminal.antt =====
-- The terminal of example/x11.c at the end of the program.
use Prim.Native.String.{String}
use cloudssh.Base.{ℕ, false, ◌≡◌}
use cloudssh.Base.Int.{ℤ, pos}
use cloudssh.Api.{
  Env, Run, ret, leave, undefined, spin, Trace, and_then, call, exit, ◌>>=◌, ◌>>◌, lib_exit,
  channel_free,
}
use cloudssh.Programs.Start.{Main}
use cloudssh.Programs.X11Main.{normal_mode, x11_loop, no_clients}
use cloudssh.Programs.X11Main.Clients.{left_raw}

-- A run that goes on, or that ends the program, with the terminal not left in raw mode; it may
-- also stop being defined, or run on.
pub data Restored {A : Type 0} : Run (Unit {0}) A → Type 0 where
  goes_on : {a : A} {t : Trace} → left_raw t ≡ false → Restored (ret a t)
  ended : {z : ℤ} {t : Trace} → left_raw t ≡ false → Restored (leave z t)
  undefined_at : {t : Trace} → Restored (undefined t)
  runs_on : {t : Trace} → Restored (spin t)

record IsRestoring {A : Type 0} (m : Main A) : Type 0 where
  pub restores : (env : Env) (t : Trace) → left_raw t ≡ false → Restored (m env t)

Restored-bind :
    {A B : Type 0} {run : Run (Unit {0}) A} (k : A → Main B) (env : Env)
    → Restored run
    → ((a : A) → IsRestoring (k a))
    → Restored (and_then run k env)
Restored-bind k env (goes_on e) next = (next _).restores env _ e
Restored-bind k env (ended e) next = ended e
Restored-bind k env undefined_at next = undefined_at
Restored-bind k env runs_on next = runs_on

bind-IsRestoring :
    {A B : Type 0} {m : Main A} {k : A → Main B}
    → IsRestoring m
    → ((a : A) → IsRestoring (k a))
    → IsRestoring (m >>= k)
bind-IsRestoring {k = k} h next = record {
  restores = λ env t e. Restored-bind k env (h.restores env t e) next;
}

infixr 4 ◌⨾◌
◌⨾◌ :
    {A B : Type 0} {m : Main A} {n : Main B} → IsRestoring m → IsRestoring n → IsRestoring (m >> n)
◌⨾◌ h next = bind-IsRestoring h (λ a. next)

-- What follows the switch to raw mode. It restores the terminal in whichever mode it is.
abbrev after_raw : ℕ → Main ℤ
after_raw k = do
  x11_loop k no_clients (pos 0)
  call channel_free
  normal_mode
  call lib_exit
  exit (pos 0)
