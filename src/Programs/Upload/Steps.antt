-- ===== src/Programs/Upload/Steps.antt =====
-- The shared parts of the programs where nothing fails.
use Prim.Native.String.{String}
use cloudssh.Base.{ℕ, suc, List, Bool, true, false, ◌≡◌, refl, if◌then◌else◌, arith}
use cloudssh.Base.Int.{ℤ, pos, minus_one, is_zero, is_neg, is_eagain}
use cloudssh.Api.{
  Stream, Sock, Host, Method, Call, Env, Trace, Exits, lib_init, lib_exit, fopen, socket, connect,
  session_init, session_handshake, hostkey_hash, session_free, close, userauth, leaves, exit, goto,
  pure, call, fault, last_errno, received, sent, ◌>>=◌, ◌>>◌,
}
use cloudssh.Programs.Start.{
  Main, retry, obtain, require, start_library, open_local, connect_to, new_session, secure,
  show_fingerprint, login, close_session, return_zero,
}
use cloudssh.Programs.Upload.{IsWilling, Untouched, HasSent, leaving_sent}
use cloudssh.Programs.Upload.Rules.{
  Serves, IsQuiet, bind-Serves, ◌⨾◌, pure-Serves, call-Serves, passes, fails,
}

pub Untouched-IsQuiet : (s : Stream) → IsQuiet (Untouched s)
unfolding received sent
Untouched-IsQuiet s = record { kept = λ c z t p. p }

pub HasSent-IsQuiet : (s : Stream) (content : List ℕ) → IsQuiet (HasSent s content)
unfolding sent
HasSent-IsQuiet s content = record { kept = λ c z t p. p }

zero_not_eagain : (z : ℤ) → is_zero z ≡ true → is_eagain z ≡ false
zero_not_eagain z h = ground arith

module _ {env : Env} {E : Exits (Unit {0})} {P : Trace → Type 0} (w : IsWilling env)
    (quiet : IsQuiet P) where
  pub retry-Serves :
      (c : Call) (k : ℕ)
      → ((t : Trace) → is_eagain (env.reply t c) ≡ false)
      → Serves env E P (retry c (suc k)) P
  unfolding retry
  retry-Serves c k known = fails quiet c is_eagain (λ z. retry c k) known (λ z. pure-Serves z)

  pub start_library-Serves : Serves env E P start_library P
  unfolding start_library
  start_library-Serves =
      passes quiet lib_init is_zero (λ z. exit (pos 1)) w.starts (λ z. pure-Serves z)

  pub open_local-Serves : (name : String) → Serves env E P (open_local name) P
  unfolding open_local
  open_local-Serves name =
      fails quiet (fopen Stream.local_file name) is_zero (λ z. exit minus_one)
        (λ t. w.has_file t name) (λ z. pure-Serves z)

  pub connect_to-Serves : (host : Host) → Serves env E P (connect_to host) P
  unfolding connect_to
  connect_to-Serves host = bind-Serves (call-Serves quiet (socket Sock.ssh_sock)) (λ s.
      passes quiet (connect Sock.ssh_sock host 22) is_zero (λ z. exit minus_one)
        (λ t. w.connects t host) (λ z. pure-Serves s))

  pub new_session-Serves : Serves env E P new_session P
  unfolding new_session
  new_session-Serves =
      fails quiet session_init is_zero (λ z. exit minus_one) w.has_session (λ z. pure-Serves z)

  pub secure_at_once : Serves env E P (secure (call session_handshake)) P
  unfolding secure
  secure_at_once =
      passes quiet session_handshake is_zero (λ z. exit minus_one) w.shakes (λ z. pure-Serves z)

  pub show_fingerprint-Serves : Serves env E P show_fingerprint P
  unfolding show_fingerprint
  show_fingerprint-Serves =
      fails quiet hostkey_hash is_zero (λ z. fault) w.has_key (λ z. pure-Serves z)

  pub login_at_once : (b : Bool) (u pw : String) → Serves env E P (login call b u pw) P
  unfolding login
  login_at_once b u pw =
      passes quiet (userauth (if b then Method.password else Method.publickey) u pw) is_zero
        (λ z. goto tt) (λ t. w.trusts t (if b then Method.password else Method.publickey) u pw)
        (λ z. pure-Serves z)

  pub require-Serves :
      (c : Call) → ((t : Trace) → is_zero (env.reply t c) ≡ false) → Serves env E P (require c) P
  unfolding require
  require-Serves c known = fails quiet c is_zero (λ z. goto tt) known (λ z. pure-Serves z)

  pub unless_neg :
      (z : ℤ) → is_neg z ≡ false → Serves env E P (if is_neg z then goto tt else pure z) P
  unless_neg z e = rw e (pure-Serves z)

  pub close_session-Serves :
      (disconnect : Main ℤ)
      → Serves env E P disconnect P
      → Serves env E P (close_session disconnect) P
  unfolding close_session
  close_session-Serves disconnect h =
      (h ⨾ call-Serves quiet session_free) ⨾ call-Serves quiet (close Sock.ssh_sock)

  -- The same calls in a retry loop, which ends at once.
  pub secure_retried : (k : ℕ) → Serves env E P (secure (retry session_handshake (suc k))) P
  unfolding secure retry
  secure_retried k = record {
    runs = λ t p.
        rw (zero_not_eagain (env.reply t session_handshake) (w.shakes t), w.shakes t)
          ((pure-Serves {env = env} {E = E} {P = P} (env.reply t session_handshake)).runs _
            (quiet.kept session_handshake (env.reply t session_handshake) t p));
  }

  pub login_retried :
      (k : ℕ) (b : Bool) (u pw : String) → Serves env E P (login (λ c. retry c (suc k)) b u pw) P
  unfolding login retry
  login_retried k b u pw =
      let c : Call = userauth (if b then Method.password else Method.publickey) u pw in
      let trusted : (t : Trace) → is_zero (env.reply t c) ≡ true =
        λ t. w.trusts t (if b then Method.password else Method.publickey) u pw in
      record {
        runs = λ t p.
            rw (zero_not_eagain (env.reply t c) (trusted t), trusted t)
              ((pure-Serves {env = env} {E = E} {P = P} (env.reply t c)).runs _
                (quiet.kept c (env.reply t c) t p));
      }

  pub obtain-Serves :
      (blocked : Main ℤ) (c : Call) (k : ℕ)
      → ((t : Trace) → is_zero (env.reply t c) ≡ false)
      → Serves env E P (obtain blocked c (suc k)) P
  unfolding obtain
  obtain-Serves blocked c k known =
      fails quiet c is_zero
        (λ z. call last_errno >>= λ err.
          if is_eagain err then blocked >> obtain blocked c k else goto tt)
        known (λ z. pure-Serves z)

exit-Serves :
    {env : Env} {A : Type 0} (s : Stream) (content : List ℕ)
    → Serves {A = A} env (leaving_sent s content) (HasSent s content) (exit (pos 0)) (λ t. ⊥)
exit-Serves s content = record { runs = λ t p. leaves (refl, p) }

pub return_zero-Serves :
    {env : Env} (s : Stream) (content : List ℕ)
    → Serves env (leaving_sent s content) (HasSent s content) return_zero (λ t. ⊥)
unfolding return_zero
return_zero-Serves s content =
    call-Serves (HasSent-IsQuiet s content) lib_exit ⨾ exit-Serves {A = ℤ} s content
