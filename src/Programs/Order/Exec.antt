-- ===== src/Programs/Order/Exec.antt =====
-- The program that runs a command keeps the order.
use Prim.Native.String.{String}
use cloudssh.Base.{Bool, true, ◌≡◌, ℕ, zero, suc, false, not, is_empty, List, [], refl}
use cloudssh.Base.Int.{pos, is_zero, is_eagain}
use cloudssh.Base.Text.{codes}
use cloudssh.Api.{
  Host, Env, set_blocking, knownhost_init, knownhost_readfile, knownhost_writefile, session_hostkey,
  knownhost_check, knownhost_free, channel_open, last_errno, channel_exec, channel_close,
  channel_exit_status, channel_exit_signal, channel_free,
}
use cloudssh.Programs.Start.{arg, retry}
use cloudssh.Programs.Exec.{check_hostkey, open_channel, run_command, close_channel, ssh2_exec_main}
use cloudssh.Programs.Order.{unit_label, Phase, is_live, Follows}
use cloudssh.Programs.Order.Rules.{
  Leads, bind-Leads, ◌⨾◌, keep, either, pure-Leads, spin-Leads, exit-Leads,
}
use cloudssh.Programs.Order.Steps.{
  waitsocket-Leads, retry_wait-Leads, login-Leads, retry_login, start_library-Leads,
  connect_to-Leads, new_session-Leads, shake_until_done,
}
use cloudssh.Programs.Order.Frame.{shutdown_once}
use cloudssh.Programs.Order.Loops.{exec_loop-Leads, Stays}

module _ {may_fail : Phase → Bool} where
  pub check_hostkey-Leads :
      may_fail Phase.secured ≡ true
      → Leads may_fail Phase.secured check_hostkey (λ z. Phase.secured)
  unfolding check_hostkey
  check_hostkey-Leads early = bind-Leads (keep knownhost_init (λ z. refl)) (λ nh.
      either (is_zero nh) (exit-Leads (pos 2) early) (pure-Leads nh)
      ⨾ keep knownhost_readfile (λ z. refl)
      ⨾ keep knownhost_writefile (λ z. refl)
      ⨾ bind-Leads (keep session_hostkey (λ z. refl)) (λ key.
        either (is_zero key) (exit-Leads (pos 3) early) (keep knownhost_check (λ z. refl))
        ⨾ keep knownhost_free (λ z. refl)))

  open_channel-Leads : may_fail Phase.trusted ≡ true → (k : ℕ) → Stays may_fail (open_channel k)
  unfolding open_channel
  open_channel-Leads late zero = spin-Leads refl
  open_channel-Leads late (suc k) = bind-Leads (keep channel_open (λ z. refl)) (λ z.
      either (is_zero z)
        (bind-Leads (keep last_errno (λ z. refl)) (λ e.
          either (is_eagain e) (waitsocket-Leads ⨾ open_channel-Leads late k)
            (exit-Leads (pos 1) late)))
        (pure-Leads z))

  pub run_command-Leads :
      may_fail Phase.trusted ≡ true
      → (k : ℕ) (commandline : String) → Stays may_fail (run_command k commandline)
  unfolding run_command
  run_command-Leads late k commandline =
      open_channel-Leads late k
      ⨾ bind-Leads (retry_wait-Leads (channel_exec commandline) k (λ z. refl))
          (λ rc. either (is_zero rc) (pure-Leads rc) (exit-Leads (pos 1) late))

close_channel-Leads : (k : ℕ) → Stays is_live (close_channel k)
unfolding close_channel
close_channel-Leads k = bind-Leads (retry_wait-Leads channel_close k (λ z. refl)) (λ rc.
    either (is_zero rc)
      (keep channel_exit_status (λ z. refl) ⨾ keep channel_exit_signal (λ z. refl))
      (pure-Leads {q = λ z. Phase.trusted} rc)
    ⨾ keep channel_free (λ z. refl))

-- Whatever the server answers, example/ssh2_exec.c keeps the order of calls: no session before the
-- socket is connected, no login before the handshake, no command before a login with result 0. It
-- returns 0 only after disconnect, free, close and libssh2_exit in this order, and another code
-- only before the disconnect.
pub ssh2_exec_main-IsOrdered :
    (k : ℕ) (argv : List String) (env : Env)
    → Follows is_live (λ a. Phase.finished) (ssh2_exec_main k argv env [])
unfolding ssh2_exec_main
ssh2_exec_main-IsOrdered k argv env =
    let password = arg 3 "password" argv in
    let user = arg 2 "user" argv in
    let runs : Leads is_live Phase.fresh (ssh2_exec_main k argv) (λ a. Phase.finished) =
      start_library-Leads refl
      ⨾ connect_to-Leads (Host.address (arg 1 "127.0.0.1" argv)) refl
      ⨾ new_session-Leads refl
      ⨾ keep (set_blocking false) (λ z. refl)
      ⨾ shake_until_done k refl
      ⨾ check_hostkey-Leads refl
      ⨾ shutdown_once (
          login-Leads (λ c. retry c k) (not (is_empty (codes password))) user password
            (retry_login k user password)
          ⨾ run_command-Leads refl k (arg 4 "uptime" argv)
          ⨾ exec_loop-Leads k
          ⨾ close_channel-Leads k
          ⨾ pure-Leads tt) in
    runs.follows env [] refl
