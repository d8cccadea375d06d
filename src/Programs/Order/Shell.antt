-- ===== src/Programs/Order/Shell.antt =====
-- The login shell keeps the order.
use Prim.Native.String.{String}
use cloudssh.Base.{Bool, List, [], refl}
use cloudssh.Base.Int.{is_zero}
use cloudssh.Api.{
  Env, session_init, channel_open, channel_setenv, channel_request_pty, channel_shell, channel_free,
}
use cloudssh.Programs.Start.{arg, host_of}
use cloudssh.Programs.Fetch.{option_arg}
use cloudssh.Programs.Shell.{untested_session, request_shell, ssh2_main}
use cloudssh.Programs.Order.{unit_label, Phase, is_early, Follows}
use cloudssh.Programs.Order.Rules.{
  Leads, bind-Leads, ◌⨾◌, call-Leads, keep, test, either, pure-Leads, goto-Leads, fault-Leads,
}
use cloudssh.Programs.Order.Steps.{
  require-Leads, start_library-Leads, connect_to-Leads, shake_once, show_fingerprint-Leads,
}
use cloudssh.Programs.Order.Frame.{shutdown_once}
use cloudssh.Programs.Order.Loops.{Stays}
use cloudssh.Programs.Order.Fetch.{choose_login-Leads}

module _ {may_fail : Phase → Bool} where
  untested_session-Leads : Leads may_fail Phase.linked untested_session (λ z. Phase.opened)
  unfolding untested_session
  untested_session-Leads =
      bind-Leads (call-Leads session_init) (λ z. test (is_zero z) (fault-Leads refl) (pure-Leads z))

  request_shell-Leads : Stays may_fail request_shell
  unfolding request_shell
  request_shell-Leads = bind-Leads (keep (channel_request_pty "vanilla") (λ z. refl)) (λ pty.
      either (is_zero pty)
        (bind-Leads (keep channel_shell (λ z. refl)) (λ shell.
          either (is_zero shell) (pure-Leads {q = λ z. Phase.trusted} shell) (goto-Leads tt refl)))
        (pure-Leads pty))

-- Whatever the server answers, example/ssh2.c keeps the order of calls.
pub ssh2_main-IsOrdered :
    (argv : List String) (env : Env)
    → Follows is_early (λ a. Phase.finished) (ssh2_main argv env [])
unfolding ssh2_main
ssh2_main-IsOrdered argv env =
    let runs : Leads is_early Phase.fresh (ssh2_main argv) (λ a. Phase.finished) =
      start_library-Leads refl
      ⨾ connect_to-Leads (host_of argv) refl
      ⨾ untested_session-Leads
      ⨾ shake_once refl
      ⨾ show_fingerprint-Leads
      ⨾ shutdown_once (
          choose_login-Leads (option_arg 4 argv) (arg 2 "username" argv) (arg 3 "password" argv)
          ⨾ require-Leads channel_open (λ z. refl)
          ⨾ keep (channel_setenv "FOO" "bar") (λ z. refl)
          ⨾ request_shell-Leads
          ⨾ keep channel_free (λ z. refl)
          ⨾ pure-Leads tt) in
    runs.follows env [] refl
