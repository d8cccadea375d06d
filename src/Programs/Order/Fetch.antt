-- ===== src/Programs/Order/Fetch.antt =====
-- The program that chooses its login method keeps the order.
use Prim.Native.String.{String}
use cloudssh.Base.{ℕ, Bool, Option, none, some, List, [], refl}
use cloudssh.Base.Int.{is_zero}
use cloudssh.Auth.{selected}
use cloudssh.Api.{
  Stream, Method, Input, bytes, failed, Env, userauth, sftp_init, sftp_open, sftp_close,
  sftp_shutdown, fault,
}
use cloudssh.Programs.Start.{arg, host_of}
use cloudssh.Programs.Sftp.{fxf_read}
use cloudssh.Programs.Fetch.{option_arg, try_method, choose_login, sftp_main}
use cloudssh.Programs.Order.{unit_label, Phase, is_early, Follows}
use cloudssh.Programs.Order.Rules.{
  Leads, bind-Leads, ◌⨾◌, call-Leads, keep, read-Leads, test, pure-Leads, goto-Leads, fault-Leads,
}
use cloudssh.Programs.Order.Steps.{require-Leads, start_library-Leads, connect_to-Leads}
use cloudssh.Programs.Order.Frame.{session_blocking, shutdown_once}
use cloudssh.Programs.Order.Loops.{sftp_data-Leads}

module _ {may_fail : Phase → Bool} where
  try_method-Leads :
      (o : Option Method) (username password : String)
      → Leads may_fail Phase.secured (try_method o username password) (λ z. Phase.trusted)
  unfolding try_method
  try_method-Leads none username password = goto-Leads tt refl
  try_method-Leads (some m) username password =
      bind-Leads (call-Leads (userauth m username password))
        (λ z. test (is_zero z) (pure-Leads z) (goto-Leads tt refl))

  pub choose_login-Leads :
      (option : Option String) (username password : String)
      → Leads may_fail Phase.secured (choose_login option username password) (λ z. Phase.trusted)
  unfolding choose_login
  choose_login-Leads option username password =
      bind-Leads (read-Leads Stream.auth_methods 0 (λ z. refl)) after
    where
      after :
          (i : Input)
          → Leads may_fail Phase.secured
              (elim i [
                | bytes text ↦ try_method (selected option text) username password
                | failed n ↦ fault
              ])
              (λ z. Phase.trusted)
      after (bytes text) = try_method-Leads (selected option text) username password
      after (failed n) = fault-Leads refl

-- Whatever the server answers, example/sftp.c keeps the order of calls: no session before the
-- socket is connected, no question for the login methods and no login before the handshake,
-- nothing else before a login with result 0. It returns 0 only after disconnect, free, close and
-- libssh2_exit in this order, and another code only before the handshake is done.
pub sftp_main-IsOrdered :
    (k : ℕ) (argv : List String) (env : Env)
    → Follows is_early (λ a. Phase.finished) (sftp_main k argv env [])
unfolding sftp_main
sftp_main-IsOrdered k argv env =
    let user = arg 2 "username" argv in
    let password = arg 3 "password" argv in
    let runs : Leads is_early Phase.fresh (sftp_main k argv) (λ a. Phase.finished) =
      start_library-Leads refl
      ⨾ connect_to-Leads (host_of argv) refl
      ⨾ session_blocking refl refl (
          shutdown_once (
            choose_login-Leads (option_arg 5 argv) user password
            ⨾ require-Leads sftp_init (λ z. refl)
            ⨾ require-Leads (sftp_open (arg 4 "/tmp/TEST" argv) fxf_read) (λ z. refl)
            ⨾ sftp_data-Leads k
            ⨾ keep sftp_close (λ z. refl)
            ⨾ keep sftp_shutdown (λ z. refl)
            ⨾ pure-Leads tt)) in
    runs.follows env [] refl
