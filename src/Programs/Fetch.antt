-- ===== src/Programs/Fetch.antt =====
-- The program that chooses its login method: example/sftp.c.
use Prim.Native.String.{String}
use cloudssh.Base.{ℕ, suc, zero, true, Option, none, some, List, [], ◌∷◌, if◌then◌else◌}
use cloudssh.Base.Int.{ℤ, is_zero}
use cloudssh.Auth.{selected}
use cloudssh.Api.{
  Stream, Method, bytes, failed, pure, goto, fault, call, read, set_blocking, session_handshake,
  session_disconnect, userauth, sftp_init, sftp_open, sftp_close, sftp_shutdown, at_shutdown, ◌>>=◌,
  ◌>>◌,
}
use cloudssh.Download.{sftp_data}
use cloudssh.Programs.Start.{
  Main, arg, host_of, require, start_library, connect_to, new_session, secure, show_fingerprint,
  close_session, return_zero,
}
use cloudssh.Programs.Sftp.{fxf_read}

-- argv[n], if it is there; `argv` starts with argv[1].
unfoldable pub option_arg : ℕ → List String → Option String
option_arg n [] = none
option_arg zero (a ∷ argv) = none
option_arg (suc zero) (a ∷ argv) = some a
option_arg (suc (suc n)) (a ∷ argv) = option_arg (suc n) argv

unfoldable pub try_method : Option Method → String → String → Main ℤ
try_method none username password = goto tt
try_method (some m) username password = do
  rc ← call (userauth m username password)
  if is_zero rc then pure rc else goto tt

-- The list of methods is searched without a test for NULL.
unfoldable pub choose_login : Option String → String → String → Main ℤ
choose_login option username password = do
  userauthlist ← read Stream.auth_methods 0
  elim userauthlist [
    | bytes text ↦ try_method (selected option text) username password
    | failed n ↦ fault
  ]

unfoldable pub sftp_main : ℕ → List String → Main ℤ
sftp_main k argv = do
  start_library
  connect_to (host_of argv)
  new_session
  call (set_blocking true)
  secure (call session_handshake)
  show_fingerprint
  at_shutdown
      (do
        choose_login (option_arg 5 argv) (arg 2 "username" argv) (arg 3 "password" argv)
        require sftp_init
        require (sftp_open (arg 4 "/tmp/TEST" argv) fxf_read)
        sftp_data k
        call sftp_close
        call sftp_shutdown
        pure tt)
      (λ u. close_session (call session_disconnect) >> return_zero)
