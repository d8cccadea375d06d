-- ===== src/Programs/Agent.antt =====
-- example/ssh2_agent.c: a login shell where an agent holds the keys.
pub mod Identities
use Prim.Native.String.{String}
use cloudssh.Base.{ℕ, zero, suc, List, if◌then◌else◌}
use cloudssh.Base.Int.{ℤ, pos, is_zero, is_neg, is_minus_one}
use cloudssh.Auth.{offers}
use cloudssh.Api.{
  Stream, Sock, bytes, failed, Prog, pure, goto, exit, fault, out_of_rounds, call, read,
  jumping_with, at_shutdown, ◌>>=◌, ◌>>◌, lib_exit, socket, close, connect, session_init,
  session_handshake, hostkey_hash, session_disconnect, session_free, channel_open, channel_setenv,
  channel_free, agent_init, agent_connect, agent_list_identities, agent_get_identity,
  agent_userauth, agent_disconnect, agent_free,
}
use cloudssh.X11.Exchange.{is_one}
use cloudssh.Programs.Start.{Main, arg, host_of, start_library}
use cloudssh.Programs.Shell.{request_shell}

-- The variables at the label `shutdown`.
pub record Left : Type 0 where
  pub sock : ℤ
  pub session : ℤ
  pub agent : ℤ
  pub rc : ℤ

abbrev pub left : ℤ → ℤ → ℤ → ℤ → Left
left sock session agent rc = record { sock = sock; session = session; agent = agent; rc = rc }

-- if (c) { rc = 1; goto shutdown; }
unfoldable pub agent_step : ℤ → ℤ → ℤ → Prog Left ℤ
agent_step sock session agent = do
  connected ← call agent_connect
  if is_zero connected then pure connected else goto (left sock session agent (pos 1))
  listed ← call agent_list_identities
  if is_zero listed then pure listed else goto (left sock session agent (pos 1))

-- The loop over the identities of the agent: the result is `rc`, and a jump sets it to 1.
unfoldable pub try_identities : String → ℕ → Main ℤ
try_identities username zero = out_of_rounds
try_identities username (suc k) = do
  rc ← call agent_get_identity
  if is_one rc then pure rc else if is_neg rc then goto tt else (do
    refused ← call (agent_userauth username)
    if is_zero refused then pure rc else try_identities username k)

unfoldable pub agent_shell : Main ℤ
unfolding request_shell
agent_shell = do
  channel ← call channel_open
  if is_zero channel then goto tt else pure channel
  call (channel_setenv "FOO" "bar")
  request_shell
  call channel_free

-- From the list of login methods to the end of the shell.
unfoldable pub agent_session : ℕ → String → ℤ → ℤ → Prog Left Left
unfolding agent_step try_identities agent_shell
agent_session k username sock session = do
  userauthlist ← read Stream.auth_methods 0
  elim userauthlist [
    | failed n ↦ fault
    | bytes text ↦
        if offers "publickey" text then pure (pos 0) else goto (left sock session (pos 0) (pos 0))
  ]
  agent ← call agent_init
  if is_zero agent then goto (left sock session (pos 0) (pos 1)) else pure agent
  agent_step sock session agent
  rc ← jumping_with (left sock session agent (pos 1)) (try_identities username k)
  if is_zero rc then pure rc else goto (left sock session agent rc)
  jumping_with (left sock session agent rc) agent_shell
  pure (left sock session agent rc)

-- The calls behind the label, and `return rc`.
unfoldable pub agent_end : Left → Main ℤ
agent_end v = do
  call agent_disconnect
  call agent_free
  if is_zero v.session then pure (pos 0) else call session_disconnect >> call session_free
  if is_minus_one v.sock then pure (pos 0) else call (close Sock.ssh_sock)
  call lib_exit
  exit v.rc

-- A handshake that fails returns 1 at once. No failure to connect sets `rc`, which is 0 since the
-- start of libssh2.
unfoldable pub ssh2_agent_main : ℕ → List String → Main ℤ
unfolding agent_session agent_end
ssh2_agent_main k argv = do
  start_library
  at_shutdown
      (do
        sock ← call (socket Sock.ssh_sock)
        if is_minus_one sock then goto (left sock (pos 0) (pos 0) (pos 1)) else pure sock
        connected ← call (connect Sock.ssh_sock (host_of argv) 22)
        if is_zero connected then pure connected else goto (left sock (pos 0) (pos 0) (pos 0))
        session ← call session_init
        if is_zero session then fault else pure session
        shaken ← call session_handshake
        if is_zero shaken then pure shaken else exit (pos 1)
        fingerprint ← call hostkey_hash
        if is_zero fingerprint then fault else pure fingerprint
        agent_session k (arg 2 "username" argv) sock session)
      agent_end
