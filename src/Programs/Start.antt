-- ===== src/Programs/Start.antt =====
-- What the programs share: arguments, the start of libssh2 and of the session, the login, and the
-- label `shutdown`. Each program has its own copy of this code.
use Prim.Native.String.{String}
use cloudssh.Base.{ℕ, zero, suc, Bool, List, [], ◌∷◌, if◌then◌else◌}
use cloudssh.Base.Int.{ℤ, pos, minus_one, is_zero, is_eagain}
use cloudssh.Api.{
  Stream, Sock, Host, Method, Call, lib_init, lib_exit, socket, close, connect, fopen, session_init,
  hostkey_hash, session_free, last_errno, userauth, Prog, pure, goto, exit, fault, out_of_rounds,
  call, ◌>>=◌, ◌>>◌, waitsocket,
}

-- argv[n] if there are so many arguments; `argv` starts with argv[1].
unfoldable pub arg : ℕ → String → List String → String
arg n default [] = default
arg zero default (a ∷ argv) = default
arg (suc zero) default (a ∷ argv) = a
arg (suc (suc n)) default (a ∷ argv) = arg (suc n) default argv

unfoldable pub host_of : List String → Host
host_of [] = Host.loopback
host_of (a ∷ argv) = Host.address a

-- The value of a jump to a label where no variable is read.
abbrev pub Main : Type 0 → Type 0
Main = Prog (Unit {0})

module _ where
  -- while ((rc = c) == LIBSSH2_ERROR_EAGAIN);
  unfoldable pub retry : Call → ℕ → Main ℤ
  retry c zero = out_of_rounds
  retry c (suc k) = do rc ← call c; if is_eagain rc then retry c k else pure rc

  -- The same with `waitsocket(sock, session)` as the body.
  unfoldable pub retry_wait : Call → ℕ → Main ℤ
  retry_wait c zero = out_of_rounds
  retry_wait c (suc k) = do
    rc ← call c
    if is_eagain rc then waitsocket >> retry_wait c k else pure rc

  -- do { p = c; if (!p && errno != EAGAIN) goto shutdown; } while (!p);
  unfoldable pub obtain : Main ℤ → Call → ℕ → Main ℤ
  obtain blocked c zero = out_of_rounds
  obtain blocked c (suc k) = do
    p ← call c
    if is_zero p
        then (do
          err ← call last_errno
          if is_eagain err then blocked >> obtain blocked c k else goto tt)
        else pure p

  -- p = c; if (!p) goto shutdown;
  unfoldable pub require : Call → Main ℤ
  require c = do p ← call c; if is_zero p then goto tt else pure p

  unfoldable pub start_library : Main ℤ
  start_library = do rc ← call lib_init; if is_zero rc then pure rc else exit (pos 1)

  unfoldable pub open_local : String → Main ℤ
  open_local name = do
    local ← call (fopen Stream.local_file name)
    if is_zero local then exit minus_one else pure local

  unfoldable pub connect_to : Host → Main ℤ
  connect_to host = do
    sock ← call (socket Sock.ssh_sock)
    rc ← call (connect Sock.ssh_sock host 22)
    if is_zero rc then pure sock else exit minus_one

  unfoldable pub new_session : Main ℤ
  new_session = do
    session ← call session_init
    if is_zero session then exit minus_one else pure session

  -- `shake` is the call of libssh2_session_handshake, in a loop or not.
  unfoldable pub secure : Main ℤ → Main ℤ
  secure shake = do rc ← shake; if is_zero rc then pure rc else exit minus_one

  -- The fingerprint is printed without a test for NULL.
  unfoldable pub show_fingerprint : Main ℤ
  show_fingerprint = do
    fingerprint ← call hostkey_hash
    if is_zero fingerprint then fault else pure fingerprint

  -- `attempt` is the call for one method, in a loop or not; `auth_pw` chooses it.
  unfoldable pub login : (Call → Main ℤ) → Bool → String → String → Main ℤ
  login attempt auth_pw username password = do
    rc ←
        attempt (userauth (if auth_pw then Method.password else Method.publickey) username password)
    if is_zero rc then pure rc else goto tt

  -- The label `shutdown`, up to the closing of the socket, and `return 0`.
  unfoldable pub close_session : Main ℤ → Main ℤ
  close_session disconnect = disconnect >> call session_free >> call (close Sock.ssh_sock)

  unfoldable pub return_zero : Main ℤ
  return_zero = call lib_exit >> exit (pos 0)
