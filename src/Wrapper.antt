-- ===== src/Wrapper.antt =====
-- The C++ wrapper, src/libssh2/*.hpp: classes that own the handles of libssh2 and share one
-- another by `std::shared_ptr`. Counts are the use counts of the shared objects; an exception
-- carries them, and the destructors that it runs on its way are written out by `local_variable`.
pub mod Held
pub mod Scopes
pub mod Ownership
pub mod Agreement
pub mod Client
use Prim.Native.String.{String}
use cloudssh.Base.{
  ℕ, ◌+◌, ◌-◌, ◌%◌, ◌^◌, ◌==◌, Bool, true, false, not, Option, none, some, List, if◌then◌else◌,
}
use cloudssh.Base.Int.{ℤ, is_zero, is_minus_one}
use cloudssh.Base.Text.{codes}
use cloudssh.Auth.{offers}
use cloudssh.Api.{
  Stream, Sock, Host, Method, Input, bytes, failed, Run, ret, jump, leave, undefined, spin, Prog,
  Env, call, read, write, pure, goto, fault, and_then, ◌>>=◌, ◌>>◌, lib_init, lib_exit, socket,
  connect, close, session_init, session_handshake, session_free, userauth, channel_open,
  channel_request_pty, channel_shell, channel_free,
}

-- How many `shared_ptr` own each object, 0 where there is none; `linked` says whether
-- `Session::sock` is set.
pub record Counts : Type 0 where
  pub library : ℕ
  pub sock : ℕ
  pub session : ℕ
  pub channel : ℕ
  pub linked : Bool

abbrev pub no_objects : Counts
no_objects = record { library = 0; sock = 0; session = 0; channel = 0; linked = false }

-- A jump is an exception.
abbrev pub Cpp : Type 0 → Type 0
Cpp = Prog Counts

-- A `shared_ptr` is destroyed: the last one destroys the object, whose destructor runs before
-- those of its members, the last member first.
unfoldable pub drop_library : Counts → Cpp Counts
drop_library s =
    if s.library == 1
    then call lib_exit >> pure (record s { library = 0 })
    else pure (record s { library = s.library - 1 })

unfoldable pub drop_socket : Counts → Cpp Counts
drop_socket s =
    if s.sock == 1
    then call (close Sock.ssh_sock) >> pure (record s { sock = 0 })
    else pure (record s { sock = s.sock - 1 })

unfoldable pub drop_session : Counts → Cpp Counts
unfolding drop_library drop_socket
drop_session s =
    if s.session == 1
    then (do
      call session_free
      s' ← if s.linked then drop_socket s else pure s
      drop_library (record s' { session = 0; linked = false }))
    else pure (record s { session = s.session - 1 })

unfoldable pub drop_channel : Counts → Cpp Counts
unfolding drop_session
drop_channel s =
    if s.channel == 1
    then call channel_free >> drop_session (record s { channel = 0 })
    else pure (record s { channel = s.channel - 1 })

-- The scope of a variable: it is destroyed at the end of it, and by an exception that leaves it.
unfoldable pub local_variable : (Counts → Cpp Counts) → Cpp Counts → Cpp Counts
local_variable drop m env t = elim (m env t) [
  | ret s t' ↦ drop s env t'
  | jump s t' ↦ and_then (drop s env t') goto env
  | leave z t' ↦ leave z t'
  | undefined t' ↦ undefined t'
  | spin t' ↦ spin t'
]

-- A member of an object under construction: an exception destroys it, if it is set.
unfoldable pub set_member : (Counts → Cpp Counts) → (Counts → ℕ) → Cpp Counts → Cpp Counts
set_member drop count m env t = elim (m env t) [
  | ret s t' ↦ ret s t'
  | jump s t' ↦ and_then ((if count s == 0 then pure s else drop s) env t') goto env
  | leave z t' ↦ leave z t'
  | undefined t' ↦ undefined t'
  | spin t' ↦ spin t'
]

-- Libssh2::create: `Libssh2::ptr` keeps a share of the library until the program ends.
unfoldable pub create_library : Counts → Cpp Counts
create_library s =
    if s.library == 0
    then (do rc ← call lib_init; if is_zero rc then pure (record s { library = 2 }) else goto s)
    else pure (record s { library = s.library + 1 })

-- Socket::create. The port is an int16_t that is passed on as a uint16_t. An exception of
-- `Socket::connect` leaves the constructor, so that the destructor does not run.
unfoldable pub create_socket : Option String → ℕ → Counts → Cpp Counts
create_socket hostaddr port s = do
  sock ← call (socket Sock.ssh_sock)
  if is_minus_one sock then goto s else pure s
  elim hostaddr [
    | none ↦ pure (record s { sock = 1 })
    | some addr ↦ (do
      write Stream.stdout (codes "setting connection...\n")
      rc ← call (connect Sock.ssh_sock (Host.address addr) (port % 2 ^ 16))
      if is_zero rc then pure (record s { sock = 1 }) else goto s)
  ]

-- Libssh2::libssh2_session: the session shares the library.
unfoldable pub libssh2_session : Counts → Cpp Counts
libssh2_session s = do call session_init; pure (record s { session = 1; library = s.library + 1 })

-- Session::handshake starts with `sock = _sock`; a second call would release the first socket.
unfoldable pub share_socket : Counts → Cpp Counts
unfolding drop_socket
share_socket s =
    let shared : Counts = record s { sock = s.sock + 1; linked = true } in
    if s.linked then drop_socket shared else pure shared

-- Session::is_password_auth_supported: `strstr` is given the list without a test for NULL.
unfoldable pub is_password_auth_supported : Cpp Bool
is_password_auth_supported = do
  list ← read Stream.auth_methods 0
  elim list [ bytes text ↦ pure (offers "password" text) | failed n ↦ fault ]

-- Session::new_channel: the channel shares the session, and where libssh2 gives none, its member
-- is destroyed again.
unfoldable pub new_channel : Counts → Cpp Counts
unfolding drop_session
new_channel s = do
  let shared : Counts = record s { session = s.session + 1 }
  channel ← call channel_open
  if is_zero channel then drop_session shared >>= goto else pure (record shared { channel = 1 })

-- Channel::shell
unfoldable pub shell : String → Counts → Cpp Counts
shell term s = do
  rc ← call (channel_request_pty term)
  if is_zero rc then pure s else goto s
  rc' ← call channel_shell
  if is_zero rc' then pure s else goto s

-- SSH::SSH from the handshake to the shell.
unfoldable pub open_shell : String → String → Counts → Cpp Counts
unfolding share_socket is_password_auth_supported new_channel shell
open_shell username password s₃ = do
  s ← share_socket s₃
  shaken ← call session_handshake
  if is_zero shaken then pure s else goto s
  supported ← is_password_auth_supported
  if supported then pure s else goto s
  accepted ← call (userauth Method.password username password)
  if is_zero accepted then pure s else goto s
  s' ← new_channel s
  shell "xterm" s'

-- SSH::SSH. It returns with the channel as the only share that is left beside `Libssh2::ptr`.
unfoldable pub new_ssh : Option String → ℕ → String → String → Counts → Cpp Counts
unfolding create_library create_socket libssh2_session open_shell drop_library drop_socket
    drop_session drop_channel local_variable set_member
new_ssh hostname port username password s₀ =
    set_member drop_channel (λ s. s.channel)
      (do
        s₁ ← create_library s₀
        local_variable drop_library (do
          s₂ ← create_socket hostname port s₁
          local_variable drop_socket (do
            s₃ ← libssh2_session s₂
            local_variable drop_session (open_shell username password s₃))))

-- connect_to_ssh from the handshake on: it returns a null pointer, which leaves the counts without
-- a channel, where SSH::SSH throws at the handshake and the login.
unfoldable pub try_shell : String → String → Counts → Cpp Counts
unfolding share_socket is_password_auth_supported new_channel shell drop_channel set_member
try_shell username password s₃ = do
  s ← share_socket s₃
  shaken ← call session_handshake
  if not (is_zero shaken) then pure s else (do
    supported ← is_password_auth_supported
    if not supported then pure s else (do
      accepted ← call (userauth Method.password username password)
      if not (is_zero accepted) then pure s else (do
        s' ← new_channel s
        set_member drop_channel (λ s. s.channel) (shell "xterm" s'))))

-- connect_to_ssh of src/ssh.old.cpp
unfoldable pub connect_to_ssh : Option String → ℕ → String → String → Counts → Cpp Counts
unfolding create_library create_socket libssh2_session try_shell drop_library drop_socket
    drop_session local_variable
connect_to_ssh hostname port username password s₀ = do
  s₁ ← create_library s₀
  local_variable drop_library (do
    s₂ ← create_socket hostname port s₁
    local_variable drop_socket
        (do s₃ ← libssh2_session s₂; local_variable drop_session (try_shell username password s₃)))
