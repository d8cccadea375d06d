-- ===== src/Wrapper/Held.antt =====
-- Which handles of libssh2 and of the kernel are open, after the calls of src/libssh2/*.hpp.
use cloudssh.Base.{ℕ, false, Option, none, some, List, [], ◌∷◌, ◌≡◌, if◌then◌else◌}
use cloudssh.Base.Int.{ℤ, is_zero, is_minus_one}
use cloudssh.Api.{
  Sock, Host, Call, lib_init, lib_exit, socket, connect, close, session_init, session_free,
  channel_open, channel_free, failed, Stream, Env, Trace, called, wrote, took,
}

pub data Handle : Type 0 where
  library_handle socket_handle session_handle channel_handle : Handle

-- The handles, the latest first.
abbrev pub Stack : Type 0
Stack = List Handle

-- A handle may be released only where it is the latest.
abbrev pub release : Handle → Stack → Option Stack
release Handle.library_handle (Handle.library_handle ∷ hs) = some hs
release Handle.socket_handle (Handle.socket_handle ∷ hs) = some hs
release Handle.session_handle (Handle.session_handle ∷ hs) = some hs
release Handle.channel_handle (Handle.channel_handle ∷ hs) = some hs
release h hs = none

abbrev pub effect : Call → ℤ → Stack → Option Stack
effect lib_init z hs = if is_zero z then some (Handle.library_handle ∷ hs) else some hs
effect (socket Sock.ssh_sock) z hs =
    if is_minus_one z then some hs else some (Handle.socket_handle ∷ hs)
effect session_init z hs = if is_zero z then some hs else some (Handle.session_handle ∷ hs)
effect channel_open z hs = if is_zero z then some hs else some (Handle.channel_handle ∷ hs)
effect channel_free z hs = release Handle.channel_handle hs
effect session_free z hs = release Handle.session_handle hs
effect (close Sock.ssh_sock) z hs = release Handle.socket_handle hs
effect lib_exit z hs = release Handle.library_handle hs
effect c z hs = some hs

abbrev pub after : Call → ℤ → Option Stack → Option Stack
after c z none = none
after c z (some hs) = effect c z hs

-- The open handles, or `none` where one was released out of order, twice or without being open.
abbrev pub held : Trace → Option Stack
held [] = some []
held (called c z ∷ t) = after c z (held t)
held (wrote s bs z ∷ t) = held t
held (took s n i ∷ t) = held t

abbrev pub only_library : Stack
only_library = Handle.library_handle ∷ []

abbrev pub all_handles : Stack
all_handles = Handle.channel_handle ∷ Handle.session_handle ∷ Handle.socket_handle ∷ only_library

-- libssh2_session_init returns NULL only where memory is used up; the wrapper does not look.
pub record IsAllocating (env : Env) : Type 0 where
  pub session_at : (t : Trace) → is_zero (env.reply t session_init) ≡ false

-- What an exception of the wrapper's client leaves open: nothing, or the library, which is kept
-- until the program ends, and the socket whose connection failed, which nothing closes.
pub data Leaves : Trace → Type 0 where
  no_library : {t : Trace} → held t ≡ some [] → Leaves t
  library_kept : {t : Trace} → held t ≡ some only_library → Leaves t
  socket_lost :
      {t : Trace} {port : ℕ} {host : Host} {z : ℤ}
      → held t ≡ some (Handle.socket_handle ∷ only_library)
      → is_zero z ≡ false
      → Leaves (called (connect Sock.ssh_sock host port) z ∷ t)

-- A list of login methods that is NULL was searched.
pub data NoList : Trace → Type 0 where
  no_list : {t : Trace} {m n : ℕ} → NoList (took Stream.auth_methods m (failed n) ∷ t)
