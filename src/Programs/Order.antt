-- ===== src/Programs/Order.antt =====
-- The order in which a program may use libssh2: no session before the socket is connected, no
-- question to the server before the handshake, no channel, no SFTP and no data before a login,
-- and at the end disconnect, free, close and exit, each once.
pub mod Rules
pub mod Loops
pub mod Steps
pub mod Frame
pub mod Sftp
pub mod Scp
pub mod Exec
pub mod Fetch
pub mod Echo
pub mod Forwarding
pub mod Relays
pub mod Tunnel
pub mod Listing
pub mod Shell
pub mod Refetch
pub mod Groups
use cloudssh.Base.{ℕ, Bool, true, false, List, [], ◌∷◌, ◌≡◌, if◌then◌else◌}
use cloudssh.Base.Int.{ℤ, is_zero}
use cloudssh.Api.{
  Stream, Call, lib_init, lib_exit, socket, close, connect, inet_addr, setsockopt, bind, listen,
  accept, fopen, fclose, stat, session_init, session_handshake, hostkey_hash, session_disconnect,
  session_free, last_errno, block_directions, set_blocking, userauth, wait_socket, knownhost_init,
  knownhost_readfile, knownhost_writefile, knownhost_check, knownhost_free, session_hostkey,
  file_size, Sock, Trace, called, wrote, took, Run, ret, jump, leave, undefined, spin,
}

pub data Phase : Type 0 where
  fresh ready linked opened secured trusted parted freed closed finished broken : Phase

pub data Kind : Type 0 where
  starting linking making tuning shaking asking proving using parting freeing closing ending : Kind
  anytime : Kind

-- All calls that are not named here need a login.
abbrev pub kind_of : Call → Kind
kind_of lib_init = Kind.starting
kind_of (socket s) = Kind.anytime
kind_of (connect Sock.ssh_sock host port) = Kind.linking
kind_of (fopen s name) = Kind.anytime
kind_of (fclose s) = Kind.anytime
kind_of (stat name) = Kind.anytime
kind_of session_init = Kind.making
kind_of (set_blocking b) = Kind.tuning
kind_of session_handshake = Kind.shaking
kind_of hostkey_hash = Kind.asking
kind_of session_hostkey = Kind.asking
kind_of knownhost_init = Kind.asking
kind_of knownhost_readfile = Kind.asking
kind_of knownhost_writefile = Kind.asking
kind_of knownhost_check = Kind.asking
kind_of knownhost_free = Kind.asking
kind_of last_errno = Kind.asking
kind_of block_directions = Kind.asking
kind_of (wait_socket r w) = Kind.asking
kind_of (userauth m user pw) = Kind.proving
kind_of session_disconnect = Kind.parting
kind_of session_free = Kind.freeing
kind_of (close Sock.ssh_sock) = Kind.closing
kind_of (close s) = Kind.anytime
kind_of (inet_addr host) = Kind.anytime
kind_of (setsockopt s) = Kind.anytime
kind_of (bind s host port) = Kind.anytime
kind_of (listen s) = Kind.anytime
kind_of (accept s) = Kind.anytime
kind_of lib_exit = Kind.ending
kind_of c = Kind.using

abbrev pub step : Phase → Kind → ℤ → Phase
step Phase.fresh Kind.starting z = if is_zero z then Phase.ready else Phase.fresh
step Phase.ready Kind.linking z = if is_zero z then Phase.linked else Phase.ready
step Phase.linked Kind.making z = if is_zero z then Phase.linked else Phase.opened
step Phase.opened Kind.tuning z = Phase.opened
step Phase.secured Kind.tuning z = Phase.secured
step Phase.trusted Kind.tuning z = Phase.trusted
step Phase.opened Kind.shaking z = if is_zero z then Phase.secured else Phase.opened
step Phase.secured Kind.asking z = Phase.secured
step Phase.trusted Kind.asking z = Phase.trusted
step Phase.secured Kind.proving z = if is_zero z then Phase.trusted else Phase.secured
step Phase.trusted Kind.using z = Phase.trusted
step Phase.secured Kind.parting z = Phase.parted
step Phase.trusted Kind.parting z = Phase.parted
step Phase.parted Kind.parting z = Phase.parted
step Phase.parted Kind.freeing z = Phase.freed
step Phase.freed Kind.closing z = Phase.closed
step Phase.closed Kind.ending z = Phase.finished
step p Kind.anytime z = p
step p k z = Phase.broken

-- Data may go to the server and come from it after the login only, and its list of login methods
-- may be asked for once the session is secured.
abbrev pub kind_of_stream : Stream → Kind
kind_of_stream Stream.channel = Kind.using
kind_of_stream Stream.remote_file = Kind.using
kind_of_stream Stream.remote_dir = Kind.using
kind_of_stream Stream.long_entry = Kind.using
kind_of_stream Stream.auth_methods = Kind.asking
kind_of_stream s = Kind.anytime

abbrev pub phase : Trace → Phase
phase [] = Phase.fresh
phase (called c z ∷ t) = step (phase t) (kind_of c) z
phase (wrote s bs z ∷ t) = step (phase t) (kind_of_stream s) z
phase (took s n i ∷ t) = step (phase t) (kind_of_stream s) (ℤ.pos 0)

-- The phases in which nothing but the socket and the session exist.
abbrev pub is_early : Phase → Bool
is_early Phase.fresh = true
is_early Phase.ready = true
is_early Phase.linked = true
is_early Phase.opened = true
is_early p = false

-- What the variables at the label `shutdown` say of the phase: `untrusted j` allows the session
-- without a login.
pub record Label (J : Type 0) : Type 0 where
  pub untrusted : J → Bool

instance abbrev pub unit_label : Label (Unit {0})
unit_label = record { untrusted = λ u. true }

abbrev pub is_open : Bool → Phase → Bool
is_open untrusted Phase.secured = untrusted
is_open untrusted Phase.trusted = true
is_open untrusted p = false

-- The phases before the session is left.
abbrev pub is_live : Phase → Bool
is_live Phase.secured = true
is_live Phase.trusted = true
is_live p = is_early p

abbrev pub is_broken : Phase → Bool
is_broken Phase.broken = true
is_broken p = false

-- A run that keeps the order: it goes on with `a` in the phase `q a`, or it jumps to `shutdown` while the
-- session is open, or it returns 0 after everything is closed, or another code in a phase that
-- `may_fail` allows; and it has kept the order where it does not end or stops being defined.
abbrev pub Follows :
    {J A : Type 0} ⦃label : Label J⦄ → (Phase → Bool) → (A → Phase) → Run J A → Type 0
Follows ⦃label⦄ may_fail q (ret a t) = phase t ≡ q a
Follows ⦃label⦄ may_fail q (jump j t) = is_open (label.untrusted j) (phase t) ≡ true
Follows ⦃label⦄ may_fail q (leave z t) =
    if is_zero z then phase t ≡ Phase.finished else may_fail (phase t) ≡ true
Follows ⦃label⦄ may_fail q (undefined t) = is_broken (phase t) ≡ false
Follows ⦃label⦄ may_fail q (spin t) = is_broken (phase t) ≡ false
