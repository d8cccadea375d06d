-- ===== src/Programs/Upload.antt =====
-- Whole uploads where nothing fails: the programs return 0 and the server has the file.
pub mod Rules
pub mod Steps
pub mod Whole
use Prim.Native.String.{String}
use cloudssh.Base.{ℕ, List, [], ◌≡◌, true, false}
use cloudssh.Base.Int.{ℤ, pos, is_zero, is_neg, is_minus_one, is_eagain}
use cloudssh.Api.{
  Stream, Sock, Host, Method, Call, lib_init, fopen, socket, connect, session_init,
  session_handshake, hostkey_hash, userauth, sftp_init, sftp_open, sftp_fstat, scp_send,
  session_disconnect, Env, Trace, Exits, received, sent,
}

-- The calls up to the transfer succeed: C's statuses are 0, its pointers are not NULL.
pub record IsWilling (env : Env) : Type 0 where
  pub starts : (t : Trace) → is_zero (env.reply t lib_init) ≡ true
  pub has_file :
      (t : Trace) (name : String) → is_zero (env.reply t (fopen Stream.local_file name)) ≡ false
  pub has_socket : (t : Trace) → is_minus_one (env.reply t (socket Sock.ssh_sock)) ≡ false
  pub connects :
      (t : Trace) (host : Host) → is_zero (env.reply t (connect Sock.ssh_sock host 22)) ≡ true
  pub has_session : (t : Trace) → is_zero (env.reply t session_init) ≡ false
  pub shakes : (t : Trace) → is_zero (env.reply t session_handshake) ≡ true
  pub has_key : (t : Trace) → is_zero (env.reply t hostkey_hash) ≡ false
  pub trusts :
      (t : Trace) (m : Method) (u pw : String) → is_zero (env.reply t (userauth m u pw)) ≡ true
  pub has_sftp : (t : Trace) → is_zero (env.reply t sftp_init) ≡ false
  pub has_handle :
      (t : Trace) (path : String) (flags : ℕ) → is_zero (env.reply t (sftp_open path flags)) ≡ false
  pub has_stat : (t : Trace) → is_neg (env.reply t sftp_fstat) ≡ false
  pub has_channel : (t : Trace) (path : String) → is_zero (env.reply t (scp_send path)) ≡ false
  pub parts : (t : Trace) → is_eagain (env.reply t session_disconnect) ≡ false

-- Before the transfer: nothing is read from the file and nothing is sent.
abbrev pub Untouched : Stream → Trace → Type 0
Untouched s t = (received Stream.local_file t ≡ []) × (sent s t ≡ [])

-- After it: the server has taken exactly the file.
abbrev pub HasSent : Stream → List ℕ → Trace → Type 0
HasSent s content t = sent s t ≡ content

-- The program may only leave with 0 and after the transfer.
abbrev pub leaving_sent : {J : Type 0} → Stream → List ℕ → Exits J
leaving_sent s content = record {
  jumping = λ j t. ⊥;
  leaving = λ z t. (z ≡ pos 0) × HasSent s content t;
  running = λ t. ⊥;
}
