-- ===== src/Programs/Order/Steps.antt =====
-- Where the shared parts of the programs lead.
use Prim.Native.String.{String}
use cloudssh.Base.{
  ℕ, zero, suc, Bool, true, false, ◌≡◌, refl, if◌then◌else◌, inl, inr, Bool-cases, arith,
}
use cloudssh.Base.Int.{ℤ, pos, pos_part, minus_one, is_zero, is_eagain, is_minus_one}
use cloudssh.Api.{
  Stream, Sock, Host, Method, Call, lib_init, lib_exit, socket, connect, fopen, session_init,
  session_handshake, hostkey_hash, session_disconnect, session_free, close, userauth, last_errno,
  block_directions, wait_socket, call, inbound, outbound, pure, waitsocket,
}
use cloudssh.Programs.Start.{
  Main, retry, retry_wait, obtain, require, start_library, open_local, connect_to, new_session,
  secure, show_fingerprint, login, close_session, return_zero,
}
use cloudssh.Programs.Scp.{connect_checked}
use cloudssh.Programs.Order.{unit_label, Phase, kind_of, step, is_broken}
use cloudssh.Programs.Order.Rules.{
  Leads, bind-Leads, ◌⨾◌, call-Leads, keep, test, either, pure-Leads, goto-Leads, spin-Leads,
  fault-Leads, exit-Leads,
}

eagain_not_zero : (z : ℤ) → is_eagain z ≡ true → is_zero z ≡ false
eagain_not_zero z h = ground arith

module _ {may_fail : Phase → Bool} where
  -- A retried call ends where its last answer leads, if the answer EAGAIN leads nowhere.
  pub retry-Leads :
      {p : Phase} (c : Call) (k : ℕ)
      → is_broken p ≡ false
      → ((z : ℤ) → is_eagain z ≡ true → step p (kind_of c) z ≡ p)
      → Leads may_fail p (retry c k) (λ z. step p (kind_of c) z)
  unfolding retry
  retry-Leads c zero kept again = spin-Leads kept
  retry-Leads c (suc k) kept again =
      bind-Leads {k = λ z. if is_eagain z then retry c k else pure z} (call-Leads c) (λ z.
        elim (Bool-cases (is_eagain z)) [
          | inl e ↦ rw (e, again z e) (retry-Leads c k kept again)
          | inr e ↦ rw e (pure-Leads z)
        ])

  pub retry_keep :
      {p : Phase} (c : Call) (k : ℕ)
      → is_broken p ≡ false
      → ((z : ℤ) → step p (kind_of c) z ≡ p)
      → Leads may_fail p (retry c k) (λ z. p)
  unfolding retry
  retry_keep c zero kept stays = spin-Leads kept
  retry_keep c (suc k) kept stays =
      bind-Leads (keep c stays)
        (λ z. either (is_eagain z) (retry_keep c k kept stays) (pure-Leads z))

  pub waitsocket-Leads :
      Leads may_fail Phase.trusted (waitsocket {J = Unit {0}}) (λ z. Phase.trusted)
  unfolding waitsocket
  waitsocket-Leads =
      bind-Leads (keep block_directions (λ z. refl))
        (λ dir. keep (wait_socket (inbound (pos_part dir)) (outbound (pos_part dir))) (λ z. refl))

  pub retry_wait-Leads :
      (c : Call) (k : ℕ)
      → ((z : ℤ) → step Phase.trusted (kind_of c) z ≡ Phase.trusted)
      → Leads may_fail Phase.trusted (retry_wait c k) (λ z. Phase.trusted)
  unfolding retry_wait
  retry_wait-Leads c zero stays = spin-Leads refl
  retry_wait-Leads c (suc k) stays =
      bind-Leads (keep c stays)
        (λ z. either (is_eagain z) (waitsocket-Leads ⨾ retry_wait-Leads c k stays) (pure-Leads z))

  pub obtain-Leads :
      {blocked : Main ℤ} (c : Call) (k : ℕ)
      → ((z : ℤ) → step Phase.trusted (kind_of c) z ≡ Phase.trusted)
      → Leads may_fail Phase.trusted blocked (λ z. Phase.trusted)
      → Leads may_fail Phase.trusted (obtain blocked c k) (λ z. Phase.trusted)
  unfolding obtain
  obtain-Leads c zero stays wait = spin-Leads refl
  obtain-Leads c (suc k) stays wait = bind-Leads (keep c stays) (λ z.
      either (is_zero z)
        (bind-Leads (keep last_errno (λ z. refl))
          (λ e. either (is_eagain e) (wait ⨾ obtain-Leads c k stays wait) (goto-Leads tt refl)))
        (pure-Leads z))

  pub require-Leads :
      (c : Call)
      → ((z : ℤ) → step Phase.trusted (kind_of c) z ≡ Phase.trusted)
      → Leads may_fail Phase.trusted (require c) (λ z. Phase.trusted)
  unfolding require
  require-Leads c stays =
      bind-Leads (keep c stays) (λ z. either (is_zero z) (goto-Leads tt refl) (pure-Leads z))

  -- A login that fails leaves the session without rights.
  pub login-Leads :
      (attempt : Call → Main ℤ) (auth_pw : Bool) (username password : String)
      → ((m : Method)
          → Leads may_fail Phase.secured
              (attempt (userauth m username password))
              (λ z. if is_zero z then Phase.trusted else Phase.secured))
      → Leads may_fail Phase.secured (login attempt auth_pw username password) (λ z. Phase.trusted)
  unfolding login
  login-Leads attempt auth_pw username password tried =
      bind-Leads (tried (if auth_pw then Method.password else Method.publickey))
        (λ z. test (is_zero z) (pure-Leads z) (goto-Leads tt refl))

  pub call_login :
      (username password : String) (m : Method)
      → Leads may_fail Phase.secured
          (call {J = Unit {0}} (userauth m username password))
          (λ z. if is_zero z then Phase.trusted else Phase.secured)
  call_login username password m = call-Leads (userauth m username password)

  pub retry_login :
      (k : ℕ) (username password : String) (m : Method)
      → Leads may_fail Phase.secured
          (retry (userauth m username password) k)
          (λ z. if is_zero z then Phase.trusted else Phase.secured)
  retry_login k username password m =
      retry-Leads (userauth m username password) k refl (λ z e. rw (eagain_not_zero z e) refl)

  -- Every call of these stands in its place.
  pub start_library-Leads :
      may_fail Phase.fresh ≡ true → Leads may_fail Phase.fresh start_library (λ z. Phase.ready)
  unfolding start_library
  start_library-Leads early =
      bind-Leads (call-Leads lib_init)
        (λ z. test (is_zero z) (pure-Leads z) (exit-Leads (pos 1) early))

  pub open_local-Leads :
      (name : String)
      → may_fail Phase.ready ≡ true
      → Leads may_fail Phase.ready (open_local name) (λ z. Phase.ready)
  unfolding open_local
  open_local-Leads name early =
      bind-Leads (keep (fopen Stream.local_file name) (λ z. refl))
        (λ z. either (is_zero z) (exit-Leads minus_one early) (pure-Leads z))

  pub connect_to-Leads :
      (host : Host)
      → may_fail Phase.ready ≡ true
      → Leads may_fail Phase.ready (connect_to host) (λ z. Phase.linked)
  unfolding connect_to
  connect_to-Leads host early = bind-Leads (keep (socket Sock.ssh_sock) (λ z. refl)) (λ s.
      bind-Leads (call-Leads (connect Sock.ssh_sock host 22))
        (λ z. test (is_zero z) (pure-Leads s) (exit-Leads minus_one early)))

  pub connect_checked-Leads :
      (host : Host)
      → may_fail Phase.ready ≡ true
      → Leads may_fail Phase.ready (connect_checked host) (λ z. Phase.linked)
  unfolding connect_checked
  connect_checked-Leads host early = bind-Leads (keep (socket Sock.ssh_sock) (λ z. refl)) (λ s.
      either (is_minus_one s) (exit-Leads minus_one early) (pure-Leads s)
      ⨾ bind-Leads (call-Leads (connect Sock.ssh_sock host 22))
          (λ z. test (is_zero z) (pure-Leads s) (exit-Leads minus_one early)))

  pub new_session-Leads :
      may_fail Phase.linked ≡ true → Leads may_fail Phase.linked new_session (λ z. Phase.opened)
  unfolding new_session
  new_session-Leads early =
      bind-Leads (call-Leads session_init)
        (λ z. test (is_zero z) (exit-Leads minus_one early) (pure-Leads z))

  handshake-Leads :
      (shake : Main ℤ)
      → may_fail Phase.opened ≡ true
      → Leads may_fail Phase.opened shake (λ z. if is_zero z then Phase.secured else Phase.opened)
      → Leads may_fail Phase.opened (secure shake) (λ z. Phase.secured)
  unfolding secure
  handshake-Leads shake early shaken =
      bind-Leads shaken (λ z. test (is_zero z) (pure-Leads z) (exit-Leads minus_one early))

  pub shake_once :
      may_fail Phase.opened ≡ true
      → Leads may_fail Phase.opened (secure (call session_handshake)) (λ z. Phase.secured)
  shake_once early = handshake-Leads (call session_handshake) early (call-Leads session_handshake)

  pub shake_until_done :
      (k : ℕ)
      → may_fail Phase.opened ≡ true
      → Leads may_fail Phase.opened (secure (retry session_handshake k)) (λ z. Phase.secured)
  shake_until_done k early =
      handshake-Leads (retry session_handshake k) early
        (retry-Leads session_handshake k refl (λ z e. rw (eagain_not_zero z e) refl))

  pub show_fingerprint-Leads : Leads may_fail Phase.secured show_fingerprint (λ z. Phase.secured)
  unfolding show_fingerprint
  show_fingerprint-Leads =
      bind-Leads (keep hostkey_hash (λ z. refl))
        (λ z. either (is_zero z) (fault-Leads refl) (pure-Leads z))

  -- The disconnect may be repeated.
  retry_parting :
      (k : ℕ) → Leads may_fail Phase.parted (retry session_disconnect k) (λ z. Phase.parted)
  retry_parting k = retry_keep session_disconnect k refl (λ z. refl)

  pub retry_disconnect :
      {p : Phase} (k : ℕ)
      → is_broken p ≡ false
      → ((z : ℤ) → step p (kind_of session_disconnect) z ≡ Phase.parted)
      → Leads may_fail p (retry session_disconnect k) (λ z. Phase.parted)
  unfolding retry
  retry_disconnect zero kept parts = spin-Leads kept
  retry_disconnect (suc k) kept parts =
      bind-Leads {k = λ z. if is_eagain z then retry session_disconnect k else pure z}
        (call-Leads session_disconnect)
        (λ z. rw (parts z) (either (is_eagain z) (retry_parting k) (pure-Leads z)))

  pub close_session-Leads :
      {p : Phase} (disconnect : Main ℤ)
      → Leads may_fail p disconnect (λ z. Phase.parted)
      → Leads may_fail p (close_session disconnect) (λ z. Phase.closed)
  unfolding close_session
  close_session-Leads disconnect parted =
      (parted ⨾ call-Leads session_free) ⨾ call-Leads (close Sock.ssh_sock)

  pub return_zero-Leads : {q : ℤ → Phase} → Leads may_fail Phase.closed return_zero q
  unfolding return_zero
  return_zero-Leads = call-Leads lib_exit ⨾ exit-Leads (pos 0) refl
