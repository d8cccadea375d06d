-- ===== src/Programs/Order/Frame.antt =====
-- The frame of a program: the session up to the login, and the label `shutdown`.
use cloudssh.Base.{ℕ, Bool, true, false, ◌≡◌, refl}
use cloudssh.Api.{
  Stream, fclose, session_handshake, session_disconnect, call, set_blocking, at_shutdown, ◌>>◌,
}
use cloudssh.Programs.Start.{
  Main, retry, new_session, secure, show_fingerprint, close_session, return_zero,
}
use cloudssh.Programs.Order.{unit_label, Phase}
use cloudssh.Programs.Order.Rules.{Leads, ◌⨾◌, call-Leads, keep, shutdown-Leads}
use cloudssh.Programs.Order.Steps.{
  new_session-Leads, shake_once, shake_until_done, show_fingerprint-Leads, retry_disconnect,
  close_session-Leads, return_zero-Leads,
}

module _ {may_fail : Phase → Bool} where
  -- From the connected socket to the printed fingerprint, and on.
  pub session_once :
      {A : Type 0} {q : A → Phase} {m : Main A}
      → may_fail Phase.linked ≡ true
      → may_fail Phase.opened ≡ true
      → Leads may_fail Phase.secured m q
      → Leads may_fail Phase.linked
          (new_session >> (secure (call session_handshake) >> (show_fingerprint >> m)))
          q
  session_once early early' rest =
      new_session-Leads early ⨾ shake_once early' ⨾ show_fingerprint-Leads ⨾ rest

  pub session_blocking :
      {A : Type 0} {q : A → Phase} {m : Main A}
      → may_fail Phase.linked ≡ true
      → may_fail Phase.opened ≡ true
      → Leads may_fail Phase.secured m q
      → Leads may_fail Phase.linked
          (new_session
            >> (call (set_blocking true)
                >> (secure (call session_handshake) >> (show_fingerprint >> m))))
          q
  session_blocking early early' rest =
      new_session-Leads early
      ⨾ keep (set_blocking true) (λ z. refl)
      ⨾ shake_once early'
      ⨾ show_fingerprint-Leads
      ⨾ rest

  pub session_nonblocking :
      {A : Type 0} {q : A → Phase} {m : Main A} (k : ℕ)
      → may_fail Phase.linked ≡ true
      → may_fail Phase.opened ≡ true
      → Leads may_fail Phase.secured m q
      → Leads may_fail Phase.linked
          (new_session
            >> (call (set_blocking false)
                >> (secure (retry session_handshake k) >> (show_fingerprint >> m))))
          q
  session_nonblocking k early early' rest =
      new_session-Leads early
      ⨾ keep (set_blocking false) (λ z. refl)
      ⨾ shake_until_done k early'
      ⨾ show_fingerprint-Leads
      ⨾ rest

  -- The three ways to leave through the label `shutdown`.
  pub shutdown_once :
      {m : Main (Unit {0})}
      → Leads may_fail Phase.secured m (λ j. Phase.trusted)
      → Leads {J = Unit {0}} may_fail Phase.secured
          (at_shutdown m (λ u. close_session (call session_disconnect) >> return_zero))
          (λ z. Phase.finished)
  shutdown_once body =
      shutdown-Leads {q = λ j. Phase.trusted} (λ j. refl) body
        (λ u allowed.
          close_session-Leads (call session_disconnect) (call-Leads session_disconnect)
          ⨾ return_zero-Leads)
        (λ u.
          close_session-Leads (call session_disconnect) (call-Leads session_disconnect)
          ⨾ return_zero-Leads)

  pub shutdown_file :
      {m : Main (Unit {0})}
      → Leads may_fail Phase.secured m (λ j. Phase.trusted)
      → Leads {J = Unit {0}} may_fail Phase.secured
          (at_shutdown m (λ u.
            close_session (call session_disconnect)
            >> call (fclose Stream.local_file)
            >> return_zero))
          (λ z. Phase.finished)
  shutdown_file body =
      shutdown-Leads {q = λ j. Phase.trusted} (λ j. refl) body
        (λ u allowed.
          (close_session-Leads (call session_disconnect) (call-Leads session_disconnect)
            ⨾ keep (fclose Stream.local_file) (λ z. refl))
          ⨾ return_zero-Leads)
        (λ u.
          (close_session-Leads (call session_disconnect) (call-Leads session_disconnect)
            ⨾ keep (fclose Stream.local_file) (λ z. refl))
          ⨾ return_zero-Leads)

  pub shutdown_retry :
      {m : Main (Unit {0})} (k : ℕ)
      → Leads may_fail Phase.secured m (λ j. Phase.trusted)
      → Leads {J = Unit {0}} may_fail Phase.secured
          (at_shutdown m (λ u. close_session (retry session_disconnect k) >> return_zero))
          (λ z. Phase.finished)
  shutdown_retry k body =
      shutdown-Leads {q = λ j. Phase.trusted} (λ j. refl) body
        (λ u allowed.
          close_session-Leads (retry session_disconnect k) (retry_disconnect k refl (λ z. refl))
          ⨾ return_zero-Leads)
        (λ u.
          close_session-Leads (retry session_disconnect k) (retry_disconnect k refl (λ z. refl))
          ⨾ return_zero-Leads)
