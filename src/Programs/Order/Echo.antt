-- ===== src/Programs/Order/Echo.antt =====
-- The echo program keeps the order if it is given a password.
use Prim.Native.String.{String}
use cloudssh.Base.{
  ℕ, zero, suc, ◌&&◌, ◌==◌, not, ltb, take, drop, length, ◌-◌, ◌+◌, ◌++◌, is_empty, Bool, true,
  false, List, [], ◌≡◌, refl, if◌then◌else◌, Bool-cases, inl, inr,
}
use cloudssh.Base.Int.{ℤ, pos, pos_part, is_zero, is_neg, is_pos, is_eagain}
use cloudssh.Base.Text.{codes}
use cloudssh.Api.{
  Stream, Host, Method, Env, result, contents, set_blocking, poll_channel, poll_revents,
  channel_send_eof, alloc_fds, trace_on, channel_free, channel_close, channel_exit_status,
  channel_exit_signal, lib_exit, session_disconnect, call,
}
use cloudssh.Programs.Start.{arg}
use cloudssh.Programs.Echo.{
  Echo, bufsize, totsize, pollin, pollout, channel_closed, has_event, echo_read, echo_write,
  echo_loop, echo_start, password_login, echo_data, ssh2_echo_main,
}
use cloudssh.Programs.Order.{unit_label, Phase, is_live, Follows}
use cloudssh.Programs.Order.Rules.{
  Leads, bind-Leads, ◌⨾◌, call-Leads, keep, write-Leads, read-Leads, test, either, pure-Leads,
  spin-Leads, exit-Leads,
}
use cloudssh.Programs.Order.Steps.{
  retry_wait-Leads, retry_login, start_library-Leads, connect_to-Leads, new_session-Leads,
  shake_until_done, close_session-Leads,
}
use cloudssh.Programs.Order.Loops.{Stays}
use cloudssh.Programs.Order.Exec.{check_hostkey-Leads, run_command-Leads}

-- The program returns the exit code of the remote command after everything is closed.
abbrev pub may_leave : Phase → Bool
may_leave Phase.finished = true
may_leave p = is_live p

echo_read-Leads : (s : Echo) → Stays may_leave (echo_read s)
unfolding echo_read
echo_read-Leads s = bind-Leads (read-Leads Stream.channel bufsize (λ z. refl)) (λ n.
    either (is_eagain (result n)) (pure-Leads s) (
      either (is_neg (result n)) (exit-Leads (pos 1) refl) (
        pure-Leads {q = λ s. Phase.trusted} (record s {
          buffer = contents n ++ drop (length (contents n)) s.buffer;
          totread = s.totread + length (contents n);
        }))))

echo_write-Leads : (s : Echo) → Stays may_leave (echo_write s)
unfolding echo_write
echo_write-Leads s =
    let left : ℕ = totsize - s.totwritten in
    either (ltb s.totwritten totsize)
      (bind-Leads
        (write-Leads Stream.channel (take (if ltb left bufsize then left else bufsize) s.buffer)
          (λ z. refl))
        (λ n. either (is_eagain n) (pure-Leads s) (
          either (is_neg n) (exit-Leads (pos 1) refl) (
            pure-Leads {q = λ s. Phase.trusted}
              (record s { totwritten = s.totwritten + pos_part n })))))
      (bind-Leads (keep channel_send_eof (λ z. refl)) (λ rc. either (is_eagain rc) (pure-Leads s) (
        either (is_neg rc) (exit-Leads (pos 1) refl)
          (pure-Leads {q = λ s. Phase.trusted} (record s { events = pollin })))))

echo_loop-Leads : (k : ℕ) (s : Echo) → Stays may_leave (echo_loop k s)
unfolding echo_loop
echo_loop-Leads zero s = spin-Leads refl
echo_loop-Leads (suc k) s = bind-Leads (keep (poll_channel s.events) (λ z. refl)) (λ rc.
    either (is_pos rc)
      (bind-Leads (keep poll_revents (λ z. refl)) (λ revents.
        let r : ℕ = pos_part revents in
        bind-Leads (either (has_event r pollin) (echo_read-Leads s) (pure-Leads s)) (λ s1.
          bind-Leads (either (has_event r pollout) (echo_write-Leads s1) (pure-Leads s1)) (λ s2.
            either
              (has_event r channel_closed && not (has_event r pollin) && not (has_event r pollout))
              (pure-Leads s2) (echo_loop-Leads k s2)))))
      (echo_loop-Leads k s))

password_login-Leads :
    (k : ℕ) (username password : String)
    → is_empty (codes password) ≡ false
    → Leads may_leave Phase.secured (password_login k username password) (λ z. Phase.trusted)
unfolding password_login
password_login-Leads k username password given = rw given (
    bind-Leads (retry_login k username password Method.password)
      (λ z. test (is_zero z) (pure-Leads z) (exit-Leads (pos 1) refl)))

echo_data-Leads : (k : ℕ) → Stays may_leave (echo_data k)
unfolding echo_data
echo_data-Leads k = bind-Leads (keep alloc_fds (λ z. refl)) (λ fds.
    either (is_zero fds) (exit-Leads (pos 1) refl) (pure-Leads {q = λ z. Phase.trusted} fds)
    ⨾ bind-Leads (echo_loop-Leads k echo_start) (λ s.
      bind-Leads (retry_wait-Leads channel_close k (λ z. refl)) (λ rc.
        bind-Leads
          (either (is_zero rc)
            (bind-Leads (keep channel_exit_status (λ z. refl)) (λ status.
              keep channel_exit_signal (λ z. refl) ⨾ pure-Leads {q = λ z. Phase.trusted} status))
            (pure-Leads (pos 127)))
          (λ exitcode.
            keep channel_free (λ z. refl)
            ⨾ either (s.totwritten == s.totread) (pure-Leads exitcode) (exit-Leads (pos 1) refl)))))

allowed :
    (z : ℤ) → if is_zero z then Phase.finished ≡ Phase.finished else may_leave Phase.finished ≡ true
allowed z = elim (Bool-cases (is_zero z)) [ inl e ↦ rw e refl | inr e ↦ rw e refl ]

-- Whatever the server answers, example/ssh2_echo.c with a password that is not empty keeps the
-- order of calls: no channel and no data before a login with result 0. It returns 0 only after
-- disconnect, free, close and libssh2_exit in this order, and another code there or before the
-- disconnect.
pub ssh2_echo_main-IsOrdered :
    (k : ℕ) (argv : List String) (env : Env)
    → is_empty (codes (arg 3 "password" argv)) ≡ false
    → Follows may_leave (λ a. Phase.finished) (ssh2_echo_main k argv env [])
unfolding ssh2_echo_main
ssh2_echo_main-IsOrdered k argv env given =
    let runs : Leads may_leave Phase.fresh (ssh2_echo_main k argv) (λ a. Phase.finished) =
      start_library-Leads refl
      ⨾ connect_to-Leads (Host.address (arg 1 "127.0.0.1" argv)) refl
      ⨾ new_session-Leads refl
      ⨾ keep (set_blocking false) (λ z. refl)
      ⨾ shake_until_done k refl
      ⨾ check_hostkey-Leads refl
      ⨾ password_login-Leads k (arg 2 "user" argv) (arg 3 "password" argv) given
      ⨾ keep trace_on (λ z. refl)
      ⨾ run_command-Leads refl k "cat"
      ⨾ bind-Leads (echo_data-Leads k) (λ exitcode.
        close_session-Leads (call session_disconnect) (call-Leads session_disconnect)
        ⨾ call-Leads lib_exit
        ⨾ exit-Leads exitcode (allowed exitcode)) in
    runs.follows env [] refl
