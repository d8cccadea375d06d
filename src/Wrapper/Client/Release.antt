-- ===== src/Wrapper/Client/Release.antt =====
-- What is open when src/ssh.cpp ends.
use cloudssh.Base.{
  ℕ, zero, suc, ◌==◌, false, ◌+◌, ◌&&◌, not, none, some, Option, List, [], ◌∷◌, ◌≡◌, refl,
  if◌then◌else◌,
}
use cloudssh.Base.Int.{ℤ, pos, minus_one, is_zero, is_neg, is_pos, is_eagain}
use Prim.Native.String.{String}
use cloudssh.Base.Text.{codes}
use cloudssh.Api.{
  Stream, Call, Run, called, jump, leave, undefined, spin, Trace, Env, call, write, pure, and_then,
  ◌>>=◌, ◌>>◌, result, contents, exit, channel_set_blocking, channel_eof, select_stdin, system,
}
use cloudssh.Wrapper.{Counts, Cpp, drop_channel, drop_library, drop_session, drop_socket}
use cloudssh.Api.Steady.{
  Kept, went_on, overran, ran_on, IsSteady, IsDataFree, bind-IsSteady, ◌⨾◌, pure-IsSteady,
  fault-IsSteady, spin-IsSteady, call-IsSteady, choice-IsSteady, write-IsSteady, read-IsSteady,
}
use cloudssh.Wrapper.Held.{Stack, held, all_handles, effect, after, IsAllocating, NoList}
use cloudssh.Wrapper.Scopes.{Ends, returned, threw, searched, At, at, FourHandles}
use cloudssh.Wrapper.Ownership.{one_each, Undone, new_ssh-Ends}
use cloudssh.Wrapper.Client.{
  obuf_size, print_text, report, send_typed, show_output, take_input, ssh_loop, ssh_main,
}

held-IsDataFree : IsDataFree held
held-IsDataFree = record { wrote_same = λ s bs z t. refl; took_same = λ s n i t. refl }

-- A call that neither opens nor releases a handle.
neutral :
    (c : Call)
    → ((z : ℤ) (hs : Stack) → effect c z hs ≡ some hs)
    → (z : ℤ) (t : Trace) → held (called c z ∷ t) ≡ held t
neutral c same z t = go (held t)
  where
    go : (h : Option Stack) → after c z h ≡ h
    go none = refl
    go (some hs) = same z hs

print_text-IsSteady : (bs : List ℕ) → IsSteady held (print_text bs)
unfolding print_text
print_text-IsSteady bs = choice-IsSteady _ (write-IsSteady held-IsDataFree _ _) fault-IsSteady

report-IsSteady : (name : String) (z : ℤ) → IsSteady held (report name z)
unfolding report
report-IsSteady name z = write-IsSteady held-IsDataFree _ _

send_typed-IsSteady : (cs : List ℕ) → IsSteady held (send_typed cs)
unfolding send_typed
send_typed-IsSteady [] = pure-IsSteady (pos 0)
send_typed-IsSteady (c ∷ cs) = choice-IsSteady (c == 0) (pure-IsSteady (pos 0)) (
    bind-IsSteady (write-IsSteady held-IsDataFree _ _)
      (λ st. choice-IsSteady (is_neg st) (report-IsSteady "WE" st) (pure-IsSteady st)))

show_output-IsSteady : IsSteady held show_output
unfolding show_output
show_output-IsSteady = bind-IsSteady (read-IsSteady held-IsDataFree Stream.channel obuf_size) (λ n.
    choice-IsSteady (is_pos (result n)) (print_text-IsSteady (contents n)) (pure-IsSteady (pos 0))
    ⨾ choice-IsSteady (is_neg (result n) && not (is_eagain (result n)))
        (report-IsSteady "RE" (result n)) (pure-IsSteady (pos 0)))

take_input-IsSteady : IsSteady held take_input
unfolding take_input
take_input-IsSteady =
    bind-IsSteady (call-IsSteady select_stdin (neutral select_stdin (λ z hs. refl))) (λ ready.
      choice-IsSteady (is_zero ready) (pure-IsSteady (pos 0)) (
        bind-IsSteady (read-IsSteady held-IsDataFree Stream.stdin 1)
          (λ c. send_typed-IsSteady (contents c))))

ssh_loop-IsSteady : (k : ℕ) → IsSteady held (ssh_loop k)
unfolding ssh_loop
ssh_loop-IsSteady zero = spin-IsSteady
ssh_loop-IsSteady (suc k) =
    bind-IsSteady (call-IsSteady channel_eof (neutral channel_eof (λ z hs. refl))) (λ eof.
      choice-IsSteady (is_zero eof)
        ((show_output-IsSteady ⨾ take_input-IsSteady) ⨾ ssh_loop-IsSteady k) (pure-IsSteady tt))

-- How the program may end.
pub data Ended : Run Counts ℤ → Type 0 where
  exited : {t : Trace} → held t ≡ some [] → Ended (leave (pos 0) t)
  thrown : {s : Counts} {t : Trace} → Undone s t → Ended (jump s t)
  not_listed : {t : Trace} → NoList t → Ended (undefined t)
  overfull : {t : Trace} → FourHandles t → Ended (undefined t)
  still_open : {t : Trace} → FourHandles t → Ended (spin t)

-- The whole terminal session: where src/ssh.cpp returns 0, the channel, the session, the socket and
-- the library were each released once, in this order; an exception comes from the connection only,
-- with nothing left but what `Leaves` allows; and while it runs all four are open. The session must
-- not be NULL.
pub ssh_main-Ended : (k : ℕ) (env : Env) → IsAllocating env → Ended (ssh_main k env [])
unfolding ssh_main drop_channel drop_session drop_socket drop_library
ssh_main-Ended k env allocating =
    after_connection (new_ssh-Ends (some "127.0.0.1") 22 "test" "hogehoge" env allocating)
  where
    leave_all : Counts → Cpp ℤ
    leave_all s = do
      write Stream.stdout (codes "Disconnected.\n")
      call (system "stty echo")
      call (system "stty icanon")
      s₁ ← drop_channel (record s { channel = s.channel + 1 })
      s₂ ← drop_channel s₁
      drop_library s₂
      exit (pos 0)

    rest : Counts → Cpp ℤ
    rest s = do
      if s.channel == 0 then exit minus_one else pure (pos 0)
      call (channel_set_blocking false)
      call (system "stty -echo")
      call (system "stty -icanon")
      write Stream.stdout (codes "Ready...\n")
      ssh_loop k
      leave_all s

    after_loop :
        {run : Run Counts (Unit {0})}
        → Kept held (some all_handles) run
        → Ended (and_then run (λ u. leave_all one_each) env)
    after_loop (went_on h) = exited (rw h refl)
    after_loop (overran h) = overfull h
    after_loop (ran_on h) = still_open h

    after_connection :
        {run : Run Counts Counts}
        → Ends Undone (At one_each FourHandles) run
        → Ended (and_then run rest env)
    after_connection (threw x) = thrown x
    after_connection (searched n) = not_listed n
    after_connection (returned (at h)) =
        after_loop ((ssh_loop-IsSteady k).keeps env _ (some all_handles) (rw h refl))
