-- ===== src/Wrapper/Client.antt =====
-- src/ssh.cpp: a terminal on a remote shell.
pub mod Release
pub mod Terminal
use Prim.Native.String.{String}
use cloudssh.Base.{
  ℕ, zero, suc, ◌+◌, ◌/◌, ◌%◌, ◌==◌, ltb, Bool, false, ◌&&◌, ◌||◌, not, some, List, [], ◌∷◌, ◌++◌,
  length, if◌then◌else◌,
}
use cloudssh.Base.Int.{ℤ, pos, negsuc, minus_one, is_zero, is_neg, is_pos, is_eagain}
use cloudssh.Base.Text.{codes, cstring, has_nul, digits}
use cloudssh.Api.{
  Stream, result, contents, call, read, write, pure, exit, fault, out_of_rounds, ◌>>=◌, ◌>>◌,
  channel_eof, channel_set_blocking, select_stdin, system,
}
use cloudssh.Wrapper.{Counts, Cpp, no_objects, new_ssh, drop_library, drop_channel}

-- std::vector<char> obuf(65536, '\0')
abbrev pub obuf_size : ℕ
obuf_size = 65536

-- "%ld": a `long` has at most 19 digits.
unfoldable pub signed : ℤ → List ℕ
unfolding digits
signed (pos n) = digits 19 n
signed (negsuc n) = codes "-" ++ digits 19 (n + 1)

-- printf("RE(%ld)", n_obuf_read), and the same with "WE".
unfoldable pub report : String → ℤ → Cpp ℤ
unfolding signed
report name z = write Stream.stdout (codes name ++ codes "(" ++ signed z ++ codes ")")

-- printf("%s", obuf.data()): the array is 0 behind what was read.
unfoldable pub print_text : List ℕ → Cpp ℤ
unfolding cstring has_nul
print_text filled =
    if ltb (length filled) obuf_size || has_nul filled
    then write Stream.stdout (cstring filled)
    else fault

-- int c = getchar(); if (c > 0) …
unfoldable pub send_typed : List ℕ → Cpp ℤ
unfolding report
send_typed [] = pure (pos 0)
send_typed (c ∷ cs) =
    if c == 0
    then pure (pos 0)
    else (do st ← write Stream.channel (c ∷ []); if is_neg st then report "WE" st else pure st)

-- One round of the loop.
unfoldable pub show_output : Cpp ℤ
unfolding print_text report
show_output = do
  n_obuf_read ← read Stream.channel obuf_size
  if is_pos (result n_obuf_read) then print_text (contents n_obuf_read) else pure (pos 0)
  if is_neg (result n_obuf_read) && not (is_eagain (result n_obuf_read))
      then report "RE" (result n_obuf_read)
      else pure (pos 0)

unfoldable pub take_input : Cpp ℤ
unfolding send_typed
take_input = do
  ready ← call select_stdin
  if is_zero ready then pure (pos 0) else (do c ← read Stream.stdin 1; send_typed (contents c))

-- while(!channel->is_eof())
unfoldable pub ssh_loop : ℕ → Cpp (Unit {0})
unfolding show_output take_input
ssh_loop zero = out_of_rounds
ssh_loop (suc k) = do
  eof ← call channel_eof
  if is_zero eof then show_output >> take_input >> ssh_loop k else pure tt

-- The variable `channel` is a second share of the channel; at the end it is destroyed, then `ssh`,
-- and then `Libssh2::ptr`. An exception is caught by nobody.
unfoldable pub ssh_main : ℕ → Cpp ℤ
unfolding new_ssh ssh_loop drop_library drop_channel
ssh_main k = do
  s ← new_ssh (some "127.0.0.1") 22 "test" "hogehoge" no_objects
  if s.channel == 0 then exit minus_one else pure (pos 0)
  call (channel_set_blocking false)
  call (system "stty -echo")
  call (system "stty -icanon")
  write Stream.stdout (codes "Ready...\n")
  ssh_loop k
  write Stream.stdout (codes "Disconnected.\n")
  call (system "stty echo")
  call (system "stty icanon")
  s₁ ← drop_channel (record s { channel = s.channel + 1 })
  s₂ ← drop_channel s₁
  drop_library s₂
  exit (pos 0)
