-- ===== src/Programs/X11Main/Clients.antt =====
-- The loop of example/x11.c leaves the mode of the terminal as it is.
use cloudssh.Base.{
  ℕ, zero, suc, ◌==◌, Bool, true, false, Option, none, some, List, [], ◌∷◌, ◌++◌, refl, drop,
  if◌then◌else◌,
}
use cloudssh.Base.Int.{ℤ, pos, pos_part, minus_one, is_zero, is_neg, is_pos, is_minus_one}
use cloudssh.Base.Text.{cstring}
use cloudssh.Api.{
  Stream, Input, bytes, failed, Trace, called, wrote, took, contents, result, pure, call, fault,
  ◌>>=◌, ◌>>◌, tcsetattr, alloc_buf, alloc_fds, alloc_node, free_buf, free_fds, poll_x11,
  select_x11, x11_eof, unix_socket, unix_connect, close_x11, shutdown_x11, poll_channel,
  select_stdin, window_size, channel_pty_size, x11_request, channel_eof,
}
use cloudssh.Api.Steady.{
  IsSteady, IsDataFree, bind-IsSteady, ◌⨾◌, pure-IsSteady, fault-IsSteady, spin-IsSteady,
  call-IsSteady, choice-IsSteady, write-IsSteady, read-IsSteady,
}
use cloudssh.X11
use cloudssh.X11.{Ptr, null, Node, Store, Outcome, done, spin, add_connection, remove_node}
use cloudssh.X11.Display.{is_local, display_number, on_list, connect_display, x11_callback}
use cloudssh.X11.Exchange.{
  x11_bufsize, is_one, channel_to_x11, x11_end, x11_to_channel, x11_send_receive,
}
use cloudssh.Programs.Start.{Main}
use cloudssh.Programs.X11Main.{
  pointer_size, eight_of, serve_clients, show_shell, send_key, same_size, resize, x11_clients,
  x11_loop,
}

-- Raw mode was set, and it was not asked to undo it.
abbrev pub left_raw : Trace → Bool
left_raw [] = false
left_raw (called (tcsetattr true) z ∷ t) = if is_zero z then true else left_raw t
left_raw (called (tcsetattr false) z ∷ t) = false
left_raw (called c z ∷ t) = left_raw t
left_raw (wrote s bs z ∷ t) = left_raw t
left_raw (took s n i ∷ t) = left_raw t

data_free : IsDataFree left_raw
data_free = record { wrote_same = λ s bs z t. refl; took_same = λ s n i t. refl }

-- A part of the program that does not touch the terminal.
abbrev pub IsAside : {A : Type 0} → Main A → Type 0
IsAside m = IsSteady left_raw m

on_list-IsAside : (o : Outcome) → IsAside (on_list o)
unfolding on_list
on_list-IsAside (done s) = pure-IsSteady s
on_list-IsAside X11.fault = fault-IsSteady
on_list-IsAside spin = spin-IsSteady

x11_end-IsAside : (channel sock : ℕ) → IsAside (x11_end channel sock)
unfolding x11_end
x11_end-IsAside channel sock =
    call-IsSteady free_fds (λ z t. refl)
    ⨾ call-IsSteady free_buf (λ z t. refl)
    ⨾ bind-IsSteady (call-IsSteady (x11_eof channel) (λ z t. refl))
        (λ eof. choice-IsSteady (is_one eof) (pure-IsSteady minus_one) (pure-IsSteady (pos 0)))

x11_to_channel-IsAside : (channel sock : ℕ) → IsAside (x11_to_channel channel sock)
unfolding x11_to_channel
x11_to_channel-IsAside channel sock =
    bind-IsSteady (call-IsSteady (select_x11 sock) (λ z t. refl)) (λ rc.
      choice-IsSteady (is_pos rc)
        (bind-IsSteady (read-IsSteady data_free (Stream.x11_sock sock) x11_bufsize) (λ i.
          choice-IsSteady (is_pos (result i))
            (write-IsSteady data_free (Stream.x11_channel channel) (contents i)
              ⨾ x11_end-IsAside channel sock)
            (call-IsSteady free_buf (λ z t. refl) ⨾ pure-IsSteady minus_one)))
        (x11_end-IsAside channel sock))

channel_to_x11-IsAside : (channel sock : ℕ) → IsAside (channel_to_x11 channel sock)
unfolding channel_to_x11
channel_to_x11-IsAside channel sock =
    bind-IsSteady (read-IsSteady data_free (Stream.x11_channel channel) x11_bufsize) (λ i.
      choice-IsSteady (is_neg (result i)) fault-IsSteady
        (write-IsSteady data_free (Stream.x11_sock sock) (contents i)))

x11_send_receive-IsAside : (channel sock : ℕ) → IsAside (x11_send_receive channel sock)
unfolding x11_send_receive
x11_send_receive-IsAside channel sock =
    bind-IsSteady (call-IsSteady alloc_buf (λ z t. refl)) (λ buf.
      choice-IsSteady (is_zero buf) (pure-IsSteady (pos 0)) (
        bind-IsSteady (call-IsSteady alloc_fds (λ z t. refl)) (λ fds.
          choice-IsSteady (is_zero fds)
            (call-IsSteady free_buf (λ z t. refl) ⨾ pure-IsSteady (pos 0))
            (bind-IsSteady (call-IsSteady poll_x11 (λ z t. refl)) (λ rc.
              choice-IsSteady (is_pos rc) (channel_to_x11-IsAside channel sock) (pure-IsSteady rc)
              ⨾ x11_to_channel-IsAside channel sock)))))

-- One connection, and then `next`.
client-IsAside :
    (k : ℕ) (s : Store) (current : Ptr) (cell : Option Node) (next : Store → Ptr → Main Store)
    → ((s' : Store) (p : Ptr) → IsAside (next s' p))
    → IsAside (elim cell as (λ x. Main Store) [
      | none ↦ fault
      | some node ↦ x11_send_receive node.chan node.sock >>= λ rc.
          (if is_minus_one rc
            then call (shutdown_x11 node.sock)
              >> (call (close_x11 node.sock) >> on_list (remove_node k s current))
            else pure s)
          >>= λ s'. next s' node.next
    ])
client-IsAside k s current none next h = fault-IsSteady
client-IsAside k s current (some node) next h =
    bind-IsSteady (x11_send_receive-IsAside node.chan node.sock) (λ rc.
      bind-IsSteady
        (choice-IsSteady (is_minus_one rc)
          (call-IsSteady (shutdown_x11 node.sock) (λ z t. refl)
            ⨾ call-IsSteady (close_x11 node.sock) (λ z t. refl)
            ⨾ on_list-IsAside (remove_node k s current))
          (pure-IsSteady s))
        (λ s'. h s' node.next))

serve_clients-IsAside : (k : ℕ) (s : Store) (current : Ptr) → IsAside (serve_clients k s current)
unfolding serve_clients
serve_clients-IsAside zero s current = spin-IsSteady
serve_clients-IsAside (suc k) s current =
    choice-IsSteady (current == null) (pure-IsSteady s)
      (client-IsAside k s current (s.heap current) (serve_clients k) (serve_clients-IsAside k))

connect_display-IsAside :
    (k : ℕ) (s : Store) (channel : ℕ) (port : ℤ) → IsAside (connect_display k s channel port)
unfolding connect_display
connect_display-IsAside k s channel port =
    bind-IsSteady (call-IsSteady unix_socket (λ z t. refl)) (λ sock.
      choice-IsSteady (is_neg sock) (pure-IsSteady s) (
        bind-IsSteady (call-IsSteady (unix_connect port) (λ z t. refl)) (λ rc.
          choice-IsSteady (is_minus_one rc)
            (call-IsSteady (close_x11 (pos_part sock)) (λ z t. refl) ⨾ pure-IsSteady s)
            (bind-IsSteady (call-IsSteady alloc_node (λ z t. refl)) (λ new.
              on_list-IsAside (add_connection k s (pos_part new) channel (pos_part sock)))))))

numbered-IsAside :
    (k : ℕ) (s : Store) (channel : ℕ) (o : Option ℤ)
    → IsAside (elim o as (λ x. Main Store) [
      | none ↦ fault
      | some port ↦ call free_buf >> connect_display k s channel port
    ])
numbered-IsAside k s channel none = fault-IsSteady
numbered-IsAside k s channel (some port) =
    call-IsSteady free_buf (λ z t. refl) ⨾ connect_display-IsAside k s channel port

x11_callback-IsAside : (k : ℕ) (s : Store) (channel : ℕ) → IsAside (x11_callback k s channel)
unfolding x11_callback
x11_callback-IsAside k s channel =
    bind-IsSteady (read-IsSteady data_free Stream.display_text 0) given
  where
    given :
        (display : Input)
        → IsAside (elim display as (λ x. Main Store) [
          | failed n ↦ pure s
          | bytes text ↦
              if is_local text
              then (call alloc_buf >>= λ temp_buff.
                  if is_zero temp_buff
                  then pure s
                  else elim (display_number text) as (λ x. Main Store) [
                    | none ↦ fault
                    | some port ↦ call free_buf >> connect_display k s channel port
                  ])
              else pure s
        ])
    given (failed n) = pure-IsSteady s
    given (bytes text) =
        choice-IsSteady (is_local text)
          (bind-IsSteady (call-IsSteady alloc_buf (λ z t. refl)) (λ temp_buff.
            choice-IsSteady (is_zero temp_buff) (pure-IsSteady s)
              (numbered-IsAside k s channel (display_number text))))
          (pure-IsSteady s)

show_shell-IsAside : IsAside show_shell
unfolding show_shell
show_shell-IsAside = bind-IsSteady (call-IsSteady (poll_channel 1) (λ z t. refl)) (λ rc.
    choice-IsSteady (is_pos rc)
      (bind-IsSteady (read-IsSteady data_free Stream.channel pointer_size) (λ i.
        write-IsSteady data_free Stream.stdout (cstring (contents i)) ⨾ pure-IsSteady (contents i)))
      (pure-IsSteady []))

send_key-IsAside : (buf : List ℕ) → IsAside (send_key buf)
unfolding send_key
send_key-IsAside buf = bind-IsSteady (call-IsSteady select_stdin (λ z t. refl)) (λ rc.
    choice-IsSteady (is_pos rc)
      (bind-IsSteady (read-IsSteady data_free Stream.stdin 1) (λ c.
        choice-IsSteady (is_pos (result c))
          (write-IsSteady data_free Stream.channel (contents c ++ drop 1 (eight_of buf)))
          (pure-IsSteady rc)))
      (pure-IsSteady rc))

resize-IsAside : (size : ℤ) → IsAside (resize size)
unfolding resize
resize-IsAside size = bind-IsSteady (call-IsSteady window_size (λ z t. refl)) (λ w_size.
    choice-IsSteady (same_size w_size size) (pure-IsSteady size)
      (call-IsSteady channel_pty_size (λ z t. refl) ⨾ pure-IsSteady w_size))

x11_clients-IsAside : (k : ℕ) (s : Store) → IsAside (x11_clients k s)
unfolding x11_clients
x11_clients-IsAside k s = bind-IsSteady (call-IsSteady x11_request (λ z t. refl)) (λ new.
    bind-IsSteady
      (choice-IsSteady (is_zero new) (pure-IsSteady s) (x11_callback-IsAside k s (pos_part new)))
      (λ s'. serve_clients-IsAside k s' s'.head))

pub x11_loop-IsAside : (k : ℕ) (s : Store) (size : ℤ) → IsAside (x11_loop k s size)
unfolding x11_loop
x11_loop-IsAside zero s size = spin-IsSteady
x11_loop-IsAside (suc k) s size = bind-IsSteady (resize-IsAside size) (λ size'.
    bind-IsSteady (call-IsSteady alloc_buf (λ z t. refl)) (λ memory.
      choice-IsSteady (is_zero memory) (pure-IsSteady tt) (
        bind-IsSteady (call-IsSteady alloc_fds (λ z t. refl)) (λ fds.
          choice-IsSteady (is_zero fds) (call-IsSteady free_buf (λ z t. refl) ⨾ pure-IsSteady tt) (
            bind-IsSteady show_shell-IsAside (λ buf. bind-IsSteady (x11_clients-IsAside k s) (λ s'.
              send_key-IsAside buf
              ⨾ call-IsSteady free_fds (λ z t. refl)
              ⨾ call-IsSteady free_buf (λ z t. refl)
              ⨾ bind-IsSteady (call-IsSteady channel_eof (λ z t. refl)) (λ eof.
                choice-IsSteady (is_one eof) (pure-IsSteady tt)
                  (x11_loop-IsAside k s' size')))))))))
