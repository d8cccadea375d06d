-- ===== src/Tests/Wrapper.antt =====
-- The C++ client against a server with a shell, and against one that refuses the password.
use cloudssh.Base.{ℕ, ltb, some, [], ◌∷◌, refl, Bool, true, false, length, if◌then◌else◌}
use cloudssh.Base.Int.{ℤ, pos, minus_one}
use cloudssh.Base.Text.{codes}
use cloudssh.Api.{
  Env, Trace, Stream, Call, Input, bytes, received, lib_init, connect, session_handshake, userauth,
  channel_request_pty, channel_shell, channel_eof,
}
use cloudssh.Wrapper.{no_objects, new_ssh, connect_to_ssh}
use cloudssh.Wrapper.Held.{IsAllocating}
use cloudssh.Wrapper.Scopes.{Ends, At, FourHandles}
use cloudssh.Wrapper.Ownership.{one_each, Undone, new_ssh-Ends}
use cloudssh.Wrapper.Agreement.{Agrees, connect_to_ssh-Agrees}
use cloudssh.Wrapper.Client.{ssh_main}
use cloudssh.Wrapper.Client.Release.{Ended, ssh_main-Ended}

-- The end of the channel comes after some calls.
abbrev shell_reply : Trace → Call → ℤ
shell_reply t lib_init = pos 0
shell_reply t (connect s h p) = pos 0
shell_reply t session_handshake = pos 0
shell_reply t (userauth m u p) = pos 0
shell_reply t (channel_request_pty term) = pos 0
shell_reply t channel_shell = pos 0
shell_reply t channel_eof = if ltb (length t) 40 then pos 0 else pos 1
shell_reply t c = pos 1

abbrev letter : Bool → Input
letter true = bytes (104 ∷ [])
letter false = bytes []

-- The server and the keyboard send the same text.
abbrev shell_input : Trace → Stream → ℕ → Input
shell_input t Stream.auth_methods n = bytes (codes "publickey,password")
shell_input t s n = letter (ltb (length (received s t)) 3)

abbrev shell_server : Env
shell_server = record {
  reply = shell_reply;
  accept = λ t s bs. pos (length bs);
  input = shell_input;
}

-- The same server refuses the password.
abbrev refusing_reply : Trace → Call → ℤ
refusing_reply t (userauth m u p) = minus_one
refusing_reply t c = shell_reply t c

abbrev refusing_server : Env
refusing_server = record {
  reply = refusing_reply;
  accept = λ t s bs. pos (length bs);
  input = shell_input;
}

shell-IsAllocating : IsAllocating shell_server
shell-IsAllocating = record { session_at = λ t. refl }

refusing-IsAllocating : IsAllocating refusing_server
refusing-IsAllocating = record { session_at = λ t. refl }

new_ssh-Ends_example :
    Ends Undone
      (At one_each FourHandles)
      (new_ssh (some "10.0.0.1") 22 "user" "secret" no_objects refusing_server [])
new_ssh-Ends_example =
    new_ssh-Ends (some "10.0.0.1") 22 "user" "secret" refusing_server refusing-IsAllocating

connect_to_ssh-Agrees_example :
    Agrees
      (connect_to_ssh (some "10.0.0.1") 22 "user" "secret" no_objects refusing_server [])
      (new_ssh (some "10.0.0.1") 22 "user" "secret" no_objects refusing_server [])
connect_to_ssh-Agrees_example =
    connect_to_ssh-Agrees (some "10.0.0.1") 22 "user" "secret" refusing_server

ssh_main-Ended_example : Ended (ssh_main 20 shell_server [])
ssh_main-Ended_example = ssh_main-Ended 20 shell_server shell-IsAllocating
