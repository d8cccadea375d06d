-- ===== src/Wrapper/Agreement.antt =====
-- The two versions of the client's connection, src/libssh2/SSH.hpp and src/ssh.old.cpp.
use Prim.Native.String.{String}
use cloudssh.Base.{
  ℕ, not, if◌then◌else◌, ◌%◌, ◌^◌, Bool, true, false, Option, none, some, [], ◌∷◌, ◌≡◌, refl,
  Bool-cases, inl, inr,
}
use cloudssh.Base.Int.{is_zero, is_minus_one}
use cloudssh.Base.Text.{codes}
use cloudssh.Auth.{offers}
use cloudssh.Api.{
  Stream, Sock, Host, Method, Input, bytes, failed, Run, ret, jump, undefined, Call, Trace, called,
  wrote, took, Env, lib_init, socket, connect, session_init, session_handshake, userauth,
  channel_open, channel_request_pty, channel_shell, channel_free, ◌>>=◌, ◌>>◌, call, write, goto,
  pure, fault,
}
use cloudssh.Wrapper.{
  Counts, Cpp, no_objects, create_library, create_socket, libssh2_session, share_socket,
  is_password_auth_supported, new_channel, shell, drop_library, drop_socket, drop_session,
  drop_channel, local_variable, set_member, new_ssh, open_shell, try_shell, connect_to_ssh,
}

-- The first run returns where the second does, with the same shares and calls; it returns a null
-- pointer, or throws, where the second throws, after the same calls.
pub data Agrees : Run Counts Counts → Run Counts Counts → Type 0 where
  both_return : {s : Counts} {t : Trace} → Agrees (ret s t) (ret s t)
  null_returned : {s s' : Counts} {t : Trace} → s.channel ≡ 0 → Agrees (ret s t) (jump s' t)
  both_throw : {s s' : Counts} {t : Trace} → Agrees (jump s t) (jump s' t)
  both_undefined : {t : Trace} → Agrees (undefined t) (undefined t)

abbrev counts : ℕ → ℕ → ℕ → ℕ → Bool → Counts
counts l k s c b = record { library = l; sock = k; session = s; channel = c; linked = b }

abbrev sessioned : Counts
sessioned = counts 3 2 1 0 true

abbrev shared : Counts
shared = counts 3 2 2 1 true

module _ (env : Env) where
  -- The same within the scopes of the local variables, where connect_to_ssh has freed the channel
  -- already if its shell fails.
  data Matches : Run Counts Counts → Run Counts Counts → Type 0 where
    both_open : {t : Trace} → Matches (ret shared t) (ret shared t)
    refused : {t : Trace} → Matches (ret sessioned t) (jump sessioned t)
    no_channel : {t : Trace} → Matches (jump sessioned t) (jump sessioned t)
    no_shell :
        {t : Trace}
        → Matches
            (jump sessioned (called channel_free (env.reply t channel_free) ∷ t))
            (jump shared t)
    no_text : {t : Trace} → Matches (undefined t) (undefined t)

  -- The ends of the scopes.
  scopes : Run Counts Counts → Run Counts Counts
  scopes run =
      local_variable drop_library
        (local_variable drop_socket (local_variable drop_session (λ e u. run))) env []

  member : Run Counts Counts → Run Counts Counts
  member run = set_member drop_channel (λ s. s.channel) (λ e u. run) env []

  scopes-Agrees : {r r' : Run Counts Counts} → Matches r r' → Agrees (scopes r) (member (scopes r'))
  unfolding scopes member local_variable set_member drop_library drop_socket drop_session
      drop_channel
  scopes-Agrees both_open = both_return
  scopes-Agrees refused = null_returned refl
  scopes-Agrees no_channel = both_throw
  scopes-Agrees no_shell = both_throw
  scopes-Agrees no_text = both_undefined

  shells-Match :
      (t : Trace)
      → Matches
          (set_member drop_channel (λ s. s.channel) (shell "xterm" shared) env t)
          (shell "xterm" shared env t)
  unfolding set_member shell drop_channel drop_session
  shells-Match t =
      let c = channel_request_pty "xterm" in
      let u : Trace = called c (env.reply t c) ∷ t in
      elim (Bool-cases (is_zero (env.reply t c))) [
        | inr e ↦ rw (e, set_member) no_shell
        | inl e ↦ elim (Bool-cases (is_zero (env.reply u channel_shell))) [
          | inr e' ↦ rw (e, e', set_member) no_shell
          | inl e' ↦ rw (e, e', set_member) both_open
        ]
      ]

  -- The statements from the channel on, from the password on, and from the list of methods on.
  old_shell : Cpp Counts
  old_shell =
      new_channel sessioned >>= λ s. set_member drop_channel (λ s. s.channel) (shell "xterm" s)

  new_shell : Cpp Counts
  new_shell = new_channel sessioned >>= shell "xterm"

  shell_parts-Match : (t : Trace) → Matches (old_shell env t) (new_shell env t)
  unfolding old_shell new_shell new_channel drop_session
  shell_parts-Match t = elim (Bool-cases (is_zero (env.reply t channel_open))) [
    | inl e ↦ rw e no_channel
    | inr e ↦ rw e (shells-Match (called channel_open _ ∷ t))
  ]

  module _ (c : Call) where
    old_proof : Bool → Cpp Counts
    unfolding old_shell
    old_proof ok =
        if not ok
        then pure sessioned
        else (do accepted ← call c; if not (is_zero accepted) then pure sessioned else old_shell)

    new_proof : Bool → Cpp Counts
    unfolding new_shell
    new_proof ok = do
      if ok then pure sessioned else goto sessioned
      accepted ← call c
      if is_zero accepted then pure sessioned else goto sessioned
      new_shell

    proofs-Match : (ok : Bool) (t : Trace) → Matches (old_proof ok env t) (new_proof ok env t)
    unfolding old_proof new_proof
    proofs-Match false t = refused
    proofs-Match true t = elim (Bool-cases (is_zero (env.reply t c))) [
      | inl e ↦ rw e (shell_parts-Match (called c _ ∷ t))
      | inr e ↦ rw e refused
    ]

    listed-Match :
        (t : Trace)
        → Matches
            ((is_password_auth_supported >>= old_proof) env t)
            ((is_password_auth_supported >>= new_proof) env t)
    unfolding is_password_auth_supported
    listed-Match t = given (env.input t Stream.auth_methods 0)
      where
        list : Input → Cpp Bool
        list i = elim i [ bytes text ↦ pure (offers "password" text) | failed n ↦ fault ]

        given :
            (i : Input)
            → Matches
                ((list i >>= old_proof) env (took Stream.auth_methods 0 i ∷ t))
                ((list i >>= new_proof) env (took Stream.auth_methods 0 i ∷ t))
        given (bytes text) = proofs-Match (offers "password" text) _
        given (failed n) = no_text

  bodies-Match :
      (username password : String) (t : Trace)
      → Matches
          (try_shell username password (counts 3 1 1 0 false) env t)
          (open_shell username password (counts 3 1 1 0 false) env t)
  unfolding try_shell open_shell share_socket old_proof new_proof
  bodies-Match username password t = elim (Bool-cases (is_zero (env.reply t session_handshake))) [
    | inr e ↦ rw e refused
    | inl e ↦
        rw e (
          listed-Match (userauth Method.password username password)
            (called session_handshake _ ∷ t))
  ]

  module _ (username password : String) where
    old_session : Counts → Cpp Counts
    unfolding libssh2_session local_variable drop_socket
    old_session s₂ =
        local_variable drop_socket
          (do s₃ ← libssh2_session s₂; local_variable drop_session (try_shell username password s₃))

    new_ssh_session : Counts → Cpp Counts
    unfolding libssh2_session local_variable drop_socket
    new_ssh_session s₂ =
        local_variable drop_socket (do
          s₃ ← libssh2_session s₂
          local_variable drop_session (open_shell username password s₃))

    sessions-Agree :
        (t : Trace)
        → Agrees (local_variable drop_library (old_session (counts 2 1 0 0 false)) env t) (
            set_member drop_channel
              (λ s. s.channel)
              (local_variable drop_library (new_ssh_session (counts 2 1 0 0 false)))
              env
              t)
    unfolding old_session new_ssh_session scopes member libssh2_session local_variable set_member
    sessions-Agree t = scopes-Agrees (bodies-Match username password (called session_init _ ∷ t))

    connected : Option String → ℕ → Cpp Counts
    connected hostaddr port = elim hostaddr [
      | none ↦ pure (counts 2 1 0 0 false)
      | some addr ↦ (do
        write Stream.stdout (codes "setting connection...\n")
        rc ← call (connect Sock.ssh_sock (Host.address addr) (port % 2 ^ 16))
        if is_zero rc then pure (counts 2 1 0 0 false) else goto (counts 2 0 0 0 false))
    ]

    connected-Agrees :
        (hostname : Option String) (port : ℕ) (t : Trace)
        → Agrees (local_variable drop_library (connected hostname port >>= old_session) env t) (
            set_member drop_channel
              (λ s. s.channel)
              (local_variable drop_library (connected hostname port >>= new_ssh_session))
              env
              t)
    unfolding connected local_variable set_member drop_library
    connected-Agrees none port t = sessions-Agree t
    connected-Agrees (some addr) port t =
        let c = connect Sock.ssh_sock (Host.address addr) (port % 2 ^ 16) in
        let told = codes "setting connection...\n" in
        let u : Trace = wrote Stream.stdout told (env.accept t Stream.stdout told) ∷ t in
        elim (Bool-cases (is_zero (env.reply u c))) [
          | inl e ↦ rw (e, local_variable, set_member) (sessions-Agree (called c _ ∷ u))
          | inr e ↦ rw (e, local_variable, set_member) both_throw
        ]

    sockets-Agree :
        (hostname : Option String) (port : ℕ) (t : Trace)
        → Agrees
            (local_variable drop_library
              (create_socket hostname port (counts 2 0 0 0 false) >>= old_session)
              env
              t)
            (set_member drop_channel
              (λ s. s.channel)
              (local_variable drop_library
                (create_socket hostname port (counts 2 0 0 0 false) >>= new_ssh_session))
              env
              t)
    unfolding create_socket connected local_variable set_member drop_library
    sockets-Agree hostname port t =
        let c = socket Sock.ssh_sock in
        elim (Bool-cases (is_minus_one (env.reply t c))) [
          | inl e ↦ rw (e, local_variable, set_member) both_throw
          | inr e ↦
              rw (e, local_variable, set_member) (connected-Agrees hostname port (called c _ ∷ t))
        ]

-- SSH::SSH and connect_to_ssh make the same calls in the same order, whatever is answered. Where the
-- one returns, so does the other, with the same shares; where SSH::SSH throws, connect_to_ssh
-- throws or returns a null pointer.
pub connect_to_ssh-Agrees :
    (hostname : Option String) (port : ℕ) (username password : String) (env : Env)
    → Agrees
        (connect_to_ssh hostname port username password no_objects env [])
        (new_ssh hostname port username password no_objects env [])
unfolding connect_to_ssh new_ssh create_library set_member old_session new_ssh_session
connect_to_ssh-Agrees hostname port username password env =
    elim (Bool-cases (is_zero (env.reply [] lib_init))) [
      | inr e ↦ rw (e, set_member) both_throw
      | inl e ↦
          rw (e, set_member)
            (sockets-Agree env username password hostname port (called lib_init _ ∷ []))
    ]
