-- ===== src/Wrapper/Ownership.antt =====
-- What SSH::SSH owns when it returns, and what it leaves open when it throws.
use Prim.Native.String.{String}
use cloudssh.Base.{
  ℕ, ◌%◌, ◌^◌, Bool, true, false, Option, none, some, [], ◌∷◌, ◌≡◌, refl, Bool-cases, inl, inr,
  if◌then◌else◌, ◌⊎◌, ◌==◌,
}
use cloudssh.Base.Int.{is_zero, is_minus_one}
use cloudssh.Base.Text.{codes}
use cloudssh.Auth.{offers}
use cloudssh.Api.{
  Stream, Sock, Host, Method, Input, bytes, failed, Run, Trace, called, wrote, took, Env, lib_init,
  socket, connect, session_init, session_handshake, userauth, channel_open, channel_request_pty,
  channel_shell, ◌>>=◌, ◌>>◌, call, write, goto, pure, fault,
}
use cloudssh.Wrapper.{
  Counts, Cpp, no_objects, create_library, create_socket, libssh2_session, share_socket,
  is_password_auth_supported, new_channel, shell, drop_library, drop_socket, drop_session,
  drop_channel, local_variable, new_ssh, open_shell,
}
use cloudssh.Wrapper.Held.{
  held, IsAllocating, Leaves, no_library, library_kept, socket_lost, no_list,
}
use cloudssh.Wrapper.Scopes.{
  Ends, returned, threw, searched, At, at, by_counts, Dropped, by_either, OneHandle, TwoHandles,
  ThreeHandles, FourHandles, Ends-bind, unless_thrown, zero_or_thrown, set_member-Ends,
  local_variable-Ends,
}

-- The counts at the points of the constructor.
abbrev counts : ℕ → ℕ → ℕ → ℕ → Bool → Counts
counts l k s c b = record { library = l; sock = k; session = s; channel = c; linked = b }

-- The channel is owned by the client, the session by the channel, the socket by the session, and
-- the library by the session and by `Libssh2::ptr`.
abbrev pub one_each : Counts
one_each = counts 2 1 1 1 true

abbrev Unshared : Counts → Trace → Type 0
Unshared s t = At (counts 3 2 1 0 true) ThreeHandles s t ⊎ At (counts 3 2 2 1 true) FourHandles s t

abbrev shared : Counts
shared = counts 3 2 2 1 true

abbrev sessioned : Counts
sessioned = counts 3 2 1 0 true

-- Where an exception leaves the scope of `libssh2`.
abbrev Unlibraried : Counts → Trace → Type 0
Unlibraried s t = At (counts 1 0 0 0 false) Leaves s t ⊎ At (counts 2 1 1 1 true) FourHandles s t

module _ (env : Env) where
  shell-Ends :
      (term : String) (t : Trace)
      → FourHandles t
      → Ends Unshared (At shared FourHandles) (shell term shared env t)
  unfolding shell
  shell-Ends term t h =
      zero_or_thrown env (channel_request_pty term) shared t
        (call channel_shell >>= λ rc'. if is_zero rc' then pure shared else goto shared)
        (inr (at (rw h refl))) (last (called (channel_request_pty term) _ ∷ t) (rw h refl))
    where
      last :
          (u : Trace)
          → FourHandles u
          → Ends Unshared (At shared FourHandles) (
              (call channel_shell >>= λ rc'. if is_zero rc' then pure shared else goto shared) env
                u)
      last u h' = elim (Bool-cases (is_zero (env.reply u channel_shell))) [
        | inl e ↦ rw e (returned (at (rw h' refl)))
        | inr e ↦ rw e (threw (inr (at (rw h' refl))))
      ]

  new_channel-Ends :
      (t : Trace)
      → ThreeHandles t
      → Ends Unshared (At shared FourHandles) (new_channel sessioned env t)
  unfolding new_channel drop_session
  new_channel-Ends t h = elim (Bool-cases (is_zero (env.reply t channel_open))) [
    | inl e ↦ rw e (threw (inl (at (rw (h, e) refl))))
    | inr e ↦ rw e (returned (at (rw (h, e) refl)))
  ]

  is_password_auth_supported-Ends :
      {X : Counts → Trace → Type 0} (t : Trace)
      → Ends X (λ ok u. held u ≡ held t) (is_password_auth_supported env t)
  unfolding is_password_auth_supported
  is_password_auth_supported-Ends {X} t = answer (env.input t Stream.auth_methods 0)
    where
      answer :
          (i : Input)
          → Ends X
              (λ ok u. held u ≡ held t)
              ((elim i as (λ x. Cpp Bool) [
                | bytes text ↦ pure (offers "password" text)
                | failed n ↦ fault
              ])
                env
                (took Stream.auth_methods 0 i ∷ t))
      answer (bytes text) = returned refl
      answer (failed n) = searched no_list

  pub open_shell-Ends :
      (username password : String) (t : Trace)
      → ThreeHandles t
      → Ends Unshared
          (At shared FourHandles)
          (open_shell username password (counts 3 1 1 0 false) env t)
  unfolding open_shell share_socket
  open_shell-Ends username password t h =
      let c = userauth Method.password username password in
      let enter : Cpp Counts = new_channel sessioned >>= shell "xterm" in
      let prove : Cpp Counts =
        call c >>= λ z. (if is_zero z then pure sessioned else goto sessioned) >> enter in
      let ask : Cpp Counts = is_password_auth_supported >>= λ ok.
      (if ok then pure sessioned else goto sessioned) >> prove in
      zero_or_thrown env session_handshake sessioned t ask (inl (at (rw h refl))) (
        Ends-bind env (λ ok. (if ok then pure sessioned else goto sessioned) >> prove)
          (is_password_auth_supported-Ends (called session_handshake _ ∷ t))
          (λ ok u h'. unless_thrown env sessioned u ok prove (inl (at (rw h' (rw h refl)))) (
            zero_or_thrown env c sessioned u enter (inl (at (rw h' (rw h refl)))) (
              Ends-bind env (shell "xterm") (new_channel-Ends (called c _ ∷ u) (rw h' (rw h refl)))
                (by_counts (Dropped Unshared (At shared FourHandles) (shell "xterm") env)
                  (λ v held_all. shell-Ends "xterm" v held_all))))))

  -- The end of the scope of `session`.
  Unsessioned : Counts → Trace → Type 0
  Unsessioned s t =
      At (counts 2 1 0 0 false) TwoHandles s t ⊎ At (counts 3 2 1 1 true) FourHandles s t

  session_scope :
      (username password : String) (t : Trace)
      → ThreeHandles t
      → Ends Unsessioned
          (At (counts 3 2 1 1 true) FourHandles)
          (local_variable drop_session (open_shell username password (counts 3 1 1 0 false)) env t)
  unfolding Unsessioned drop_session drop_socket drop_library
  session_scope username password t h =
      local_variable-Ends env drop_session (open_shell username password (counts 3 1 1 0 false)) t
        (open_shell-Ends username password t h)
        (by_counts (Dropped Unsessioned (At (counts 3 2 1 1 true) FourHandles) drop_session env)
          (λ u h'. returned (at h')))
        (by_either
          (by_counts (Dropped Unsessioned Unsessioned drop_session env)
            (λ u h'. returned (inl (at (rw h' refl)))))
          (by_counts (Dropped Unsessioned Unsessioned drop_session env)
            (λ u h'. returned (inr (at h')))))

  -- The end of the scope of `socket`.
  Unsocketed : Counts → Trace → Type 0
  Unsocketed s t = At (counts 2 0 0 0 false) Leaves s t ⊎ At (counts 3 1 1 1 true) FourHandles s t

  socket_scope :
      (username password : String) (t : Trace)
      → IsAllocating env
      → TwoHandles t
      → Ends Unsocketed (At (counts 3 1 1 1 true) FourHandles) (
          local_variable drop_socket
            (libssh2_session (counts 2 1 0 0 false) >>= λ s₃.
              local_variable drop_session (open_shell username password s₃))
            env
            t)
  unfolding Unsocketed Unsessioned libssh2_session drop_socket
  socket_scope username password t allocating h =
      local_variable-Ends env drop_socket
        (libssh2_session (counts 2 1 0 0 false) >>= λ s₃.
          local_variable drop_session (open_shell username password s₃))
        t
        (session_scope username password (called session_init (env.reply t session_init) ∷ t)
          (rw (h, allocating.session_at t) refl))
        (by_counts (Dropped Unsocketed (At (counts 3 1 1 1 true) FourHandles) drop_socket env)
          (λ u h'. returned (at h')))
        (by_either
          (by_counts (Dropped Unsocketed Unsocketed drop_socket env)
            (λ u h'. returned (inl (at (library_kept (rw h' refl))))))
          (by_counts (Dropped Unsocketed Unsocketed drop_socket env)
            (λ u h'. returned (inr (at h')))))

  create_socket-Ends :
      (hostname : Option String) (port : ℕ) (t : Trace)
      → OneHandle t
      → Ends Unsocketed
          (At (counts 2 1 0 0 false) TwoHandles)
          (create_socket hostname port (counts 2 0 0 0 false) env t)
  unfolding create_socket Unsocketed
  create_socket-Ends hostname port t h =
      let sock = env.reply t (socket Sock.ssh_sock) in
      elim (Bool-cases (is_minus_one sock)) [
        | inl e ↦ rw e (threw (inl (at (library_kept (rw (h, e) refl)))))
        | inr e ↦ rw e (reached hostname (called (socket Sock.ssh_sock) sock ∷ t) (rw (h, e) refl))
      ]
    where
      reached :
          (hostname : Option String) (u : Trace)
          → TwoHandles u
          → Ends Unsocketed (At (counts 2 1 0 0 false) TwoHandles) (
              (elim hostname as (λ x. Cpp Counts) [
                | none ↦ pure (counts 2 1 0 0 false)
                | some addr ↦
                    write Stream.stdout (codes "setting connection...\n")
                    >> (call (connect Sock.ssh_sock (Host.address addr) (port % 2 ^ 16)) >>= λ rc.
                        if is_zero rc
                        then pure (counts 2 1 0 0 false)
                        else goto (counts 2 0 0 0 false))
              ])
                env u)
      reached none u h' = returned (at h')
      reached (some addr) u h' =
          let told = codes "setting connection...\n" in
          let v : Trace = wrote Stream.stdout told (env.accept u Stream.stdout told) ∷ u in
          let rc = env.reply v (connect Sock.ssh_sock (Host.address addr) (port % 2 ^ 16)) in
          elim (Bool-cases (is_zero rc)) [
            | inl e ↦ rw e (returned (at (rw h' refl)))
            | inr e ↦ rw e (threw (inl (at (socket_lost {t = v} h' e))))
          ]

  -- The end of the scope of `libssh2`.
  library_scope :
      (hostname : Option String) (port : ℕ) (username password : String) (t : Trace)
      → IsAllocating env
      → OneHandle t
      → Ends Unlibraried (At one_each FourHandles) (
          local_variable drop_library
            (create_socket hostname port (counts 2 0 0 0 false) >>= λ s₂.
              local_variable drop_socket (
                libssh2_session s₂ >>= λ s₃.
                local_variable drop_session (open_shell username password s₃)))
            env
            t)
  unfolding Unsocketed drop_library
  library_scope hostname port username password t allocating h =
      let within : Counts → Cpp Counts = λ s₂. local_variable drop_socket (
        libssh2_session s₂ >>= λ s₃.
        local_variable drop_session (open_shell username password s₃)) in
      local_variable-Ends env drop_library
        (create_socket hostname port (counts 2 0 0 0 false) >>= within) t
        (Ends-bind env within (create_socket-Ends hostname port t h) (
          by_counts (Dropped Unsocketed (At (counts 3 1 1 1 true) FourHandles) within env)
            (λ u h'. socket_scope username password u allocating h')))
        (by_counts (Dropped Unlibraried (At one_each FourHandles) drop_library env)
          (λ u h'. returned (at h')))
        (by_either
          (by_counts (Dropped Unlibraried Unlibraried drop_library env)
            (λ u h'. returned (inl (at h'))))
          (by_counts (Dropped Unlibraried Unlibraried drop_library env)
            (λ u h'. returned (inr (at h')))))

-- An exception has destroyed all objects but the library.
abbrev pub Undone : Counts → Trace → Type 0
Undone s t = (s.channel ≡ 0) × (s.session ≡ 0) × (s.sock ≡ 0) × Leaves t

abbrev Failed : Counts → Trace → Type 0
Failed s t = At no_objects Leaves s t ⊎ Unlibraried s t

abbrev body : Option String → ℕ → String → String → Counts → Cpp Counts
body hostname port username password s₁ = local_variable drop_library (
    create_socket hostname port s₁ >>= λ s₂.
    local_variable drop_socket
      (libssh2_session s₂ >>= λ s₃. local_variable drop_session (open_shell username password s₃)))

create_library-Ends :
    (env : Env)
    → Ends Failed (At (counts 2 0 0 0 false) OneHandle) (create_library no_objects env [])
unfolding create_library
create_library-Ends env = elim (Bool-cases (is_zero (env.reply [] lib_init))) [
  | inl e ↦ rw e (returned (at (rw e refl)))
  | inr e ↦ rw e (threw (inl (at (no_library (rw e refl)))))
]

abbrev member : Counts → Cpp Counts
member s = if s.channel == 0 then pure s else drop_channel s

-- SSH::SSH either returns, and then the library, the socket, the session and the channel are open,
-- one each, and owned in a chain that ends in the channel; or it throws, and then nothing is open
-- but the library, and the socket if its connection failed; or it searches a list of login methods
-- that is NULL. On the way nothing is released twice or before what depends on it. The session
-- must not be NULL.
pub new_ssh-Ends :
    (hostname : Option String) (port : ℕ) (username password : String) (env : Env)
    → IsAllocating env
    → Ends Undone
        (At one_each FourHandles)
        (new_ssh hostname port username password no_objects env [])
unfolding new_ssh drop_channel drop_session drop_socket drop_library
new_ssh-Ends hostname port username password env allocating =
    let rest = body hostname port username password in
    set_member-Ends env drop_channel (λ s. s.channel) (create_library no_objects >>= rest) []
      (Ends-bind env rest (create_library-Ends env) (
        by_counts (λ s u. Ends Failed (At one_each FourHandles) (rest s env u))
          (λ u h. widen (library_scope env hostname port username password u allocating h))))
      (by_either
        (by_counts (Dropped Undone Undone member env) (λ u h. returned (refl, refl, refl, h)))
        (by_either
          (by_counts (Dropped Undone Undone member env) (λ u h. returned (refl, refl, refl, h)))
          (by_counts (Dropped Undone Undone member env)
            (λ u h. returned (refl, refl, refl, library_kept (rw h refl))))))
  where
    widen :
        {run : Run Counts Counts}
        → Ends Unlibraried (At one_each FourHandles) run
        → Ends Failed (At one_each FourHandles) run
    widen (returned q) = returned q
    widen (threw x) = threw (inr x)
    widen (searched n) = searched n
