-- ===== src/Forward/Relay.antt =====
-- direct_tcpip.c relays both directions in order, without loss or repetition.
use cloudssh.Base.{
  ℕ, zero, suc, ◌≡◌, refl, sym, ◌∙◌, ap, inl, inr, true, List, [], ◌∷◌, ◌++◌, append-nil,
  Bool-cases, is_empty, drop, is_empty→nil,
}
use cloudssh.Base.Int.{
  ℤ, is_neg, is_pos, is_zero, is_minus_one, is_eagain, pos_part, eagain_neg, eagain_not_pos,
}
use cloudssh.Api.{
  Stream, Sock, Input, Prog, Env, Trace, took, wrote, called, contents, result, sent, received,
  sent-wrote, sent-failed, received-took, IsHonest, Exits, Meets, returns, jumps, spins, Meets-bind,
  advance_within, select_read, channel_eof,
}
use cloudssh.Upload.Chunk.{sent_rest}
use cloudssh.Download.Copy.{contents_of_error}
use cloudssh.Forward.{
  buf_size, to_channel, to_socket, drain_channel, forward_round, take_from_socket,
  direct_tcpip_loop,
}

-- `buf` came from `src` and is not yet sent to `dst`.
abbrev pub Pending : Stream → Stream → Trace → List ℕ → Type 0
Pending src dst t buf = sent dst t ++ buf ≡ received src t

-- All that came from `src` is sent to `dst`.
abbrev pub IsRelayed : Stream → Stream → Trace → Type 0
IsRelayed src dst t = sent dst t ≡ received src t

-- What is sent is a first part of what came, in each direction.
abbrev pub IsPartRelayed : Trace → Type 0
IsPartRelayed t =
    ((rest : List ℕ) × Pending Stream.forward_sock Stream.channel t rest)
    × ((rest : List ℕ) × Pending Stream.channel Stream.forward_sock t rest)

abbrev pub BothRelayed : Trace → Type 0
BothRelayed t =
    IsRelayed Stream.forward_sock Stream.channel t × IsRelayed Stream.channel Stream.forward_sock t

-- A loop may jump to `shutdown` at any time.
abbrev pub jumping_off : {J : Type 0} → Exits J
jumping_off = record {
  jumping = λ j t. IsPartRelayed t;
  leaving = λ z t. ⊥;
  running = IsPartRelayed;
}

module _ (src dst : Stream) (t : Trace) where
  pub part_of : IsRelayed src dst t → (rest : List ℕ) × Pending src dst t rest
  part_of e = ([], append-nil (sent dst t) ∙ e)

  Pending-nil : (buf : List ℕ) → Pending src dst t buf → buf ≡ [] → IsRelayed src dst t
  Pending-nil buf p e = sym (append-nil (sent dst t)) ∙ ap (λ l. sent dst t ++ l) (sym e) ∙ p

  Pending-empty : (buf : List ℕ) → Pending src dst t buf → is_empty buf ≡ true → IsRelayed src dst t
  Pending-empty buf p e = Pending-nil buf p (is_empty→nil buf e)

  -- The next buffer is what came and is not sent.
  Pending-took :
      (n : ℕ) (i : Input) → IsRelayed src dst t → Pending src dst (took src n i ∷ t) (contents i)
  unfolding sent
  Pending-took n i e = rw (received-took src n i t, e)

  module _ (buf : List ℕ) (z : ℤ) (p : Pending src dst t buf) where
    Pending-failed : is_neg z ≡ true → Pending src dst (wrote dst buf z ∷ t) buf
    unfolding received
    Pending-failed bad = ap (λ l. l ++ buf) (sent-failed dst buf z t bad) ∙ p

    Pending-wrote : Pending src dst (wrote dst buf z ∷ t) (drop (pos_part z) buf)
    unfolding received
    Pending-wrote = sent_rest (sent dst t) (pos_part z) buf (sent-wrote dst buf z t) refl ∙ p

abbrev sock : Stream
sock = Stream.forward_sock

abbrev chan : Stream
chan = Stream.channel

module _ {J : Type 0} {env : Env} (j : J) (honest : IsHonest env Stream.channel)
    (honest_sock : IsHonest env Stream.forward_sock) where
  pub to_channel-relays :
      (k : ℕ) (t : Trace) (buf : List ℕ)
      → Pending Stream.forward_sock Stream.channel t buf
      → IsRelayed Stream.channel Stream.forward_sock t
      → Meets jumping_off (λ _. BothRelayed) (to_channel j k buf env t)
  unfolding to_channel sent received
  to_channel-relays zero t buf p r = spins ((buf, p), part_of chan sock t r)
  to_channel-relays (suc k) t buf p r =
      let z = env.accept t Stream.channel buf in
      let u = wrote Stream.channel buf z ∷ t in
      elim (Bool-cases (is_empty buf)) [
        | inl none_left ↦ rw none_left (returns (Pending-empty sock chan t buf p none_left, r))
        | inr more ↦ rw more (elim (Bool-cases (is_eagain z)) [
          | inl again ↦ rw again (
              to_channel-relays k u buf (Pending-failed sock chan t buf z p (eagain_neg z again)) r)
          | inr go ↦ rw go (elim (Bool-cases (is_neg z)) [
            | inl bad ↦
                rw bad
                  (jumps ((buf, Pending-failed sock chan t buf z p bad), part_of chan sock t r))
            | inr ok ↦
                rw (ok, advance_within z buf env u (honest.accepts t buf))
                  (to_channel-relays k u _ (Pending-wrote sock chan t buf z p) r)
          ])
        ])
      ]

  pub to_socket-relays :
      (k : ℕ) (t : Trace) (buf : List ℕ)
      → Pending Stream.channel Stream.forward_sock t buf
      → IsRelayed Stream.forward_sock Stream.channel t
      → Meets jumping_off (λ _. BothRelayed) (to_socket j k buf env t)
  unfolding to_socket sent received
  to_socket-relays zero t buf p r = spins (part_of sock chan t r, (buf, p))
  to_socket-relays (suc k) t buf p r =
      let z = env.accept t sock buf in
      let u = wrote sock buf z ∷ t in
      let rest = drop (pos_part z) buf in
      let p' = Pending-wrote chan sock t buf z p in
      elim (Bool-cases (is_empty buf)) [
        | inl none_left ↦ rw none_left (returns (r, Pending-empty chan sock t buf p none_left))
        | inr more ↦ rw more (elim (Bool-cases (is_pos z)) [
          | inl ok ↦
              rw (ok, advance_within z buf env u (honest_sock.accepts t buf))
                (to_socket-relays k u rest p' r)
          | inr bad ↦ rw bad (jumps (part_of sock chan t r, (rest, p')))
        ])
      ]

  pub drain_channel-relays :
      (k : ℕ) (t : Trace)
      → BothRelayed t
      → Meets jumping_off (λ _. BothRelayed) (drain_channel j k env t)
  unfolding drain_channel sent received
  drain_channel-relays zero t (a, b) = spins (part_of sock chan t a, part_of chan sock t b)
  drain_channel-relays (suc k) t (a, b) =
      let i = env.input t chan buf_size in
      let u = took chan buf_size i ∷ t in
      let p : Pending chan sock u (contents i) = Pending-took chan sock t buf_size i b in
      elim (Bool-cases (is_eagain (result i))) [
        | inl wait ↦ rw wait (
            returns (
              a,
              Pending-nil chan sock u (contents i) p (contents_of_error i (eagain_not_pos _ wait)),
            ))
        | inr go ↦ rw go (elim (Bool-cases (is_neg (result i))) [
          | inl bad ↦ rw bad (jumps (part_of sock chan t a, (contents i, p)))
          | inr ok ↦ rw ok (
              Meets-bind _ env (to_socket-relays k u (contents i) p a) λ _ v both.
                let eof = env.reply v channel_eof in
                elim (Bool-cases (is_zero eof)) [
                  | inl no_eof ↦ rw no_eof (drain_channel-relays k _ both)
                  | inr ended ↦
                      rw ended (jumps (part_of sock chan v both.0, part_of chan sock v both.1))
                ])
        ])
      ]

  -- What a buffer that came from the socket is sent with.
  pub record Sends (out : List ℕ → Prog J (Unit {0})) : Type 0 where
    pub relays :
        (t : Trace) (buf : List ℕ)
        → Pending Stream.forward_sock Stream.channel t buf
        → IsRelayed Stream.channel Stream.forward_sock t
        → Meets jumping_off (λ _. BothRelayed) (out buf env t)

  take_from_socket-relays :
      {out : List ℕ → Prog J (Unit {0})}
      → Sends out
      → (rc : ℤ) (t : Trace) → BothRelayed t
      → Meets jumping_off (λ _. BothRelayed) (take_from_socket j out rc env t)
  unfolding take_from_socket sent received
  take_from_socket-relays sends rc t (a, b) =
      let i = env.input t sock buf_size in
      let p = Pending-took sock chan t buf_size i a in
      elim (Bool-cases (is_zero rc)) [
        | inl idle ↦ rw idle (returns (a, b))
        | inr ready ↦ rw ready (elim (Bool-cases (is_pos (result i))) [
          | inl ok ↦ rw ok (sends.relays _ (contents i) p b)
          | inr bad ↦ rw bad (jumps ((contents i, p), part_of chan sock t b))
        ])
      ]

  pub forward_round-relays :
      (out : List ℕ → Prog J (Unit {0}))
      → Sends out
      → (k : ℕ) (t : Trace) → BothRelayed t
      → Meets jumping_off (λ _. BothRelayed) (forward_round j out k env t)
  unfolding forward_round sent received
  forward_round-relays out sends k t (a, b) =
      let rc = env.reply t (select_read Sock.local_sock) in
      elim (Bool-cases (is_minus_one rc)) [
        | inl bad ↦ rw bad (jumps (part_of sock chan t a, part_of chan sock t b))
        | inr ok ↦ rw ok (
            Meets-bind _ env
              (take_from_socket-relays sends rc (called (select_read Sock.local_sock) rc ∷ t)
                (a, b))
              λ _ u both. drain_channel-relays k u both)
      ]

  -- direct_tcpip.c: at every point of the forwarding loop, in each direction, the bytes sent on are
  -- a first part of the bytes that came, in their order and each once. The loop leaves by the label
  -- `shutdown` alone.
  pub direct_tcpip_loop-relays :
      (k : ℕ) (t : Trace)
      → BothRelayed t
      → Meets {A = Unit {0}} jumping_off (λ _ _. ⊥) (direct_tcpip_loop j k env t)
  unfolding direct_tcpip_loop
  direct_tcpip_loop-relays zero t (a, b) = spins (part_of sock chan t a, part_of chan sock t b)
  direct_tcpip_loop-relays (suc k) t both =
      Meets-bind _ env
        (forward_round-relays (to_channel j k) (record { relays = to_channel-relays k }) k t both)
        λ _ u both'. direct_tcpip_loop-relays k u both'
