-- ===== src/Forward/Resend.antt =====
-- tcpip-forward.c offers the whole buffer in every call of its write loop: it relays correctly
-- where each call takes the whole buffer, and repeats data where one takes a part.
use cloudssh.Base.{
  ℕ, zero, suc, ◌+◌, ◌≤◌, ◌≡◌, ◌∙◌, ap, false, ◌&&◌, List, ◌++◌, arith, length, ltb, take-length,
}
use cloudssh.Base.Int.{pos, is_pos}
use cloudssh.Api.{Stream, Env, Trace, sent, received, IsHonest, Meets, returns, spins, Meets-bind}
use cloudssh.Forward.{write_whole, tcpip_forward_loop}
use cloudssh.Forward.Relay.{
  Pending, IsRelayed, BothRelayed, jumping_off, forward_round-relays, part_of,
}

-- Every write is taken whole.
pub record TakesAll (env : Env) (s : Stream) : Type 0 where
  pub all_at : (t : Trace) (bs : List ℕ) → env.accept t s bs ≡ pos (length bs)

pub not_more : (n : ℕ) → (is_pos (pos n) && ltb (0 + n) n) ≡ false
not_more n = ground arith

pub at_end : (n p q : ℕ) → n ≤ suc p + q → (is_pos (pos q) && ltb (0 + suc p + q) n) ≡ false
at_end n p q h = ground arith

module _ {J : Type 0} {env : Env} (j : J) (all : TakesAll env Stream.channel) where
  write_whole-relays :
      (k : ℕ) (t : Trace) (buf : List ℕ)
      → Pending Stream.forward_sock Stream.channel t buf
      → IsRelayed Stream.channel Stream.forward_sock t
      → Meets jumping_off (λ _. BothRelayed) (write_whole j k 0 buf env t)
  unfolding write_whole sent received
  write_whole-relays zero t buf p r =
      spins ((buf, p), part_of Stream.channel Stream.forward_sock t r)
  write_whole-relays (suc k) t buf p r =
      rw (all.all_at t buf, not_more (length buf))
        (returns (ap (λ l. sent Stream.channel t ++ l) (take-length buf) ∙ p, r))

  -- tcpip-forward.c, where the channel takes each buffer whole: in each direction the bytes sent on
  -- are a first part of the bytes that came, at every point of the loop.
  pub tcpip_forward_loop-relays :
      (k : ℕ) (t : Trace)
      → IsHonest env Stream.channel
      → IsHonest env Stream.forward_sock
      → BothRelayed t
      → Meets {A = Unit {0}} jumping_off (λ _ _. ⊥) (tcpip_forward_loop j k env t)
  unfolding tcpip_forward_loop
  tcpip_forward_loop-relays zero t h h' (a, b) = spins (
    part_of Stream.forward_sock Stream.channel t a,
    part_of Stream.channel Stream.forward_sock t b,
  )
  tcpip_forward_loop-relays (suc k) t h h' both =
      Meets-bind _ env
        (forward_round-relays j h h' (write_whole j k 0) (record { relays = write_whole-relays k })
          k t both)
        λ _ u both'. tcpip_forward_loop-relays k u h h' both'
