-- ===== src/Wrapper/Client/Terminal.antt =====
-- What src/ssh.cpp carries between the terminal and the server.
use cloudssh.Base.{ℕ, ◌<◌, ◌==◌, true, false, [], ◌∷◌, length, ◌≡◌, ◌⊎◌}
use cloudssh.Base.Int.{pos, is_neg, is_eagain}
use cloudssh.Base.Text.{has_nul}
use cloudssh.Api.{Stream, Trace, Env, result, contents, received, sent, offered, Exits}
use cloudssh.Wrapper.{Counts}
use cloudssh.Wrapper.Client.{obuf_size}

-- A server that sends text without a 0 and never fills the buffer, a channel whose reads fail only
-- to wait and whose writes take the one byte, and a keyboard that types no 0.
pub record IsTerminal (env : Env) : Type 0 where
  pub text_at : (t : Trace) → has_nul (contents (env.input t Stream.channel obuf_size)) ≡ false
  pub fits_at : (t : Trace) → length (contents (env.input t Stream.channel obuf_size)) < obuf_size
  pub waits_at :
      (t : Trace)
      → is_neg (result (env.input t Stream.channel obuf_size)) ≡ true
      → is_eagain (result (env.input t Stream.channel obuf_size)) ≡ true
  pub typed_at :
      (t : Trace)
      → (contents (env.input t Stream.stdin 1) ≡ [])
        ⊎ ((c : ℕ) × (contents (env.input t Stream.stdin 1) ≡ c ∷ []) × ((c == 0) ≡ false))
  pub takes_at : (t : Trace) (c : ℕ) → env.accept t Stream.channel (c ∷ []) ≡ pos 1

-- The server got what was typed, and the terminal shows what the server sent.
abbrev pub IsCarried : Trace → Type 0
IsCarried t =
    (sent Stream.channel t ≡ received Stream.stdin t)
    × (offered Stream.stdout t ≡ received Stream.channel t)

abbrev pub carrying : Exits Counts
carrying = record { jumping = λ j t. ⊥; leaving = λ z t. ⊥; running = IsCarried }
