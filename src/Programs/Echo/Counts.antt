-- ===== src/Programs/Echo/Counts.antt =====
-- What the loop of the echo program counts.
use cloudssh.Base.{◌≤◌, ◌≡◌, length}
use cloudssh.Base.Int.{pos}
use cloudssh.Api.{Stream, Trace, sent, received, Exits}
use cloudssh.Programs.Echo.{Echo, bufsize, totsize}

-- The counters are right, no more than the total was sent, and the buffer has its size.
abbrev pub HasCounted : Echo → Trace → Type 0
HasCounted s t =
    (length (sent Stream.channel t) ≡ s.totwritten)
    × (length (received Stream.channel t) ≡ s.totread)
    × (s.totwritten ≤ totsize)
    × (length s.buffer ≡ bufsize)

abbrev pub counting : Exits (Unit {0})
counting = record {
  jumping = λ j t. ⊥;
  leaving = λ z t. z ≡ pos 1;
  running = λ t. length (sent Stream.channel t) ≤ totsize;
}
