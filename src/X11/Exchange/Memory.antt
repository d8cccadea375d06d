-- ===== src/X11/Exchange/Memory.antt =====
-- The memory that `x11_send_receive` takes and gives back, and the data that it carries.
use cloudssh.Base.{ℕ, suc, ◌-◌, [], ◌∷◌, ◌≡◌, if◌then◌else◌}
use cloudssh.Base.Int.{ℤ, minus_one, is_zero}
use cloudssh.Api.{
  Stream, failed, Run, ret, undefined, Trace, called, wrote, took, received, offered, alloc_buf,
  alloc_fds, free_buf, free_fds,
}

-- The buffers and the poll descriptors that are allocated.
abbrev pub buffers : Trace → ℕ
buffers [] = 0
buffers (called alloc_buf z ∷ t) = if is_zero z then buffers t else suc (buffers t)
buffers (called free_buf z ∷ t) = buffers t - 1
buffers (called c z ∷ t) = buffers t
buffers (wrote s bs z ∷ t) = buffers t
buffers (took s n i ∷ t) = buffers t

abbrev pub descriptors : Trace → ℕ
descriptors [] = 0
descriptors (called alloc_fds z ∷ t) = if is_zero z then descriptors t else suc (descriptors t)
descriptors (called free_fds z ∷ t) = descriptors t - 1
descriptors (called c z ∷ t) = descriptors t
descriptors (wrote s bs z ∷ t) = descriptors t
descriptors (took s n i ∷ t) = descriptors t

-- In both directions all that came was offered to the other side.
abbrev pub IsCarried : ℕ → ℕ → Trace → Type 0
IsCarried channel sock t =
    (offered (Stream.x11_sock sock) t ≡ received (Stream.x11_channel channel) t)
    × (offered (Stream.x11_channel channel) t ≡ received (Stream.x11_sock sock) t)

-- What a call of the function does to the memory of the trace `t`: nothing in the end; or a poll
-- descriptor is lost, and the result is -1; or the function does what C leaves undefined, where a
-- read of the channel fails.
pub data Exchanged {J : Type 0} (channel sock : ℕ) (t : Trace) : Run J ℤ → Type 0 where
  balanced :
      {z : ℤ} {u : Trace}
      → buffers u ≡ buffers t
      → descriptors u ≡ descriptors t
      → IsCarried channel sock u
      → Exchanged channel sock t (ret z u)
  descriptor_lost :
      {u : Trace}
      → buffers u ≡ buffers t
      → descriptors u ≡ suc (descriptors t)
      → IsCarried channel sock u
      → Exchanged channel sock t (ret minus_one u)
  read_failed :
      {u : Trace} {size e : ℕ}
      → Exchanged channel sock t (undefined (took (Stream.x11_channel channel) size (failed e) ∷ u))

-- With both blocks allocated.
abbrev Inside : ℕ → ℕ → Trace → Trace → Type 0
Inside channel sock t u =
    (buffers u ≡ suc (buffers t)) × (descriptors u ≡ suc (descriptors t)) × IsCarried channel sock u
