-- ===== src/Api/Wait.antt =====
-- `waitsocket`, of which each non-blocking program has a copy.
use cloudssh.Base.{ℕ, ◌%◌, ◌/◌, Bool, ◌==◌}
use cloudssh.Base.Int.{ℤ, pos_part}
use cloudssh.Api.Calls.{wait_socket, block_directions}
use cloudssh.Api.Action.{Prog, call, ◌>>=◌}

-- LIBSSH2_SESSION_BLOCK_INBOUND is 1 and LIBSSH2_SESSION_BLOCK_OUTBOUND is 2.
abbrev pub inbound : ℕ → Bool
inbound dir = dir % 2 == 1

abbrev pub outbound : ℕ → Bool
outbound dir = dir / 2 % 2 == 1

-- The socket is in the read set if libssh2 is blocked on reading, and in the write set if it is
-- blocked on writing; the result is that of `select`.
unfoldable pub waitsocket : {J : Type 0} → Prog J ℤ
waitsocket = do
  dir ← call block_directions
  call (wait_socket (inbound (pos_part dir)) (outbound (pos_part dir)))
