-- ===== src/Netconf/Write.antt =====
-- What `netconf_write` sends.
use cloudssh.Base.{ℕ, suc, ◌≡◌, ap, List, ◌++◌, ◌∷◌, length, take-length, ◌∙◌}
use cloudssh.Base.Int.{pos}
use cloudssh.Api.{Stream, Env, Trace, ret, wrote, sent, sent-wrote}
use cloudssh.Forward.Resend.{TakesAll, not_more}
use cloudssh.Netconf.{netconf_write}

module _ {J : Type 0} (env : Env) (k : ℕ) (t : Trace) (buf : List ℕ) where
  -- Where the channel takes a buffer whole, one call sends the message, and the result is 0.
  pub netconf_write-sends :
      TakesAll env Stream.channel
      → (u : Trace) × (netconf_write {J = J} (suc k) buf env t ≡ ret (pos 0) u)
        × (sent Stream.channel u ≡ sent Stream.channel t ++ buf)
  unfolding netconf_write
  netconf_write-sends all = (
    wrote Stream.channel buf (pos (length buf)) ∷ t,
    rw (all.all_at t buf, not_more (length buf)),
    sent-wrote Stream.channel buf (pos (length buf)) t
        ∙ ap (λ l. sent Stream.channel t ++ l) (take-length buf),
  )
