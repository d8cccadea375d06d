-- ===== src/Programs/Order/Relays.antt =====
-- The forwarding loops and the two message functions keep the order.
use cloudssh.Base.{
  ℕ, zero, suc, ◌+◌, ◌-◌, ◌&&◌, ◌||◌, Bool, Option, none, some, List, [], ◌++◌, refl, is_empty,
  length, ltb, if◌then◌else◌, take,
}
use cloudssh.Base.Int.{pos, pos_part, minus_one, is_zero, is_neg, is_pos, is_eagain, is_minus_one}
use cloudssh.Base.Text.{has_nul}
use cloudssh.Api.{Stream, Sock, Prog, result, contents, select_read, channel_eof, pure}
use cloudssh.Forward.{
  buf_size, to_channel, to_socket, drain_channel, take_from_socket, forward_round,
  direct_tcpip_loop, write_whole, tcpip_forward_loop,
}
use cloudssh.Netconf.{
  special_sequence, netconf_write_loop, netconf_write, read_until_loop, netconf_read_until,
}
use cloudssh.Programs.Order.{unit_label, Phase, Label}
use cloudssh.Programs.Order.Rules.{
  Leads, bind-Leads, ◌⨾◌, keep, write-Leads, read-Leads, either, pure-Leads, goto-Leads, spin-Leads,
  fault-Leads, advance-Leads,
}

-- A part of a program that needs the login and leaves it, with any label.
abbrev pub Relays : {J A : Type 0} ⦃label : Label J⦄ → (Phase → Bool) → Prog J A → Type 0
Relays may_fail m = Leads may_fail Phase.trusted m (λ a. Phase.trusted)

module _ {may_fail : Phase → Bool} {J : Type 0} ⦃label : Label J⦄ where
  module _ (j : J) where
    to_channel-Leads : (k : ℕ) (buf : List ℕ) → Relays may_fail (to_channel j k buf)
    unfolding to_channel
    to_channel-Leads zero buf = spin-Leads refl
    to_channel-Leads (suc k) buf = either (is_empty buf) (pure-Leads tt) (
        bind-Leads (write-Leads Stream.channel buf (λ z. refl)) (λ i.
          either (is_eagain i) (to_channel-Leads k buf) (
            either (is_neg i) (goto-Leads j refl)
              (bind-Leads (advance-Leads i buf refl) (λ rest. to_channel-Leads k rest)))))

    to_socket-Leads : (k : ℕ) (buf : List ℕ) → Relays may_fail (to_socket j k buf)
    unfolding to_socket
    to_socket-Leads zero buf = spin-Leads refl
    to_socket-Leads (suc k) buf = either (is_empty buf) (pure-Leads tt) (
        bind-Leads (write-Leads Stream.forward_sock buf (λ z. refl)) (λ i.
          either (is_pos i) (bind-Leads (advance-Leads i buf refl) (λ rest. to_socket-Leads k rest))
            (goto-Leads j refl)))

    drain_channel-Leads : (k : ℕ) → Relays may_fail (drain_channel j k)
    unfolding drain_channel
    drain_channel-Leads zero = spin-Leads refl
    drain_channel-Leads (suc k) =
        bind-Leads (read-Leads Stream.channel buf_size (λ z. refl)) (λ len.
          either (is_eagain (result len)) (pure-Leads tt) (
            either (is_neg (result len)) (goto-Leads j refl) (
              to_socket-Leads k (contents len)
              ⨾ bind-Leads (keep channel_eof (λ z. refl))
                  (λ eof. either (is_zero eof) (drain_channel-Leads k) (goto-Leads j refl)))))

    forward_round-Leads :
        (out : List ℕ → Prog J (Unit {0})) (k : ℕ)
        → ((buf : List ℕ) → Relays may_fail (out buf))
        → Relays may_fail (forward_round j out k)
    unfolding forward_round take_from_socket
    forward_round-Leads out k sends =
        bind-Leads (keep (select_read Sock.local_sock) (λ z. refl)) (λ rc.
          either (is_minus_one rc) (goto-Leads j refl) (
            either (is_zero rc) (pure-Leads {q = λ u. Phase.trusted} tt) (
              bind-Leads (read-Leads Stream.forward_sock buf_size (λ z. refl))
                (λ len. either (is_pos (result len)) (sends (contents len)) (goto-Leads j refl)))
            ⨾ drain_channel-Leads k))

    pub direct_tcpip_loop-Leads : (k : ℕ) → Relays may_fail (direct_tcpip_loop j k)
    unfolding direct_tcpip_loop
    direct_tcpip_loop-Leads zero = spin-Leads refl
    direct_tcpip_loop-Leads (suc k) =
        forward_round-Leads (to_channel j k) k (to_channel-Leads k) ⨾ direct_tcpip_loop-Leads k

    write_whole-Leads : (k wr : ℕ) (buf : List ℕ) → Relays may_fail (write_whole j k wr buf)
    unfolding write_whole
    write_whole-Leads zero wr buf = spin-Leads refl
    write_whole-Leads (suc k) wr buf = bind-Leads (write-Leads Stream.channel buf (λ z. refl)) (λ i.
        either (is_neg i) (goto-Leads j refl) (
          either (is_pos i && ltb (wr + pos_part i) (length buf))
            (write_whole-Leads k (wr + pos_part i) buf) (pure-Leads tt)))

    pub tcpip_forward_loop-Leads : (k : ℕ) → Relays may_fail (tcpip_forward_loop j k)
    unfolding tcpip_forward_loop
    tcpip_forward_loop-Leads zero = spin-Leads refl
    tcpip_forward_loop-Leads (suc k) =
        forward_round-Leads (write_whole j k 0) k (write_whole-Leads k 0)
        ⨾ tcpip_forward_loop-Leads k

  netconf_write_loop-Leads :
      (k wr : ℕ) (buf : List ℕ) → Relays may_fail (netconf_write_loop {J = J} k wr buf)
  unfolding netconf_write_loop
  netconf_write_loop-Leads zero wr buf = spin-Leads refl
  netconf_write_loop-Leads (suc k) wr buf =
      bind-Leads (write-Leads Stream.channel buf (λ z. refl)) (λ i.
        either (is_neg i) (pure-Leads minus_one) (
          either (is_pos i && ltb (wr + pos_part i) (length buf))
            (netconf_write_loop-Leads k (wr + pos_part i) buf) (pure-Leads (pos 0))))

  pub netconf_write-Leads : (k : ℕ) (buf : List ℕ) → Relays may_fail (netconf_write {J = J} k buf)
  unfolding netconf_write
  netconf_write-Leads k buf = netconf_write_loop-Leads k 0 buf

  searched-Leads :
      (filled : List ℕ) (buflen : ℕ) (o : Option ℕ) (more : Prog J (Option (List ℕ)))
      → Relays may_fail more
      → Relays may_fail (elim o [
        | some rd ↦ pure {J = J} (some (take rd filled))
        | none ↦ if ltb (length filled) buflen then more else pure none
      ])
  searched-Leads filled buflen (some rd) more h = pure-Leads (some (take rd filled))
  searched-Leads filled buflen none more h = either (ltb (length filled) buflen) h (pure-Leads none)

  read_until_loop-Leads :
      (endtag : List ℕ) (buflen k : ℕ) (buf : List ℕ)
      → Relays may_fail (read_until_loop {J = J} endtag buflen k buf)
  unfolding read_until_loop
  read_until_loop-Leads endtag buflen zero buf = spin-Leads refl
  read_until_loop-Leads endtag buflen (suc k) buf =
      bind-Leads (read-Leads Stream.channel (buflen - length buf) (λ z. refl)) (λ len.
        either (is_eagain (result len))
          (either (ltb (length buf) buflen) (read_until_loop-Leads endtag buflen k buf)
            (pure-Leads none))
          (either (is_neg (result len)) (pure-Leads none) (
            either (ltb (length (buf ++ contents len)) buflen || has_nul (buf ++ contents len))
              (searched-Leads (buf ++ contents len) buflen
                (special_sequence endtag (buf ++ contents len))
                (read_until_loop endtag buflen k (buf ++ contents len))
                (read_until_loop-Leads endtag buflen k (buf ++ contents len)))
              (fault-Leads refl))))

  pub netconf_read_until-Leads :
      (k : ℕ) (endtag : List ℕ) (buflen : ℕ)
      → Relays may_fail (netconf_read_until {J = J} k endtag buflen)
  unfolding netconf_read_until
  netconf_read_until-Leads k endtag buflen = read_until_loop-Leads endtag buflen k []
