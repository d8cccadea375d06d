-- ===== src/Programs/Order/Forwarding.antt =====
-- The loops and the shared parts of the forwarding programs keep the order.
use Prim.Native.String.{String}
use cloudssh.Base.{ℕ, Bool, true, Option, none, some, ◌≡◌, refl}
use cloudssh.Base.Int.{ℤ, pos, minus_one, is_zero, is_minus_one}
use cloudssh.Api.{
  Stream, Sock, Host, Method, Input, bytes, failed, Call, socket, inet_addr, connect, channel_free,
  userauth, fault,
}
use cloudssh.Programs.Tunnel.{
  is_none_address, connect_address, selected_two, try_one, login_by_list, nonzero, not_minus_one,
  good_address, free_channel,
}
use cloudssh.Programs.Order.{unit_label, Phase, Label, kind_of, step}
use cloudssh.Programs.Order.Rules.{
  Leads, bind-Leads, ◌⨾◌, call-Leads, keep, read-Leads, test, either, pure-Leads, goto-Leads,
  fault-Leads, exit-Leads,
}

-- NULL or the channel: a channel comes after the login.
instance abbrev pub channel_label : Label ℤ
channel_label = record { untrusted = is_zero }

module _ {may_fail : Phase → Bool} where
  pub connect_address-Leads :
      (ip : String) (port : ℕ)
      → may_fail Phase.ready ≡ true
      → Leads may_fail Phase.ready (connect_address ip port) (λ z. Phase.linked)
  unfolding connect_address
  connect_address-Leads ip port early = bind-Leads (keep (socket Sock.ssh_sock) (λ z. refl)) (λ s.
      either (is_minus_one s) (exit-Leads minus_one early) (pure-Leads s)
      ⨾ bind-Leads (keep (inet_addr ip) (λ z. refl)) (λ a.
        either (is_none_address a) (exit-Leads minus_one early) (pure-Leads a)
        ⨾ bind-Leads (call-Leads (connect Sock.ssh_sock (Host.address ip) port))
            (λ z. test (is_zero z) (pure-Leads s) (exit-Leads minus_one early))))

  -- if (channel) libssh2_channel_free(channel);
  pub free_channel-trusted :
      (channel : ℤ) → Leads may_fail Phase.trusted (free_channel channel) (λ z. Phase.trusted)
  unfolding free_channel
  free_channel-trusted channel =
      either (is_zero channel) (pure-Leads (pos 0)) (keep channel_free (λ z. refl))

  pub free_channel-secured :
      (channel : ℤ)
      → is_zero channel ≡ true
      → Leads may_fail Phase.secured (free_channel channel) (λ z. Phase.secured)
  unfolding free_channel
  free_channel-secured channel none_open = rw none_open (pure-Leads (pos 0))

  module _ {J : Type 0} ⦃label : Label J⦄ (j : J) where
    try_one-Leads :
        (o : Option Method) (username password : String)
        → label.untrusted j ≡ true
        → Leads may_fail Phase.secured (try_one j o username password) (λ z. Phase.trusted)
    unfolding try_one
    try_one-Leads none username password may = goto-Leads j may
    try_one-Leads (some m) username password may =
        bind-Leads (call-Leads (userauth m username password))
          (λ z. test (is_zero z) (pure-Leads z) (goto-Leads j may))

    pub login_by_list-Leads :
        (option : Option String) (username password : String)
        → label.untrusted j ≡ true
        → Leads may_fail Phase.secured
            (login_by_list j option username password)
            (λ z. Phase.trusted)
    unfolding login_by_list
    login_by_list-Leads option username password may =
        bind-Leads (read-Leads Stream.auth_methods 0 (λ z. refl)) chosen
      where
        chosen :
            (i : Input)
            → Leads may_fail Phase.secured
                (elim i [
                  | bytes text ↦ try_one j (selected_two option text) username password
                  | failed n ↦ fault
                ])
                (λ z. Phase.trusted)
        chosen (bytes text) = try_one-Leads (selected_two option text) username password may
        chosen (failed n) = fault-Leads refl

    pub nonzero-Leads :
        (c : Call)
        → ((z : ℤ) → step Phase.trusted (kind_of c) z ≡ Phase.trusted)
        → Leads may_fail Phase.trusted (nonzero j c) (λ z. Phase.trusted)
    unfolding nonzero
    nonzero-Leads c stays =
        bind-Leads (keep c stays) (λ z. either (is_zero z) (goto-Leads j refl) (pure-Leads z))

    pub not_minus_one-Leads :
        (c : Call)
        → ((z : ℤ) → step Phase.trusted (kind_of c) z ≡ Phase.trusted)
        → Leads may_fail Phase.trusted (not_minus_one j c) (λ z. Phase.trusted)
    unfolding not_minus_one
    not_minus_one-Leads c stays =
        bind-Leads (keep c stays) (λ z. either (is_minus_one z) (goto-Leads j refl) (pure-Leads z))

    pub good_address-Leads :
        (ip : String) → Leads may_fail Phase.trusted (good_address j ip) (λ z. Phase.trusted)
    unfolding good_address
    good_address-Leads ip =
        bind-Leads (keep (inet_addr ip) (λ z. refl))
          (λ z. either (is_none_address z) (goto-Leads j refl) (pure-Leads z))
