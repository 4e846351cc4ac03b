-- ===== src/Relay/Off.antt =====
-- The receiving thread while the DHCP relay and the UDP forwarder are disabled.
use ops_ipapps.Base.{
  ℕ, ◌≡◌, refl, ◌∙◌, ap, Option, none, some, List, [], ◌∷◌, ◌==◌, if_elim, Text, not,
}
use ops_ipapps.Packet.{store_bytes}
use ops_ipapps.Feature.{dhcp_relay, udp_bcast_forwarder, disable, get_feature_status}
use ops_ipapps.Ifaddrs.{no_index}
use ops_ipapps.Relay.{PktInfo, State, Env}
use ops_ipapps.Relay.Receive.{
  Datagram, go_on, pktinfo_of, ctrl, ctrl_from, ctrl_with, receive, packet_recv,
}

-- Both features are off.
pub record IsOff (env : Env) : Type 0 where
  pub relay : get_feature_status env.config.config dhcp_relay ≡ disable
  pub forwarder : get_feature_status env.config.config udp_bcast_forwarder ≡ disable

-- Nothing was asked of the kernel, and no counter was changed.
pub record Quiet (s s' : State) : Type 0 where
  pub events : s'.events ≡ s.events
  pub interfaces : s'.interfaces ≡ s.interfaces

module _ (env : Env) (off : IsOff env) where
  ctrl_off : (size : ℕ) (info : PktInfo) (s : State) → ctrl env size info s ≡ some s
  unfolding ctrl
  ctrl_off size info s =
      let r = off.relay in
      let f = off.forwarder in simp (r, f) (if_elim (λ x. x ≡ some s) _ _ _ (λ h. refl) (λ h. refl))

  ctrl_with_off : (size : ℕ) (o : Option PktInfo) (s : State) → ctrl_with env size o s ≡ some s
  unfolding ctrl_with
  ctrl_with_off size none s = refl
  ctrl_with_off size (some info) s =
      if_elim (λ x. x ≡ some s) (info.ifindex == no_index) _ _ (λ h. refl)
        (λ h. named (env.host.indextoname info.ifindex))
    where
      named : (o : Option Text) → ctrl_from env size info o s ≡ some s
      named none = refl
      named (some if_name) = ctrl_off size info s

  receive_off : (d : Datagram) (s : State) → (s' : State) × (receive env d s ≡ some s') × Quiet s s'
  unfolding receive
  receive_off d s =
      let s' : State = record s { mem = store_bytes s.mem env.pkt d.payload } in
      (
        s',
        if_elim (λ (x : Option State). x ≡ some s') (not d.has_control) _ _ (λ h. refl)
            (λ h. ctrl_with_off d.size (pktinfo_of d.messages) s'),
        record { events = refl; interfaces = refl },
      )

  -- While both features are off, the receiving thread asks nothing of the kernel and counts
  -- nothing, whatever datagrams come in and whatever control messages they have.
  pub packet_recv_off :
      (ds : List (Option Datagram)) (s : State)
      → (s' : State) × (packet_recv env ds s ≡ some s') × Quiet s s'
  unfolding packet_recv
  packet_recv_off [] s = (s, refl, record { events = refl; interfaces = refl })
  packet_recv_off (none ∷ rest) s = (s, refl, record { events = refl; interfaces = refl })
  packet_recv_off (some d ∷ rest) s =
      let (s₁, e₁, q₁) = receive_off d s in
      let (s₂, e₂, q₂) = packet_recv_off rest s₁ in
      (
        s₂,
        ap (λ o. go_on o (packet_recv env rest)) e₁ ∙ e₂,
        record { events = q₂.events ∙ q₁.events; interfaces = q₂.interfaces ∙ q₁.interfaces },
      )
