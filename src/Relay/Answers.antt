-- ===== src/Relay/Answers.antt =====
-- Where a relayed reply goes.
use ops_ipapps.Base.{
  ℕ, suc, ◌+◌, ◌%◌, ◌<◌, ◌≤◌, leb, ◌||◌, not, if◌then◌else◌, none, subst, Bool-cases, inl, inr, ◌≡◌,
  ◌≢◌, refl, sym, ◌∙◌, ap, Bool, true, false, Option, some, List, [], ◌∷◌, ◌++◌, ◌==◌, Text, arith,
}
use mathlib.Core.List.{append-nil}
use ops_ipapps.Packet.{
  Mem, store8, load32, load_be16, udp_header, dhcp_header, dhcp_giaddr, dhcp_msgtype, ip_ttl,
  dhcp_flags, dhcp_yiaddr, dhcp_ciaddr,
}
use ops_ipapps.Ifaddrs.{no_index, get_if_index_from_ip_address}
use ops_ipapps.Options.{pickup_opt}
use ops_ipapps.Option82.{Option82Result, valid, dropped, noop}
use ops_ipapps.Option82.Process.{Processed, pktlen, process_option82_message}
use ops_ipapps.Relay.{PktInfo, State, Env, Intf, dhcpc_port, count, send_pkt}
use ops_ipapps.Relay.Requests.{call_of, unless_dropped}
use ops_ipapps.Relay.Replies.{
  Destination, to_all, to_address, nowhere, broadcast_address, is_kind, destination, count_reply,
  send_reply, reply_to, reply_found, count_reply82, reply_processed, reply_from, reply_on,
  relay_to_dhcp_client,
}
use ops_ipapps.Relay.Reaches.{sent_to}

-- The datagrams of a destination.
abbrev pub datagrams_of : Destination → List (ℕ × ℕ)
datagrams_of to_all = (broadcast_address, dhcpc_port) ∷ []
datagrams_of (to_address to) = (to, dhcpc_port) ∷ []
datagrams_of nowhere = []

-- The value of the message type option, if there is one.
abbrev pub kind_at : Mem → Option ℕ → Option ℕ
kind_at m none = none
kind_at m (some option) = some (m (option + 2))

-- The datagrams for a reply with these flags, addresses and message type: to everyone where the
-- client asks for broadcasts, and for a refusal (6); else to the address that is offered; but an
-- acknowledgement (5) without one, which answers a DHCPINFORM, to the client's own address, and one
-- that has neither to nobody.
pub data Goes (flags yiaddr ciaddr : ℕ) : Option ℕ → List (ℕ × ℕ) → Type 0 where
  asked : {kind : Option ℕ} → 32768 ≤ flags → Goes flags yiaddr ciaddr kind ((4294967295, 68) ∷ [])
  refused : Goes flags yiaddr ciaddr (some 6) ((4294967295, 68) ∷ [])
  offered :
      {kind : Option ℕ}
      → flags < 32768
      → kind ≢ some 6
      → kind ≢ some 5
      → Goes flags yiaddr ciaddr kind ((yiaddr, 68) ∷ [])
  acknowledged : flags < 32768 → yiaddr ≢ 0 → Goes flags yiaddr ciaddr (some 5) ((yiaddr, 68) ∷ [])
  informed :
      flags < 32768
      → yiaddr ≡ 0
      → ciaddr ≢ 0
      → Goes flags yiaddr ciaddr (some 5) ((ciaddr, 68) ∷ [])
  lost : flags < 32768 → yiaddr ≡ 0 → ciaddr ≡ 0 → Goes flags yiaddr ciaddr (some 5) []

-- The datagrams for the reply that option 82 processing leaves in the memory.
abbrev pub GoesIn : Mem → ℕ → Option ℕ → List (ℕ × ℕ) → Type 0
GoesIn m dhcp kind =
    Goes (load_be16 m (dhcp + dhcp_flags)) (load32 m (dhcp + dhcp_yiaddr))
      (load32 m (dhcp + dhcp_ciaddr)) kind

abbrev choose : Bool → Bool → Bool → ℕ → ℕ → Destination
choose all nak ack yiaddr ciaddr =
    if all || nak
    then to_all
    else if not ack
    then to_address yiaddr
    else if not (yiaddr == 0)
    then to_address yiaddr
    else if not (ciaddr == 0)
    then to_address ciaddr
    else nowhere

no_kind-Goes :
    (flags yiaddr ciaddr : ℕ)
    → Goes flags yiaddr ciaddr none
        (datagrams_of (choose (leb 32768 flags) false false yiaddr ciaddr))
no_kind-Goes flags yiaddr ciaddr = elim (Bool-cases (leb 32768 flags)) [
  | inl all ↦ simp all (asked (ground arith))
  | inr one ↦ simp one (offered (ground arith) (λ e. cc) (λ e. cc))
]

ack-Goes :
    (flags yiaddr ciaddr : ℕ)
    → flags < 32768
    → Goes flags yiaddr ciaddr (some 5) (datagrams_of (choose false false true yiaddr ciaddr))
ack-Goes flags yiaddr ciaddr one = elim (Bool-cases (yiaddr == 0)) [
  | inr y ↦ simp y (acknowledged one (ground arith))
  | inl y ↦ elim (Bool-cases (ciaddr == 0)) [
    | inr c ↦ simp (y, c) (informed one (ground arith) (ground arith))
    | inl c ↦ simp (y, c) (lost one (ground arith) (ground arith))
  ]
]

kind-Goes :
    (flags yiaddr ciaddr kind : ℕ)
    → Goes flags yiaddr ciaddr
        (some kind)
        (datagrams_of (choose (leb 32768 flags) (kind == 6) (kind == 5) yiaddr ciaddr))
kind-Goes flags yiaddr ciaddr kind = elim (Bool-cases (leb 32768 flags)) [
  | inl all ↦ simp all (asked (ground arith))
  | inr one ↦ elim (Bool-cases (kind == 6)) [
    | inl nak ↦
        let is : 6 ≡ kind = ground arith in
        simp (one, nak)
          (subst (λ k. Goes flags yiaddr ciaddr (some k) ((4294967295, 68) ∷ [])) is refused)
    | inr other ↦ elim (Bool-cases (kind == 5)) [
      | inl ack ↦
          let is : 5 ≡ kind = ground arith in
          simp (one, other, ack)
            (subst
              (λ k.
                Goes flags yiaddr ciaddr (some k)
                  (datagrams_of (choose false false true yiaddr ciaddr)))
              is (ack-Goes flags yiaddr ciaddr (ground arith)))
      | inr offer ↦
          simp (one, other, offer) (offered (ground arith) (λ e. ground arith) (λ e. ground arith))
    ]
  ]
]

destination-Goes :
    (m : Mem) (dhcp : ℕ) (option : Option ℕ)
    → GoesIn m dhcp (kind_at m option) (datagrams_of (destination m dhcp option))
unfolding destination is_kind
destination-Goes m dhcp none = no_kind-Goes _ _ _
destination-Goes m dhcp (some option) = kind-Goes _ _ _ (m (option + 2))

count_reply_events :
    (env : Env) (if_index : ℕ) (if_name : Text) (info : PktInfo) (r : State × Bool)
    → (count_reply env if_index if_name info r).events ≡ r.0.events
unfolding count_reply count
count_reply_events env if_index if_name info (s, true) = refl
count_reply_events env if_index if_name info (s, false) = refl

send_reply_reaches :
    (env : Env) (if_index : ℕ) (if_name : Text) (info : PktInfo) (to : ℕ) (s : State)
    → sent_to (send_reply env if_index if_name info to s).events
      ≡ sent_to s.events ++ ((to, dhcpc_port) ∷ [])
unfolding send_reply send_pkt
send_reply_reaches env if_index if_name info to s =
    ap sent_to (count_reply_events env if_index if_name info _)

reply_to_reaches :
    (env : Env) (if_index : ℕ) (if_name : Text) (info : PktInfo) (dhcp : ℕ) (d : Destination)
    (s : State)
    → sent_to (reply_to env if_index if_name info dhcp d s).events
      ≡ sent_to s.events ++ datagrams_of d
unfolding reply_to count
reply_to_reaches env if_index if_name info dhcp to_all s =
    send_reply_reaches env if_index if_name info broadcast_address s
reply_to_reaches env if_index if_name info dhcp (to_address to) s =
    send_reply_reaches env if_index if_name info to _
    ∙ ap (λ x. x ++ ((to, dhcpc_port) ∷ [])) (append-nil (sent_to s.events))
reply_to_reaches env if_index if_name info dhcp nowhere s = sym (append-nil _)

-- The datagrams of a reply: none if option 82 processing drops it.
abbrev pub answers_of : Option82Result → Destination → List (ℕ × ℕ)
answers_of result d = unless_dropped result [] (datagrams_of d)

-- What a reply with this memory and message type sends, after each result of option 82 processing.
pub data Sends (m : Mem) (dhcp : ℕ) (kind : Option ℕ) : Option82Result → List (ℕ × ℕ) → Type 0 where
  none_sent : Sends m dhcp kind dropped []
  relayed :
      {r : Option82Result} {ds : List (ℕ × ℕ)}
      → r ≢ dropped
      → GoesIn m dhcp kind ds
      → Sends m dhcp kind r ds

answers_of-Sends :
    (m : Mem) (dhcp : ℕ) (option : Option ℕ) (r : Option82Result)
    → Sends m dhcp (kind_at m option) r (answers_of r (destination m dhcp option))
answers_of-Sends m dhcp option valid = relayed (λ e. cc) (destination-Goes m dhcp option)
answers_of-Sends m dhcp option dropped = none_sent
answers_of-Sends m dhcp option noop = relayed (λ e. cc) (destination-Goes m dhcp option)

-- The interface that a reply goes out of: the one that has the address in giaddr.
abbrev pub index_of_reply : Env → State → ℕ
index_of_reply env s =
    get_if_index_from_ip_address env.host (load32 s.mem (dhcp_header s.mem env.pkt + dhcp_giaddr))

-- The memory that option 82 processing gets: the TTL is already decremented.
abbrev pub aged : Env → State → State
aged env s = record s {
  mem = store8 s.mem (env.pkt + ip_ttl) ((s.mem (env.pkt + ip_ttl) + 255) % 256);
}

-- The search for the message type.
abbrev pub message_type : Env → Mem → ℕ → ℕ → Option (Option ℕ)
message_type env m udph dhcp =
    pickup_opt (suc (pktlen m udph + 128)) env.signed m dhcp (pktlen m udph) dhcp_msgtype

count_reply82_events :
    (env : Env) (if_index : ℕ) (if_name : Text) (info : PktInfo) (r : Option82Result) (s : State)
    → (count_reply82 env if_index if_name info r s).events ≡ s.events
unfolding count_reply82 count
count_reply82_events env if_index if_name info valid s = refl
count_reply82_events env if_index if_name info dropped s = refl
count_reply82_events env if_index if_name info noop s = refl

count_reply82_mem :
    (env : Env) (if_index : ℕ) (if_name : Text) (info : PktInfo) (r : Option82Result) (s : State)
    → (count_reply82 env if_index if_name info r s).mem ≡ s.mem
unfolding count_reply82 count
count_reply82_mem env if_index if_name info valid s = refl
count_reply82_mem env if_index if_name info dropped s = refl
count_reply82_mem env if_index if_name info noop s = refl

-- A state that a handler returns, with what was sent.
abbrev pub Answers : Option State → List (ℕ × ℕ) → Type 0
Answers o sent = (s' : State) × (o ≡ some s') × (sent_to s'.events ≡ sent)

unless_dropped-Answers :
    (r : Option82Result) (stop : State) (go : Option State) (sent : List (ℕ × ℕ)) (d : Destination)
    → sent_to stop.events ≡ sent
    → Answers go (sent ++ datagrams_of d)
    → Answers (unless_dropped r (some stop) go) (sent ++ answers_of r d)
unless_dropped-Answers valid stop go sent d e f = f
unless_dropped-Answers dropped stop go sent d e f = (stop, refl, e ∙ sym (append-nil sent))
unless_dropped-Answers noop stop go sent d e f = f

reply_processed-Answers :
    (env : Env) (if_index : ℕ) (if_name : Text) (info : PktInfo) (udph dhcp : ℕ) (p : Processed)
    (option : Option ℕ) (s : State)
    → message_type env p.mem udph dhcp ≡ some option
    → Answers
        (reply_processed env if_index if_name info udph dhcp (some p) s)
        (sent_to s.events ++ answers_of p.result (destination p.mem dhcp option))
unfolding reply_processed reply_found
reply_processed-Answers env if_index if_name info udph dhcp p option s found =
    let s' = count_reply82 env if_index if_name info p.result (record s { mem = p.mem }) in
    let same = count_reply82_events env if_index if_name info p.result (record s { mem = p.mem }) in
    let kept = count_reply82_mem env if_index if_name info p.result (record s { mem = p.mem }) in
    unless_dropped-Answers p.result s' _ (sent_to s.events) (destination p.mem dhcp option)
      (ap sent_to same)
      (
        reply_to env if_index if_name info dhcp (destination s'.mem dhcp option) s',
        ap (λ o. reply_found env if_index if_name info dhcp o s') found,
        reply_to_reaches env if_index if_name info dhcp (destination s'.mem dhcp option) s'
            ∙ ap (λ x. sent_to x ++ datagrams_of (destination s'.mem dhcp option)) same
            ∙ ap (λ m. sent_to s.events ++ datagrams_of (destination m dhcp option)) kept,
      )

-- What a reply finds on its way: giaddr is an address of an interface of the host, and that
-- interface has a node in the table.
pub record PassesBack (env : Env) (s : State) (if_name : Text) (node : Intf) : Type 0 where
  pub indexed : index_of_reply env s ≢ no_index
  pub named : env.host.indextoname (index_of_reply env s) ≡ some if_name
  pub listed : s.interfaces if_name ≡ some node

relay_to_dhcp_client-PassesBack :
    (env : Env) (info : PktInfo) (s : State) (if_name : Text) (node : Intf)
    → PassesBack env s if_name node
    → relay_to_dhcp_client env info s
      ≡ reply_processed env
          (index_of_reply env s)
          if_name
          info
          (udp_header s.mem env.pkt)
          (dhcp_header s.mem env.pkt)
          (process_option82_message
            (call_of env (index_of_reply env s) if_name 0)
            (record { circuit_id = 0; ip_addr = 0 })
            (aged env s).mem)
          (aged env s)
unfolding relay_to_dhcp_client reply_on reply_from
relay_to_dhcp_client-PassesBack env info s if_name node q =
    let i : (index_of_reply env s == no_index) ≡ false = let h = q.indexed in ground arith in
    simp (i, q.named, q.listed)

-- A DHCP reply whose giaddr is an address of an interface that has a node in the table: let `p` be
-- the result of option 82 processing, and let the search for the message type in what it leaves end
-- with `option`. Then the handler returns, and has sent nothing if that result is DROPPED; and else
-- one datagram to port 68: of the broadcast address where the broadcast flag is set or the message is
-- a NAK; of yiaddr otherwise; of ciaddr where an ACK has no yiaddr; and none where it has neither.
pub relay_to_dhcp_client_reaches :
    (env : Env) (info : PktInfo) (s : State) (if_name : Text) (node : Intf) (p : Processed)
    (option : Option ℕ)
    → PassesBack env s if_name node
    → process_option82_message
        (call_of env (index_of_reply env s) if_name 0)
        (record { circuit_id = 0; ip_addr = 0 })
        (aged env s).mem
      ≡ some p
    → message_type env p.mem (udp_header s.mem env.pkt) (dhcp_header s.mem env.pkt) ≡ some option
    → (ds : List (ℕ × ℕ)) × Sends p.mem
        (dhcp_header s.mem env.pkt)
        (kind_at p.mem option)
        p.result
        ds
      × Answers (relay_to_dhcp_client env info s) (sent_to s.events ++ ds)
relay_to_dhcp_client_reaches env info s if_name node p option q processed found =
    let udph = udp_header s.mem env.pkt in
    let dhcp = dhcp_header s.mem env.pkt in
    let (s', e, sent) =
      reply_processed-Answers env (index_of_reply env s) if_name info udph dhcp p option
        (aged env s) found in
    (
      answers_of p.result (destination p.mem dhcp option),
      answers_of-Sends p.mem dhcp option p.result,
      (
        s',
        relay_to_dhcp_client-PassesBack env info s if_name node q
            ∙ ap
                (λ o.
                  reply_processed env (index_of_reply env s) if_name info udph dhcp o (aged env s))
                processed
            ∙ e,
        sent,
      ),
    )
