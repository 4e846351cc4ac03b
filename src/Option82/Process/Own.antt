-- ===== src/Option82/Process/Own.antt =====
-- The option that process_dhcp_relay_option82_message adds to a request.
use ops_ipapps.Base.{
  ℕ, ◌+◌, ◌-◌, ◌/◌, ◌%◌, ◌^◌, ◌≡◌, refl, sym, ◌∙◌, ap, subst, List, [], ◌∷◌, ◌++◌, length, ◌==◌,
  if◌then◌else◌, arith,
}
use ops_ipapps.Packet.{Mem, store8, store_bytes, bytes32, end_tag, dhcp_agent_options}
use ops_ipapps.Packet.Laws.{store_bytes-append}
use ops_ipapps.Global.{Option82RemoteId, remote_id_ip, remote_id_mac}
use ops_ipapps.Ifaddrs.{get_mac_from_ifname}
use ops_ipapps.Agent.{Option82Info, get_option82_len}
use ops_ipapps.Agent.Valid.{own_sub_options}
use ops_ipapps.Option82.{Call}
use ops_ipapps.Option82.Process.{own_header, write_remote, add_option82}

-- The remote id that the relay writes: the gateway address if one is configured, or else the
-- address in *pkt_info; or the interface's MAC address, of six bytes.
pub data RemoteOf (c : Call) (info : Option82Info) : Option82RemoteId → List ℕ → Type 0 where
  by_ip :
      RemoteOf c info remote_id_ip (bytes32 (if c.bootp_gw == 0 then info.ip_addr else c.bootp_gw))
  by_mac :
      (mac : List ℕ)
      → get_mac_from_ifname c.host c.if_name ≡ mac
      → length mac ≡ 6
      → RemoteOf c info remote_id_mac mac

-- The whole option.
abbrev pub own_option : ℕ → List ℕ → List ℕ
own_option circuit remote =
    dhcp_agent_options ∷ (8 + length remote) ∷ own_sub_options circuit remote

-- Its length is the one that is computed for it.
pub length-own_option :
    (c : Call) (info : Option82Info) (kind : Option82RemoteId) (remote : List ℕ)
    → RemoteOf c info kind remote
    → get_option82_len kind ≡ 10 + length remote
unfolding get_option82_len
length-own_option c info kind remote by_ip = refl
length-own_option c info kind remote (by_mac mac e six) = omega arith

remote_written :
    (c : Call) (info : Option82Info) (kind : Option82RemoteId) (remote : List ℕ) (m : Mem) (sp : ℕ)
    → RemoteOf c info kind remote
    → write_remote c kind info m sp
      ≡ (store_bytes m sp (2 ∷ length remote ∷ remote), sp + (2 + length remote))
unfolding write_remote
remote_written c info kind remote m sp by_ip = refl
remote_written c info kind remote m sp (by_mac mac e six) =
    rw (e, six) (ap (λ x. (x, sp + 8)) (sym (store_bytes-append m sp (2 ∷ 6 ∷ []) remote)))

-- The header and the circuit id.
abbrev head_of : ℕ → List ℕ → List ℕ
head_of circuit remote =
    dhcp_agent_options
    ∷ (8 + length remote)
    ∷ 1
    ∷ 4
    ∷ circuit / 2 ^ 24 % 256
    ∷ circuit / 2 ^ 16 % 256
    ∷ circuit / 2 ^ 8 % 256
    ∷ circuit % 256
    ∷ []

store8_one : (m : Mem) (a v : ℕ) → store8 m a v ≡ store_bytes m a (v ∷ [])
unfolding store_bytes
store8_one m a v = refl

-- Three writes, one behind the other, are one.
three_stores :
    (m : Mem) (sp end : ℕ) (xs ys : List ℕ) (v : ℕ)
    → sp + length xs + length ys ≡ end
    → store8 (store_bytes (store_bytes m sp xs) (sp + length xs) ys) end v
      ≡ store_bytes m sp (xs ++ (ys ++ (v ∷ [])))
three_stores m sp end xs ys v e =
    let whole =
      store_bytes-append m sp xs (ys ++ (v ∷ []))
      ∙ store_bytes-append (store_bytes m sp xs) (sp + length xs) ys (v ∷ []) in
    subst
      (λ a.
        store8 (store_bytes (store_bytes m sp xs) (sp + length xs) ys) a v
        ≡ store_bytes m sp (xs ++ (ys ++ (v ∷ []))))
      e (store8_one _ _ v ∙ sym whole)

own_stores :
    (m : Mem) (sp circuit : ℕ) (remote : List ℕ)
    → store8
        (store_bytes
          (store_bytes m sp (head_of circuit remote))
          (sp + 8)
          (2 ∷ length remote ∷ remote))
        (sp + 8 + (2 + length remote))
        end_tag
      ≡ store_bytes m sp (own_option circuit remote ++ end_tag ∷ [])
own_stores m sp circuit remote =
    three_stores m sp (sp + 8 + (2 + length remote)) (head_of circuit remote)
      (2 ∷ length remote ∷ remote) end_tag (omega arith)

pub add_option82_own :
    (c : Call) (info : Option82Info) (remote : List ℕ) (m : Mem) (sp : ℕ)
    → RemoteOf c info c.config.r_id remote
    → m sp ≡ end_tag
    → add_option82 c info m (sp + 1)
      ≡ (store_bytes m sp (own_option c.if_index remote ++ end_tag ∷ []), sp + (11 + length remote))
unfolding add_option82 own_header
add_option82_own c info remote m sp r e =
    let back : sp + 1 - 1 ≡ sp = omega arith in
    let len : get_option82_len c.config.r_id - 2 ≡ 8 + length remote =
      omega (arith, length-own_option c info c.config.r_id remote r) in
    let stepped : sp + 8 + (2 + length remote) + 1 ≡ sp + (11 + length remote) = omega arith in
    simp (back, e, len, remote_written c info c.config.r_id remote _ (sp + 8) r)
      (λ i. (own_stores m sp c.if_index remote i, stepped i))
