-- ===== src/Option82/Process/Request.antt =====
-- A request under the policy REPLACE, from the packet that came in to the packet that goes out.
use ops_ipapps.Base.{
  ℕ, suc, ◌+◌, ◌-◌, ◌*◌, ◌%◌, ◌≤◌, ◌<◌, ◌≡◌, refl, sym, ◌∙◌, ap, subst, true, false, some, List, [],
  ◌∷◌, ◌++◌, length, length-append, ◌==◌, arith,
}
use mathlib.Core.List.{append_assoc}
use ops_ipapps.Packet.{
  Mem, store_bytes, load32, load_be16, udp_header, dhcp_header, dhcp_giaddr, bootrequest, end_tag,
  uh_ulen,
}
use ops_ipapps.Packet.Laws.{Holds, Holds-split}
use ops_ipapps.Feature.{dhcp_relay_option82, get_feature_status, is_enabled}
use ops_ipapps.Global.{replace}
use ops_ipapps.Agent.{Option82Info}
use ops_ipapps.Option82.{Call, Scan, finished, options_loop, valid}
use ops_ipapps.Option82.Copy.{Opt, encode}
use ops_ipapps.Option82.Strip.Loop.{Stripped, strip_loop}
use ops_ipapps.Option82.Strip.{wire, strip, plain, roomy, may_strip, seen_in}
use ops_ipapps.Option82.Process.{
  Processed, recv_buffer_size, has_cookie, pktlen, after_loop, conclude, start, write_lengths,
  process_option82_message,
}
use ops_ipapps.Option82.Process.Own.{RemoteOf, own_option}
use ops_ipapps.Option82.Process.Lengths.{padded_length, write_lengths_ulen}
use ops_ipapps.Option82.Process.Sent.{options_at, IsStripped, sent-Holds, after_loop_own}

-- The bytes of options, with no end mark.
abbrev pub encode_all : List Opt → List ℕ
encode_all [] = []
encode_all (o ∷ os) = encode o ++ encode_all os

wire-encode_all : (os : List Opt) → wire os ≡ encode_all os ++ (end_tag ∷ [])
wire-encode_all [] = refl
wire-encode_all (o ∷ os) =
    ap (◌++◌ (encode o)) (wire-encode_all os)
    ∙ sym (append_assoc (encode o) (encode_all os) (end_tag ∷ []))

-- The packet holds a DHCP request with the options `os`, in a configuration that replaces option 82.
pub record IsRequest (c : Call) (m : Mem) (os : List Opt) : Type 0 where
  pub enabled : is_enabled (get_feature_status c.config.config dhcp_relay_option82) ≡ true
  pub replaces : c.config.policy ≡ replace
  pub header : 5 ≤ m c.pkt % 16
  pub cookie : has_cookie m (dhcp_header m c.pkt) ≡ true
  pub request : m (dhcp_header m c.pkt) ≡ bootrequest
  pub within : 240 + length (wire os) ≤ pktlen m (udp_header m c.pkt)
  pub options : Holds m (options_at (dhcp_header m c.pkt)) (wire os)
  pub plain : plain os ≡ true
  pub has_type : seen_in false os ≡ true
  pub room : roomy false 0 os ≡ true
  pub relayed : may_strip (load32 m (dhcp_header m c.pkt + dhcp_giaddr) == 0) false os ≡ true

-- What goes out: the options that stay, then the relay's own option and the end mark; and in the
-- UDP header the length of the message up to there (a minimal message's at least).
pub record IsRelayed (c : Call) (os : List Opt) (remote : List ℕ) (m : Mem) (p : Processed)
    : Type 0 where
  pub result : p.result ≡ valid
  pub options :
      Holds p.mem
        (options_at (dhcp_header m c.pkt))
        (encode_all (strip false os) ++ (own_option c.if_index remote ++ end_tag ∷ []))
  pub ulen :
      load_be16 p.mem (udp_header m c.pkt + uh_ulen)
      ≡ padded_length (251 + length (encode_all (strip false os)) + length remote) + 8

-- The loop on the whole message.
loop_strips :
    (c : Call) (info : Option82Info) (m : Mem) (os : List Opt) (q : IsRequest c m os)
    → let dhcp = dhcp_header m c.pkt in
      let len = pktlen m (udp_header m c.pkt) in
      (s' : Scan) × (options_loop c (suc len) dhcp (dhcp + len) (start c dhcp info m) ≡ finished s')
      × Stripped c dhcp
          (dhcp + len)
          (load32 m (dhcp + dhcp_giaddr) == 0)
          q.replaces
          (start c dhcp info m)
          os
          s'
unfolding start
loop_strips c info m os q =
    let dhcp = dhcp_header m c.pkt in
    let len = pktlen m (udp_header m c.pkt) in
    let none_moved : options_at dhcp - options_at dhcp ≡ 0 = omega arith in
    strip_loop c dhcp (dhcp + len) (load32 m (dhcp + dhcp_giaddr) == 0) q.replaces (suc len)
      (start c dhcp info m) os
      (record {
        request = q.request;
        giaddr = refl;
        above = omega arith;
        order = omega arith;
        no_pad = refl;
      })
      (let within = q.within in omega arith) q.options q.plain (rw none_moved q.room) q.relayed
      (omega arith)

process_finished :
    (c : Call) (info : Option82Info) (m : Mem) (os : List Opt) (s : Scan)
    → IsRequest c m os
    → (let dhcp = dhcp_header m c.pkt in
        let len = pktlen m (udp_header m c.pkt) in
        options_loop c (suc len) dhcp (dhcp + len) (start c dhcp info m) ≡ finished s)
    → process_option82_message c info m
      ≡ some (after_loop c (udp_header m c.pkt) (dhcp_header m c.pkt) s)
unfolding process_option82_message conclude
process_finished c info m os s q e = simp (q.enabled, q.cookie, e)

stripped :
    (c : Call) (info : Option82Info) (m : Mem) (os : List Opt) (remote : List ℕ) (s : Scan)
    → (q : IsRequest c m os) → RemoteOf c info c.config.r_id remote
    → 251 + length (encode_all (strip false os)) + length remote < recv_buffer_size
    → (let dhcp = dhcp_header m c.pkt in
        Stripped c dhcp
          (dhcp + pktlen m (udp_header m c.pkt))
          (load32 m (dhcp + dhcp_giaddr) == 0)
          q.replaces
          (start c dhcp info m)
          os
          s)
    → IsStripped c (dhcp_header m c.pkt) (encode_all (strip false os)) remote s
unfolding start
stripped c info m os remote s q author small t =
    let body = encode_all (strip false os) in
    let whole = wire-encode_all (strip false os) in
    let held = subst (Holds s.mem (options_at (dhcp_header m c.pkt))) whole t.holds in
    let (inside, mark) =
      Holds-split s.mem (options_at (dhcp_header m c.pkt)) body (end_tag ∷ []) held in
    let size = ap (length {0}) whole ∙ length-append {0} body (end_tag ∷ []) in
    record {
      is_dhcp = t.is_dhcp ∙ q.has_type;
      request = t.below (dhcp_header m c.pkt) (omega arith) ∙ q.request;
      no_pad = t.no_pad;
      no_size = t.same_size;
      holds = inside;
      end_mark = mark.0;
      sp = let at = t.sp in omega arith;
      author = subst (λ i. RemoteOf c i c.config.r_id remote) (sym t.same_info) author;
      small = small;
    }

relayed :
    (c : Call) (m : Mem) (os : List Opt) (remote : List ℕ) (s : Scan)
    → 5 ≤ m c.pkt % 16
    → IsStripped c (dhcp_header m c.pkt) (encode_all (strip false os)) remote s
    → IsRelayed c os remote m (after_loop c (udp_header m c.pkt) (dhcp_header m c.pkt) s)
unfolding dhcp_header udp_header
relayed c m os remote s header t =
    let body = encode_all (strip false os) in
    let own = own_option c.if_index remote ++ end_tag ∷ [] in
    let udph = c.pkt + m c.pkt % 16 * 4 in
    let dhcp = udph + 8 in
    let start = options_at dhcp in
    let behind : c.pkt + 20 ≤ udph = omega arith in
    let size = length-append {0} (own_option c.if_index remote) (end_tag ∷ []) in
    let e = after_loop_own c udph dhcp body remote s t in
    let len : start + length body + length own - dhcp ≡ 251 + length body + length remote =
      omega arith in
    let fitting : padded_length (251 + length body + length remote) + 8 < 65536 =
      let small = t.small in ground arith in
    let out : Mem =
      write_lengths c (store_bytes s.mem (start + length body) own) udph dhcp
        (start + length body + length own) in
    record {
      result = ap (λ (p : Processed). p.result) e;
      options =
          subst (λ (n : Mem). Holds n start (body ++ own)) (sym (ap (λ (p : Processed). p.mem) e))
            (sent-Holds c s.mem udph dhcp body own refl behind t.holds);
      ulen =
          ap (λ (p : Processed). load_be16 p.mem (udph + uh_ulen)) e
          ∙ write_lengths_ulen c _ udph dhcp _ refl behind
              (subst (λ n. padded_length n + 8 < 65536) (sym len) fitting)
          ∙ ap (λ n. padded_length n + 8) len;
    }

-- A DHCP request that holds the magic cookie and the options `os` within its UDP length, none of them
-- a pad, an end mark or a maximum message size and one the message type, when option 82 is enabled
-- under the policy REPLACE with an address or a six-byte MAC address as remote id: if every option
-- that stays has room to be moved, no option is to be taken out of a message whose giaddr is zero,
-- and the result is smaller than the receive buffer, then the function ends with VALID. The packet then holds the options that stay, in their order, with the relay agent options
-- behind the message type gone, then the relay's own option with the interface's index and the
-- remote id, and the end mark; and the UDP length is that of this message, or of a minimal one.
pub process_option82_message_request :
    (c : Call) (info : Option82Info) (m : Mem) (os : List Opt) (remote : List ℕ)
    → IsRequest c m os
    → RemoteOf c info c.config.r_id remote
    → 251 + length (encode_all (strip false os)) + length remote < recv_buffer_size
    → (p : Processed) × (process_option82_message c info m ≡ some p) × IsRelayed c os remote m p
process_option82_message_request c info m os remote q author small =
    let (s, e, t) = loop_strips c info m os q in
    (
      after_loop c (udp_header m c.pkt) (dhcp_header m c.pkt) s,
      process_finished c info m os s q e,
      relayed c m os remote s q.header (stripped c info m os remote s q author small t),
    )
