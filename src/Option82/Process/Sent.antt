-- ===== src/Option82/Process/Sent.antt =====
-- What follows the loop, on a request whose options are stripped: the option that is added, and the
-- lengths.
use ops_ipapps.Base.{
  ℕ, ◌+◌, ◌-◌, ◌≤◌, ◌<◌, ◌≡◌, ◌∙◌, ap, true, none, List, [], ◌∷◌, ◌++◌, length, length-append,
  arith,
}
use ops_ipapps.Packet.{Mem, store_bytes, dhcp_options, magic_len, bootrequest, end_tag}
use ops_ipapps.Packet.Laws.{Holds, Holds-same, Holds-append, Holds-store_bytes, store_bytes_below}
use ops_ipapps.Agent.{get_option82_len}
use ops_ipapps.Option82.{Call, Scan, valid}
use ops_ipapps.Option82.Process.{
  recv_buffer_size, fits, back_to_pad, finish_request, after_loop, write_lengths, add_option82,
}
use ops_ipapps.Option82.Process.Own.{RemoteOf, own_option, length-own_option, add_option82_own}
use ops_ipapps.Option82.Process.Lengths.{write_lengths_message}

-- Where the options start behind the magic cookie.
abbrev pub options_at : ℕ → ℕ
options_at dhcp = dhcp + dhcp_options + magic_len

pub finish_request_lem :
    (c : Call) (dhcp : ℕ) (s : Scan)
    → s.end_pad ≡ none
    → fits c (s.sp - dhcp + get_option82_len c.config.r_id) s.max_msg_size ≡ true
    → finish_request c dhcp s ≡ add_option82 c s.info s.mem s.sp
unfolding finish_request back_to_pad
finish_request_lem c dhcp s e f = simp (e, f)

pub after_loop_request :
    (c : Call) (udph dhcp : ℕ) (s : Scan)
    → s.is_dhcp ≡ true
    → s.mem dhcp ≡ bootrequest
    → after_loop c udph dhcp s ≡ record {
      result = valid;
      mem = write_lengths c (finish_request c dhcp s).0 udph dhcp (finish_request c dhcp s).1;
      info = s.info;
    }
unfolding after_loop
after_loop_request c udph dhcp s d e = simp (d, e)

-- The state behind the loop, as the option's author needs it.
pub record IsStripped (c : Call) (dhcp : ℕ) (body remote : List ℕ) (s : Scan) : Type 0 where
  pub is_dhcp : s.is_dhcp ≡ true
  pub request : s.mem dhcp ≡ bootrequest
  pub no_pad : s.end_pad ≡ none
  pub no_size : s.max_msg_size ≡ 0
  pub holds : Holds s.mem (options_at dhcp) body
  pub end_mark : s.mem (options_at dhcp + length body) ≡ end_tag
  pub sp : s.sp ≡ options_at dhcp + length body + 1
  pub author : RemoteOf c s.info c.config.r_id remote
  pub small : 251 + length body + length remote < recv_buffer_size

pub fits_small : (c : Call) (n size : ℕ) → n < recv_buffer_size → size ≡ 0 → fits c n size ≡ true
unfolding fits
fits_small c n size l e = ground arith

pub finish_request_own :
    (c : Call) (dhcp : ℕ) (body remote : List ℕ) (s : Scan)
    → IsStripped c dhcp body remote s
    → finish_request c dhcp s ≡ (
      store_bytes s.mem
          (options_at dhcp + length body)
          (own_option c.if_index remote ++ end_tag ∷ []),
      options_at dhcp + length body + (11 + length remote),
    )
finish_request_own c dhcp body remote s t =
    let at = t.sp in
    let small = t.small in
    let len = length-own_option c s.info c.config.r_id remote t.author in
    finish_request_lem c dhcp s t.no_pad (fits_small c _ _ (omega arith) t.no_size)
    ∙ ap (add_option82 c s.info s.mem) at
    ∙ add_option82_own c s.info remote s.mem (options_at dhcp + length body) t.author t.end_mark

-- The packet with the option and the lengths in it.
pub sent-Holds :
    (c : Call) (m : Mem) (udph dhcp : ℕ) (body own : List ℕ)
    → dhcp ≡ udph + 8
    → c.pkt + 20 ≤ udph
    → Holds m (options_at dhcp) body
    → Holds
        (write_lengths c
          (store_bytes m (options_at dhcp + length body) own)
          udph
          dhcp
          (options_at dhcp + length body + length own))
        (options_at dhcp)
        (body ++ own)
sent-Holds c m udph dhcp body own layout behind h =
    let start = options_at dhcp in
    let sum = length-append {0} body own in
    Holds-same (store_bytes m (start + length body) own) _ start (body ++ own)
      (λ b l u. write_lengths_message c _ udph dhcp _ layout behind b (omega arith) (omega arith))
      (Holds-append _ start body own
        (Holds-same m _ start body (λ b l u. store_bytes_below m (start + length body) own b u) h)
        (Holds-store_bytes m (start + length body) own))

-- The request as it is sent.
pub after_loop_own :
    (c : Call) (udph dhcp : ℕ) (body remote : List ℕ) (s : Scan)
    → IsStripped c dhcp body remote s
    → let own = own_option c.if_index remote ++ end_tag ∷ [] in
      let start = options_at dhcp in
      after_loop c udph dhcp s ≡ record {
        result = valid;
        mem =
            write_lengths c
              (store_bytes s.mem (start + length body) own)
              udph
              dhcp
              (start + length body + length own);
        info = s.info;
      }
after_loop_own c udph dhcp body remote s t =
    let own = own_option c.if_index remote ++ end_tag ∷ [] in
    let start = options_at dhcp in
    let size = length-append {0} (own_option c.if_index remote) (end_tag ∷ []) in
    let end_at : start + length body + (11 + length remote) ≡ start + length body + length own =
      omega arith in
    after_loop_request c udph dhcp s t.is_dhcp t.request
    ∙ ap
        (λ (r : Mem × ℕ). record {
          result = valid;
          mem = write_lengths c r.0 udph dhcp r.1;
          info = s.info;
        })
        (finish_request_own c dhcp body remote s t
          ∙ ap (λ n. (store_bytes s.mem (start + length body) own, n)) end_at)
