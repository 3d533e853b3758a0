-- ===== src/Receiver.antt =====
-- internal/pinger/icmp_errors.go and the dispatch of internal/pinger/receiver.go: which worker gets
-- a received ICMP message, and as what. `icmp.ParseMessage` of golang.org/x/net is the parameter
-- `parse`, given a protocol number and the bytes. A channel that is full drops the reply.
pub mod Codes
pub mod Quoted
mod Tests
use mping.Base.{
  ℕ, zero, suc, ◌+◌, ◌-◌, ◌*◌, ◌/◌, ◌%◌, Bool, true, false, not, ◌&&◌, ◌||◌, Option, none, some,
  List, [], ◌∷◌, ltb, leb, ◌==◌, if◌then◌else◌, length, take, drop, get_or,
}
use mping.Base.Int.{ℤ, pos}
use mping.Base.Text.{String, ◌<>◌}
use mping.Base.Dict.{has}
use mping.Payload.{same_bytes, read_uint, extract_send_timestamp}
use mping.Worker.Loop.{Reply}
pub use Codes.{
  IcmpType, echo_reply_v4, dest_unreach_v4, time_exceeded_v4, param_problem_v4, echo_reply_v6,
  dest_unreach_v6, packet_too_big_v6, time_exceeded_v6, param_problem_v6, other_type,
}
use mping.Receiver.Codes.{icmp_error_string, icmp_v6_error_string, packet_too_big_string}

-- "TRC-"
abbrev pub trace_signature : List ℕ
trace_signature = 84 ∷ 82 ∷ 67 ∷ 45 ∷ []

abbrev pub proto_icmp : ℕ
proto_icmp = 1

abbrev pub proto_icmpv6 : ℕ
proto_icmpv6 = 58

-- The bodies of `icmp.Message` that are looked at.
pub data Body : Type 0 where
  echo : ℕ → ℕ → List ℕ → Body  -- identifier, sequence number, bytes
  dst_unreach time_exceeded param_prob : List ℕ → Body
  packet_too_big : ℤ → List ℕ → Body  -- the MTU and the bytes
  other_body : Body

pub record Message : Type 0 where
  pub type : IcmpType
  pub code : ℕ
  pub body : Body

-- The channels of the workers: the identifiers that have one, and those whose channel is full.
pub record Channels : Type 0 where
  pub ids : List ℕ
  pub full : List ℕ

-- The reply that a channel takes, without waiting.
unfoldable pub offer : Channels → ℕ → Reply → Option (ℕ × Reply)
offer chans id r =
    if has id chans.ids then if has id chans.full then none else some (id, r) else none

unfoldable pub icmp_error_body_data : Body → Option (List ℕ)
icmp_error_body_data (echo id seq bytes) = none
icmp_error_body_data (dst_unreach bytes) = some bytes
icmp_error_body_data (time_exceeded bytes) = some bytes
icmp_error_body_data (param_prob bytes) = some bytes
icmp_error_body_data (packet_too_big mtu bytes) = some bytes
icmp_error_body_data other_body = none

-- The position of the first occurrence from `i` on.
unfoldable pub index_of_signature : ℕ → List ℕ → Option ℕ
index_of_signature i [] = none
index_of_signature i (b ∷ bs) =
    let rest = index_of_signature (suc i) bs in
    if same_bytes (take 4 (b ∷ bs)) trace_signature then some i else rest

abbrev pub echo_of : Option Message → Option (ℕ × ℕ)
echo_of none = none
echo_of (some m) = elim m.body [ echo id seq d ↦ some (id, seq) | _ ↦ none ]

abbrev first_of : Option (ℕ × ℕ) → Option ℕ
first_of none = none
first_of (some (id, seq)) = some id

abbrev echo_id_of : Body → Option ℕ
echo_id_of (echo id seq bytes) = some id
echo_id_of (dst_unreach bytes) = none
echo_id_of (time_exceeded bytes) = none
echo_id_of (param_prob bytes) = none
echo_id_of (packet_too_big mtu bytes) = none
echo_id_of other_body = none

-- The text for the worker: a Packet Too Big names the MTU of its body.
unfoldable pub error_reply : (ℤ → String) → String → Body → String
error_reply itoa text (echo id seq d) = text
error_reply itoa text (dst_unreach d) = text
error_reply itoa text (time_exceeded d) = text
error_reply itoa text (param_prob d) = text
error_reply itoa text (packet_too_big mtu d) = packet_too_big_string itoa mtu
error_reply itoa text other_body = text

unfoldable pub deliver_error : Channels → String → Option (ℕ × ℕ) → Option (ℕ × Reply)
deliver_error chans err none = none
deliver_error chans err (some (id, seq)) =
    offer chans id (record { rtt = pos 0; ttl = pos 0; seq = seq; err = err })

module _ (parse : ℕ → List ℕ → Option Message) where
  -- The embedded packet behind its IP header, and an UDP header if there is one.
  unfoldable pub parse_payload : ℕ → ℕ → List ℕ → Option (ℕ × ℕ)
  parse_payload proto next_header inner =
      if next_header == proto
      then echo_of (parse proto inner)
      else if next_header == 17
      then if ltb (length inner) 8 then none else echo_of (parse proto (drop 8 inner))
      else none

  -- `parseInnerEchoIDSeq`, by the version in the first byte.
  unfoldable pub parse_ipv4 : ℕ → List ℕ → Option (ℕ × ℕ)
  parse_ipv4 ihl bytes =
      if ltb (length bytes) 20
      then none
      else if ltb ihl 20 || ltb (length bytes) ihl
      then none
      else parse_payload proto_icmp (get_or bytes 9 0) (drop ihl bytes)

  unfoldable pub parse_ipv6 : List ℕ → Option (ℕ × ℕ)
  parse_ipv6 bytes =
      if ltb (length bytes) 40
      then none
      else parse_payload proto_icmpv6 (get_or bytes 6 0) (drop 40 bytes)

  unfoldable pub parse_inner_echo_id_seq : List ℕ → Option (ℕ × ℕ)
  parse_inner_echo_id_seq [] = none
  parse_inner_echo_id_seq (b ∷ bs) =
      if b / 16 == 4
      then parse_ipv4 (b % 16 * 4) (b ∷ bs)
      else if b / 16 == 6
      then parse_ipv6 (b ∷ bs)
      else none

  -- The search for the signature of a route probe.
  unfoldable pub signed_echo : Option ℕ → List ℕ → Option (ℕ × ℕ)
  signed_echo none bytes = none
  signed_echo (some i) bytes =
      if leb (i + 8) (length bytes)
      then some
          (read_uint 0 (take 2 (drop (i + 4) bytes)), read_uint 0 (take 2 (drop (i + 6) bytes)))
      else none

  unfoldable pub or_signed : Option (ℕ × ℕ) → List ℕ → Option (ℕ × ℕ)
  or_signed (some found) bytes = some found
  or_signed none bytes = signed_echo (index_of_signature 0 bytes) bytes

  unfoldable pub extract_quoted : Option (List ℕ) → Option (ℕ × ℕ)
  extract_quoted none = none
  extract_quoted (some bytes) = or_signed (parse_inner_echo_id_seq bytes) bytes

  unfoldable pub extract_echo_id_seq : Message → Option (ℕ × ℕ)
  extract_echo_id_seq m = extract_quoted (icmp_error_body_data m.body)

  -- `handleICMPError`: the identifier of the channel, and the reply that it takes.
  unfoldable pub handle_icmp_error :
      (ℤ → String) → (IcmpType → ℕ → String) → Channels → Message → Option (ℕ × Reply)
  handle_icmp_error itoa error_string chans m =
      deliver_error chans (error_reply itoa (error_string m.type m.code) m.body)
        (extract_echo_id_seq m)

  -- `extractTraceID`: the identifier that a route probe waits under.
  unfoldable pub trace_of : IcmpType → Message → Option ℕ
  trace_of echo_reply_v4 m = echo_id_of m.body
  trace_of echo_reply_v6 m = echo_id_of m.body
  trace_of dest_unreach_v4 m = first_of (extract_echo_id_seq m)
  trace_of dest_unreach_v6 m = first_of (extract_echo_id_seq m)
  trace_of time_exceeded_v4 m = first_of (extract_echo_id_seq m)
  trace_of time_exceeded_v6 m = first_of (extract_echo_id_seq m)
  trace_of param_problem_v4 m = none
  trace_of param_problem_v6 m = none
  trace_of packet_too_big_v6 m = none
  trace_of other_type m = none

abbrev pub rtt_or_zero : Option ℤ → ℤ
rtt_or_zero none = pos 0
rtt_or_zero (some rtt) = rtt

-- The clock of a receiver: the start of the process, the time, and the timeout of a probe.
pub record Clock : Type 0 where
  pub proc_start : ℤ
  pub received : ℤ
  pub probe_timeout : ℤ

-- `handleEchoReply`: the reply carries the round-trip time of the payload, or 0.
unfoldable pub deliver_echo : Channels → Clock → ℤ → Body → Option (ℕ × Reply)
deliver_echo chans c ttl (echo id seq bytes) = offer chans id (record {
  rtt = rtt_or_zero (extract_send_timestamp c.proc_start bytes c.received c.probe_timeout);
  ttl = ttl;
  seq = seq;
  err = "";
})
deliver_echo chans c ttl (dst_unreach bytes) = none
deliver_echo chans c ttl (time_exceeded bytes) = none
deliver_echo chans c ttl (param_prob bytes) = none
deliver_echo chans c ttl (packet_too_big mtu bytes) = none
deliver_echo chans c ttl other_body = none

-- The reply that the loop of `runReceiver` hands to a worker for one message, by the family's types
-- (`receiverV4Config` and `receiverV6Config`).
unfoldable pub receive_v4 :
    (ℕ → List ℕ → Option Message)
    → (ℤ → String)
    → Channels
    → Clock
    → ℤ
    → Message
    → Option (ℕ × Reply)
receive_v4 parse itoa chans c ttl m = elim m.type [
  | echo_reply_v4 ↦ deliver_echo chans c ttl m.body
  | dest_unreach_v4 ↦ handle_icmp_error parse itoa icmp_error_string chans m
  | time_exceeded_v4 ↦ handle_icmp_error parse itoa icmp_error_string chans m
  | param_problem_v4 ↦ handle_icmp_error parse itoa icmp_error_string chans m
  | _ ↦ none
]

unfoldable pub receive_v6 :
    (ℕ → List ℕ → Option Message)
    → (ℤ → String)
    → Channels
    → Clock
    → ℤ
    → Message
    → Option (ℕ × Reply)
receive_v6 parse itoa chans c ttl m = elim m.type [
  | echo_reply_v6 ↦ deliver_echo chans c ttl m.body
  | dest_unreach_v6 ↦ handle_icmp_error parse itoa icmp_v6_error_string chans m
  | packet_too_big_v6 ↦ handle_icmp_error parse itoa icmp_v6_error_string chans m
  | time_exceeded_v6 ↦ handle_icmp_error parse itoa icmp_v6_error_string chans m
  | param_problem_v6 ↦ handle_icmp_error parse itoa icmp_v6_error_string chans m
  | _ ↦ none
]
