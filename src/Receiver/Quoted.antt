-- ===== src/Receiver/Quoted.antt =====
-- An ICMP error gets to the worker whose probe it quotes, and counts as a loss: internal/pinger/icmp_errors.go,
-- `handleICMPError` of receiver.go and `settleReply` of worker.go.
use mping.Base.{
  ℕ, zero, suc, ◌*◌, ◌/◌, ◌%◌, ◌<◌, ◌≤◌, ◌≡◌, refl, sym, ap, ◌∙◌, true, false, ◌||◌, Option, some,
  List, [], ◌∷◌, ◌++◌, arith, ltb, ◌==◌, length, drop, get_or, length-append,
}
use mping.Base.Int.{ℤ, pos}
use mping.Base.Float.{Floats}
use mping.Base.Text.{String, is_empty}
use mping.Base.Dict.{has}
use mping.Target.Probe.{on_failure}
use mping.Worker.Loop.{
  Reply, PendingProbe, Worker, find_pending, delete_pending, settle_pending, settle_found,
  settle_reply,
}
use mping.Receiver.{
  Channels, offer, Message, Body, echo, dst_unreach, time_exceeded, param_prob, packet_too_big,
  other_body, icmp_error_body_data, echo_of, parse_payload, parse_ipv4, parse_inner_echo_id_seq,
  or_signed, extract_quoted, extract_echo_id_seq, error_reply, deliver_error, handle_icmp_error,
}
use mping.Receiver.Codes.{icmp_error_string, icmp_error_string-text, packet_too_big_string-text}

drop-length : (xs ys : List ℕ) → drop (length xs) (xs ++ ys) ≡ ys
drop-length [] ys = refl
drop-length (x ∷ xs) ys = drop-length xs ys

get_or-append : (xs ys : List ℕ) (i d : ℕ) → i < length xs → get_or (xs ++ ys) i d ≡ get_or xs i d
get_or-append [] ys i d h = elim h [ ]
get_or-append (x ∷ xs) ys zero d h = refl
get_or-append (x ∷ xs) ys (suc i) d h = get_or-append xs ys i d (omega arith)

-- The bytes are an IPv4 header, with options if it is longer than 20, for the protocol ICMP.
abbrev pub Ipv4Header : List ℕ → Type 0
Ipv4Header [] = ⊥
Ipv4Header (b ∷ bs) =
    (b / 16 ≡ 4)
    × ((20 ≤ b % 16 * 4) × ((length (b ∷ bs) ≡ b % 16 * 4) × (get_or (b ∷ bs) 9 0 ≡ 1)))

module _ (parse : ℕ → List ℕ → Option Message) where
  pub parse_inner-header :
      (header icmp : List ℕ)
      → Ipv4Header header
      → parse_inner_echo_id_seq parse (header ++ icmp) ≡ echo_of (parse 1 icmp)
  unfolding parse_inner_echo_id_seq parse_ipv4 parse_payload
  parse_inner-header [] icmp h = absurd h
  parse_inner-header (b ∷ bs) icmp (v, (min, (len, proto))) =
      let is_v4 : (b / 16 == 4) ≡ true = ground arith in
      let total = length-append (b ∷ bs) icmp in
      let long : ltb (length (b ∷ (bs ++ icmp))) 20 ≡ false = ground (arith, total) in
      let fits : (ltb (b % 16 * 4) 20 || ltb (length (b ∷ (bs ++ icmp))) (b % 16 * 4)) ≡ false =
        ground (arith, total) in
      let next : get_or (b ∷ (bs ++ icmp)) 9 0 ≡ 1 =
        get_or-append (b ∷ bs) icmp 9 0 (omega (arith, len, min)) ∙ proto in
      let rest : drop (b % 16 * 4) (b ∷ (bs ++ icmp)) ≡ icmp =
        ap (λ n. drop n (b ∷ (bs ++ icmp))) (sym len) ∙ drop-length (b ∷ bs) icmp in
      rw (is_v4, long, fits, next, rest) refl

  -- The bytes quote a probe: a header, and the message that `parse` reads as an echo.
  quoted-extract :
      (m : Message) (header icmp : List ℕ) (id seq : ℕ)
      → icmp_error_body_data m.body ≡ some (header ++ icmp)
      → Ipv4Header header
      → echo_of (parse 1 icmp) ≡ some (id, seq)
      → extract_echo_id_seq parse m ≡ some (id, seq)
  unfolding extract_echo_id_seq extract_quoted or_signed
  quoted-extract m header icmp id seq body h e =
      let inner = parse_inner-header header icmp h ∙ e in rw (body, inner) refl

error_reply-text :
    (itoa : ℤ → String) (text : String) (b : Body)
    → is_empty text ≡ false
    → is_empty (error_reply itoa text b) ≡ false
unfolding error_reply
error_reply-text itoa text (echo id seq d) e = e
error_reply-text itoa text (dst_unreach d) e = e
error_reply-text itoa text (time_exceeded d) e = e
error_reply-text itoa text (param_prob d) e = e
error_reply-text itoa text (packet_too_big mtu d) e = packet_too_big_string-text itoa mtu
error_reply-text itoa text other_body e = e

-- What the worker is told of the error.
abbrev pub lost_reply : (ℤ → String) → Message → ℕ → Reply
lost_reply itoa m seq = record {
  rtt = pos 0;
  ttl = pos 0;
  seq = seq;
  err = error_reply itoa (icmp_error_string m.type m.code) m.body;
}

module _ {F : Type 0} (fl : Floats F) where
  settle-error :
      (r : Reply) (pend : PendingProbe) (now : ℕ) (w : Worker F)
      → find_pending r.seq w.unacked ≡ some pend
      → is_empty r.err ≡ false
      → ((settle_reply fl r now w).target ≡ (on_failure fl pend.stats r.err now w.target).1)
        × ((settle_reply fl r now w).unacked ≡ delete_pending r.seq w.unacked)
  unfolding settle_reply settle_found settle_pending
  settle-error r pend now w at e = rw at (rw e refl, refl)

  -- An ICMP error whose text is that of the IPv4 types, and whose body quotes an IPv4 packet (with any
  -- header length) with an echo request: if the echo's identifier has a channel that is not full, the
  -- channel takes a reply with the echo's sequence number and the text of the error. Where the probe of
  -- that number is outstanding, the reply settles it as a failure with that text.
  pub handle_icmp_error-settled :
      (parse : ℕ → List ℕ → Option Message) (itoa : ℤ → String) (chans : Channels) (m : Message)
      (header icmp : List ℕ) (id seq now : ℕ) (w : Worker F) (pend : PendingProbe)
      → icmp_error_body_data m.body ≡ some (header ++ icmp)
      → Ipv4Header header
      → echo_of (parse 1 icmp) ≡ some (id, seq)
      → has id chans.ids ≡ true
      → has id chans.full ≡ false
      → find_pending seq w.unacked ≡ some pend
      → let r = lost_reply itoa m seq in
        (handle_icmp_error parse itoa icmp_error_string chans m ≡ some (id, r))
        × (((settle_reply fl r now w).target ≡ (on_failure fl pend.stats r.err now w.target).1)
            × ((settle_reply fl r now w).unacked ≡ delete_pending seq w.unacked))
  unfolding handle_icmp_error deliver_error offer
  handle_icmp_error-settled parse itoa chans m header icmp id seq now w pend body h e there room
        at =
      let found = quoted-extract parse m header icmp id seq body h e in
      let text =
        error_reply-text itoa (icmp_error_string m.type m.code) m.body
          (icmp_error_string-text m.type m.code) in
      (rw (found, there, room) refl, settle-error (lost_reply itoa m seq) pend now w at text)
