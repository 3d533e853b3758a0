-- ===== src/Payload/Roundtrip.antt =====
-- The send time of a probe comes back with its reply: `buildPayload` in internal/pinger/worker.go
-- and internal/pinger/timestamp.go.
use mping.Base.{
  ℕ, zero, suc, ◌≤◌, ◌≡◌, refl, ap, ◌∙◌, inl, inr, true, false, none, some, List, [], ◌∷◌, ◌++◌,
  arith, ltb, leb, ◌&&◌, Bool-cases, if◌then◌else◌, length, take, drop, replicate, length-append,
  length-take, length-drop, length-replicate,
}
use mping.Base.Int.{ℤ, pos, negsuc, InRange, ◌+ℤ◌, ◌-ℤ◌, ◌≤ℤ◌, ◌<ℤ◌, pos_part, wrap64-eq_of_InRange}
use mping.Payload.{
  payload_signature, timestamp_size, copy_bytes, same_bytes, build_payload, time_sub, to_uint64,
  of_uint64, put_uint, read_uint, embed_send_timestamp, is_plausible_rtt, extract_send_timestamp,
}
use mping.Payload.Bytes.{
  length-put_uint, read_uint-put_uint, of_uint64-to_uint64, to_uint64-lt, time_sub-eq,
  time_sub-InRange, add_sub, same_bytes_refl,
}

length-copy_bytes : (dst src : List ℕ) → length (copy_bytes dst src) ≡ length dst
unfolding copy_bytes
length-copy_bytes [] src = refl
length-copy_bytes (d ∷ dst) [] = refl
length-copy_bytes (d ∷ dst) (s ∷ src) = ap suc (length-copy_bytes dst src)

take-copy_bytes :
    (dst src : List ℕ) → length src ≤ length dst → take (length src) (copy_bytes dst src) ≡ src
unfolding copy_bytes
take-copy_bytes dst [] h = refl
take-copy_bytes [] (s ∷ src) h = elim h [ ]
take-copy_bytes (d ∷ dst) (s ∷ src) h = ap (λ r. s ∷ r) (take-copy_bytes dst src (omega arith))

take-append : (n : ℕ) (xs ys : List ℕ) → length xs ≡ n → take n (xs ++ ys) ≡ xs
take-append zero [] ys h = refl
take-append zero (x ∷ xs) ys h = absurd (omega arith)
take-append (suc n) [] ys h = absurd (omega arith)
take-append (suc n) (x ∷ xs) ys h = ap (λ r. x ∷ r) (take-append n xs ys (omega arith))

drop-append : (n : ℕ) (xs ys : List ℕ) → length xs ≡ n → drop n (xs ++ ys) ≡ ys
drop-append zero [] ys h = refl
drop-append zero (x ∷ xs) ys h = absurd (omega arith)
drop-append (suc n) [] ys h = absurd (omega arith)
drop-append (suc n) (x ∷ xs) ys h = drop-append n xs ys (omega arith)

abbrev filler : ℤ → List ℕ
filler size = replicate (pos_part size) 65

length-filler : (size : ℤ) → length (filler size) ≡ pos_part size
length-filler size = length-replicate {A = ℕ} (pos_part size) 65

length-build_payload : (size : ℤ) → length (build_payload size) ≡ pos_part size
unfolding build_payload
length-build_payload size =
    elim (Bool-cases (ltb (length (filler size)) (length payload_signature))) [
      | inl e ↦ rw e (length-filler size)
      | inr e ↦ rw e (length-copy_bytes (filler size) payload_signature ∙ length-filler size)
    ]

take-build_payload :
    (size : ℤ) → 5 ≤ pos_part size → take 5 (build_payload size) ≡ payload_signature
unfolding build_payload
take-build_payload size h =
    let n = length-filler size in
    let small : ltb (length (filler size)) (length payload_signature) ≡ false = ground (arith, n) in
    rw small (take-copy_bytes (filler size) payload_signature (omega (arith, n)))

-- What stands in a payload of at least 13 bytes after the send time is written.
module _ (proc_start sent : ℤ) (payload : List ℕ) where
  abbrev stamp : List ℕ
  stamp = put_uint timestamp_size (to_uint64 (time_sub sent proc_start))

  embed-large :
      13 ≤ length payload
      → embed_send_timestamp proc_start payload sent ≡ take 5 payload ++ (stamp ++ drop 13 payload)
  unfolding embed_send_timestamp
  embed-large h = let e : ltb (length payload) 13 ≡ false = ground arith in rw e refl

  length-stamp : length stamp ≡ 8
  length-stamp = length-put_uint 8 (to_uint64 (time_sub sent proc_start))

  read-stamp : read_uint 0 stamp ≡ to_uint64 (time_sub sent proc_start)
  read-stamp =
      read_uint-put_uint 8 (to_uint64 (time_sub sent proc_start))
        (to_uint64-lt (time_sub sent proc_start) (time_sub-InRange sent proc_start))

  take-embed :
      13 ≤ length payload → take 5 (embed_send_timestamp proc_start payload sent) ≡ take 5 payload
  take-embed h =
      ap (take 5) (embed-large h)
      ∙ take-append 5 (take 5 payload) (stamp ++ drop 13 payload)
          (omega (arith, length-take 5 payload))

  drop-embed :
      13 ≤ length payload → take 8 (drop 5 (embed_send_timestamp proc_start payload sent)) ≡ stamp
  drop-embed h =
      ap (λ bs. take 8 (drop 5 bs)) (embed-large h)
      ∙ ap (take 8) (
          drop-append 5 (take 5 payload) (stamp ++ drop 13 payload)
            (omega (arith, length-take 5 payload)))
      ∙ take-append 8 stamp (drop 13 payload) length-stamp

  pub length-embed : length (embed_send_timestamp proc_start payload sent) ≡ length payload
  unfolding embed_send_timestamp
  length-embed = elim (Bool-cases (ltb (length payload) 13)) [
    | inl e ↦ rw e refl
    | inr e ↦
        let h : 13 ≤ length payload = ground arith in
        ap length (embed-large h)
        ∙ length-append (take 5 payload) (stamp ++ drop 13 payload)
        ∙ omega (
          arith,
          length-append stamp (drop 13 payload),
          length-take 5 payload,
          length-drop 13 payload,
          length-stamp,
        )
  ]

-- What the receiver makes of a payload that carries the signature and the send time.
extract-stamped :
    (proc_start sent received timeout : ℤ) (bytes : List ℕ)
    → InRange (sent -ℤ proc_start)
    → 13 ≤ length bytes
    → take 5 bytes ≡ payload_signature
    → read_uint 0 (take 8 (drop 5 bytes)) ≡ to_uint64 (time_sub sent proc_start)
    → extract_send_timestamp proc_start bytes received timeout ≡ (
        if is_plausible_rtt (time_sub received sent) timeout
        then some (time_sub received sent)
        else none)
unfolding extract_send_timestamp
extract-stamped proc_start sent received timeout bytes r h sig time =
    let long : ltb (length bytes) 13 ≡ false = ground arith in
    let ours : same_bytes (take 5 bytes) payload_signature ≡ true =
      ap (λ bs. same_bytes bs payload_signature) sig ∙ same_bytes_refl payload_signature in
    let sent_at : proc_start +ℤ of_uint64 (read_uint 0 (take 8 (drop 5 bytes))) ≡ sent =
      ap (λ n. proc_start +ℤ of_uint64 n) time
      ∙ ap (λ d. proc_start +ℤ of_uint64 (to_uint64 d)) (time_sub-eq sent proc_start r)
      ∙ ap (λ d. proc_start +ℤ d) (of_uint64-to_uint64 (sent -ℤ proc_start) r)
      ∙ add_sub sent proc_start in
    rw (long, ours, sent_at) refl

-- The round-trip time that the receiver reads from a probe's payload is the time from its sending
-- to its reception, if the payload has at least 13 bytes and that time is plausible; else it reads
-- none. The send time lies within a duration of the process start.
pub extract_send_timestamp-embed_send_timestamp :
    (proc_start sent received timeout size : ℤ)
    → InRange (sent -ℤ proc_start)
    → extract_send_timestamp proc_start
        (embed_send_timestamp proc_start (build_payload size) sent)
        received
        timeout
      ≡ (if leb 13 (pos_part size) && is_plausible_rtt (time_sub received sent) timeout
          then some (time_sub received sent)
          else none)
unfolding extract_send_timestamp
extract_send_timestamp-embed_send_timestamp proc_start sent received timeout size r =
    let payload = build_payload size in
    let n = length-build_payload size in
    elim (Bool-cases (leb 13 (pos_part size))) [
      | inl e ↦
          let h : 13 ≤ length payload = ground (arith, n) in
          rw e (
            extract-stamped proc_start sent received timeout
              (embed_send_timestamp proc_start payload sent) r
              (omega (arith, h, length-embed proc_start sent payload))
              (take-embed proc_start sent payload h ∙ take-build_payload size (omega (arith, h, n)))
              (ap (read_uint 0) (drop-embed proc_start sent payload h)
                ∙ read-stamp proc_start sent payload))
      | inr e ↦
          let short : ltb (length (embed_send_timestamp proc_start payload sent)) 13 ≡ true =
            ground (arith, n, length-embed proc_start sent payload) in
          rw (e, extract_send_timestamp, short) refl
    ]

plausible-bounds :
    (rtt timeout : ℤ)
    → pos 0 <ℤ timeout
    → timeout ≤ℤ pos 4611686018427387903
    → is_plausible_rtt rtt timeout ≡ true
    → (pos 0 ≤ℤ rtt) × (rtt ≤ℤ timeout +ℤ timeout)
unfolding is_plausible_rtt ◌+ℤ◌
plausible-bounds rtt (pos n) large small e =
    let double = wrap64-eq_of_InRange (pos n +ℤ pos n) (ground arith) in ground (arith, double)
plausible-bounds rtt (negsuc n) large small e = elim large [ ]

-- A round-trip time read from any payload is not negative and at most twice the timeout, and the
-- payload has at least 13 bytes and starts with the signature. The timeout is positive and at most
-- half of the largest duration.
pub extract_send_timestamp-some :
    (proc_start received timeout rtt : ℤ) (bytes : List ℕ)
    → pos 0 <ℤ timeout
    → timeout ≤ℤ pos 4611686018427387903
    → extract_send_timestamp proc_start bytes received timeout ≡ some rtt
    → (pos 0 ≤ℤ rtt)
      × ((rtt ≤ℤ timeout +ℤ timeout)
          × ((13 ≤ length bytes) × (same_bytes (take 5 bytes) payload_signature ≡ true)))
unfolding extract_send_timestamp
extract_send_timestamp-some proc_start received timeout rtt bytes large small e =
    let bounds = plausible-bounds rtt timeout large small in ground (arith, bounds)
