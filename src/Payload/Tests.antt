-- ===== src/Payload/Tests.antt =====
-- The bytes of a probe in internal/pinger/worker.go and internal/pinger/timestamp.go, at examples.
use mping.Base.{ℕ, ◌≤◌, ◌≡◌, refl, true, some, List, [], ◌∷◌, ◌++◌, arith, length, take}
use mping.Base.Int.{ℤ, pos, ◌+ℤ◌, ◌-ℤ◌, ◌≤ℤ◌, wrap64}
use mping.Payload.{
  payload_signature, copy_bytes, same_bytes, build_payload, time_sub, of_uint64, read_uint,
  embed_send_timestamp, is_plausible_rtt, extract_send_timestamp,
}
use mping.Payload.Roundtrip.{
  extract_send_timestamp-embed_send_timestamp, extract_send_timestamp-some,
}

abbrev second : ℤ
second = pos 1000000000

-- A probe of 56 bytes that is sent 4 µs after the start and answered after 7 µs.
extract_send_timestamp-embed_send_timestamp_example :
    extract_send_timestamp
      (pos 1000)
      (embed_send_timestamp (pos 1000) (build_payload (pos 56)) (pos 5000))
      (pos 12000)
      second
    ≡ some (pos 7000)
unfolding is_plausible_rtt time_sub ◌-ℤ◌ wrap64 ◌+ℤ◌
extract_send_timestamp-embed_send_timestamp_example =
    extract_send_timestamp-embed_send_timestamp (pos 1000) (pos 5000) (pos 12000) second (pos 56)
      (unfold ◌-ℤ◌ in omega arith)

abbrev reply_bytes : List ℕ
reply_bytes = payload_signature ++ (0 ∷ 0 ∷ 0 ∷ 0 ∷ 0 ∷ 0 ∷ 15 ∷ 160 ∷ 65 ∷ [])

extract_send_timestamp-some_example :
    (pos 0 ≤ℤ pos 7000)
    × ((pos 7000 ≤ℤ second +ℤ second)
        × ((13 ≤ length reply_bytes) × (same_bytes (take 5 reply_bytes) payload_signature ≡ true)))
extract_send_timestamp-some_example =
    extract_send_timestamp-some (pos 1000) (pos 12000) second (pos 7000) reply_bytes (omega arith)
      (omega arith)
      (unfold extract_send_timestamp is_plausible_rtt time_sub same_bytes read_uint of_uint64 wrap64
          ◌+ℤ◌ ◌-ℤ◌ in
        refl)

short_payload : build_payload (pos 7) ≡ payload_signature ++ (65 ∷ 65 ∷ [])
unfolding build_payload copy_bytes
short_payload = refl
