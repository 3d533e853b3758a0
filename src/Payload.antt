-- ===== src/Payload.antt =====
-- The bytes of a probe in internal/pinger/worker.go (`buildPayload`) and
-- internal/pinger/timestamp.go: the send time that a probe carries and a reply gives back.
-- A byte is a number below 256, a time the reading of the monotonic clock in nanoseconds.
pub mod Bytes
pub mod Roundtrip
mod Tests
use mping.Base.{
  ℕ, zero, suc, ◌+◌, ◌-◌, ◌*◌, ◌/◌, ◌%◌, Bool, true, false, not, ◌&&◌, Option, none, some, List, [],
  ◌∷◌, ◌++◌, ltb, ◌==◌, if◌then◌else◌, length, take, drop, replicate,
}
use mping.Base.Int.{ℤ, pos, negsuc, ◌+ℤ◌, ◌-ℤ◌, ltb_ℤ, pos_part, neg_part, two63, two64, wrap64}

-- "MPING"
abbrev pub payload_signature : List ℕ
payload_signature = 77 ∷ 80 ∷ 73 ∷ 78 ∷ 71 ∷ []

abbrev pub timestamp_size : ℕ
timestamp_size = 8

abbrev pub timestamp_offset : ℕ
timestamp_offset = length payload_signature

abbrev pub min_timestamp_payload_size : ℕ
min_timestamp_payload_size = timestamp_offset + timestamp_size

-- Go's `copy`: as many bytes as both slices have.
unfoldable pub copy_bytes : List ℕ → List ℕ → List ℕ
copy_bytes [] src = []
copy_bytes (d ∷ dst) [] = d ∷ dst
copy_bytes (d ∷ dst) (s ∷ src) = s ∷ copy_bytes dst src

unfoldable pub same_bytes : List ℕ → List ℕ → Bool
same_bytes [] [] = true
same_bytes [] (y ∷ ys) = false
same_bytes (x ∷ xs) [] = false
same_bytes (x ∷ xs) (y ∷ ys) = (x == y) && same_bytes xs ys

-- A payload of 'A's that starts with the signature if it has room.
unfoldable pub build_payload : ℤ → List ℕ
build_payload size =
    let payload = replicate (pos_part size) 65 in
    if ltb (length payload) (length payload_signature)
    then payload
    else copy_bytes payload payload_signature

-- `Time.Sub` stops at the ends of a `Duration`, `Time.Add` is exact.
unfoldable pub time_sub : ℤ → ℤ → ℤ
time_sub a b =
    let d = a -ℤ b in
    if ltb_ℤ d (pos two63)
    then if ltb_ℤ d (negsuc (two63 - 1)) then negsuc (two63 - 1) else d
    else pos (two63 - 1)

-- The conversions between `int64` and `uint64`.
unfoldable pub to_uint64 : ℤ → ℕ
to_uint64 (pos n) = n
to_uint64 (negsuc n) = two64 - 1 - n

unfoldable pub of_uint64 : ℕ → ℤ
of_uint64 n = if ltb n two63 then pos n else negsuc (two64 - 1 - n)

-- `binary.BigEndian`: the most significant byte first.
unfoldable pub put_uint : ℕ → ℕ → List ℕ
put_uint zero v = []
put_uint (suc k) v = put_uint k (v / 256) ++ (v % 256 ∷ [])

unfoldable pub read_uint : ℕ → List ℕ → ℕ
read_uint acc [] = acc
read_uint acc (b ∷ bs) = read_uint (acc * 256 + b) bs

unfoldable pub embed_send_timestamp : ℤ → List ℕ → ℤ → List ℕ
embed_send_timestamp proc_start payload sent =
    if ltb (length payload) min_timestamp_payload_size
    then payload
    else let elapsed = to_uint64 (time_sub sent proc_start) in
      take timestamp_offset payload
      ++ (put_uint timestamp_size elapsed ++ drop (timestamp_offset + timestamp_size) payload)

unfoldable pub is_plausible_rtt : ℤ → ℤ → Bool
is_plausible_rtt rtt timeout =
    if ltb_ℤ rtt (pos 0)
    then false
    else if ltb_ℤ (pos 0) timeout && ltb_ℤ (wrap64 (timeout +ℤ timeout)) rtt
    then false
    else true

unfoldable pub extract_send_timestamp : ℤ → List ℕ → ℤ → ℤ → Option ℤ
extract_send_timestamp proc_start bytes received timeout =
    if ltb (length bytes) min_timestamp_payload_size
    then none
    else if not (same_bytes (take (length payload_signature) bytes) payload_signature)
    then none
    else let elapsed = read_uint 0 (take timestamp_size (drop timestamp_offset bytes)) in
      let sent_at = proc_start +ℤ of_uint64 elapsed in
      let rtt = time_sub received sent_at in if is_plausible_rtt rtt timeout then some rtt else none
