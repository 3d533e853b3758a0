-- ===== src/Rtt.antt =====
-- internal/stats/rtt_accumulator.go: round-trip statistics and their ring buffer.
-- A `time.Duration` is an int64 of nanoseconds, written as a ℤ with `wrap64` at each operation.
use mping.Base.{
  ℕ, ◌+◌, ◌-◌, ◌%◌, min, ◌||◌, Option, none, some, List, [], ◌++◌, length, take, drop, set,
  replicate, leb, ltb, ◌==◌, if◌then◌else◌,
}
use mping.Base.Int.{ℤ, pos, ◌+ℤ◌, ◌-ℤ◌, wrap64, quot, leb_ℤ, ltb_ℤ, eqb_ℤ}
use mping.Base.Float.{Floats}
pub mod Ring
pub mod Window
pub mod Bounds
pub mod Jitter
pub mod Tests

-- `history` is `none` for the nil slice.
pub record RttAccumulator (F : Type 0) : Type 0 where
  pub min_rtt : ℤ
  pub max_rtt : ℤ
  pub sum : ℤ
  pub samples : ℕ
  pub mean : F
  pub m2 : F
  pub history : Option (List ℤ)
  pub history_idx : ℕ
  pub history_len : ℕ

module _ {F : Type 0} (fl : Floats F) where
  -- The zero value of the struct.
  unfoldable pub fresh : RttAccumulator F
  fresh = record {
    min_rtt = pos 0;
    max_rtt = pos 0;
    sum = pos 0;
    samples = 0;
    mean = fl.of_int (pos 0);
    m2 = fl.of_int (pos 0);
    history = none;
    history_idx = 0;
    history_len = 0;
  }

  -- `record`: a Welford step beside minimum, maximum and sum, for a positive time only.
  unfoldable pub record_rtt : ℤ → RttAccumulator F → RttAccumulator F
  record_rtt rtt a =
      let n = a.samples + 1 in
      let x = fl.of_int rtt in
      let delta = fl.sub x a.mean in
      let mean' = fl.add a.mean (fl.div delta (fl.of_int (pos n))) in
      let delta2 = fl.sub x mean' in
      if leb_ℤ rtt (pos 0) then a else record a {
        samples = n;
        sum = wrap64 (a.sum +ℤ rtt);
        min_rtt = if eqb_ℤ a.min_rtt (pos 0) || ltb_ℤ rtt a.min_rtt then rtt else a.min_rtt;
        max_rtt = if ltb_ℤ a.max_rtt rtt then rtt else a.max_rtt;
        mean = mean';
        m2 = fl.add a.m2 (fl.mul delta delta2);
      }

  unfoldable pub stddev : RttAccumulator F → ℤ
  stddev a =
      if ltb a.samples 2
      then pos 0
      else fl.to_int (fl.sqrt (fl.div a.m2 (fl.of_int (pos a.samples))))

unfoldable pub avg : {F : Type 0} → RttAccumulator F → ℤ
avg a = if a.samples == 0 then pos 0 else quot a.sum a.samples

-- The buffer to write into: allocated at the first use.
abbrev pub buffer : Option (List ℤ) → ℕ → List ℤ
buffer none capacity = replicate capacity (pos 0)
buffer (some h) capacity = h

unfoldable pub append_history : {F : Type 0} → ℤ → ℕ → RttAccumulator F → RttAccumulator F
append_history rtt capacity a = record a {
  history = some (set (buffer a.history capacity) (a.history_idx % capacity) rtt);
  history_idx = a.history_idx + 1;
  history_len = if ltb a.history_len capacity then a.history_len + 1 else a.history_len;
}

unfoldable pub update_jitter : ℤ → ℤ → ℤ → ℤ
update_jitter jitter rtt last =
    let d = wrap64 (rtt -ℤ last) in
    let delta = if ltb_ℤ d (pos 0) then wrap64 (pos 0 -ℤ d) else d in
    wrap64 (jitter +ℤ quot (wrap64 (delta -ℤ jitter)) 16)

-- The nil slice and an empty one read the same: both are `[]` here.
unfoldable pub reconstruct_history : Option (List ℤ) → ℕ → ℕ → List ℤ
reconstruct_history none idx len = []
reconstruct_history (some buf) idx len =
    let size = length buf in
    let start = idx % size in
    if len == 0 then [] else if ltb len size then take len buf else drop start buf ++ take start buf

-- `((idx-effLen)%size + size) % size`, where Go's `%` has the sign of the dividend.
abbrev pub window_start : ℕ → ℕ → ℕ → ℕ
window_start idx eff size =
    if leb eff idx then ((idx - eff) % size + size) % size else (size - (eff - idx) % size) % size

unfoldable pub reconstruct_window : Option (List ℤ) → ℕ → ℕ → ℕ → List ℤ
reconstruct_window none idx len n = []
reconstruct_window (some buf) idx len n =
    let size = length buf in
    let eff = min n len in
    let start = window_start idx eff size in
    if len == 0 || n == 0
    then []
    else if ltb len size
    then drop (len - eff) (take len buf)
    else if leb (start + eff) size
    then take eff (drop start buf)
    else drop start buf ++ take (eff - (size - start)) buf

abbrev pub history_snapshot : {F : Type 0} → RttAccumulator F → List ℤ
history_snapshot a = reconstruct_history a.history a.history_idx a.history_len

abbrev pub history_snapshot_window : {F : Type 0} → RttAccumulator F → ℕ → List ℤ
history_snapshot_window a n = reconstruct_window a.history a.history_idx a.history_len n
