-- ===== src/Checks.antt =====
-- internal/stats/portcheck.go and internal/stats/httpcheck.go: the results of repeated port and HTTP
-- checks. A status is the source's text. `now` is the clock's reading, in nanoseconds; a time field
-- is `none` for the zero time. `mutations` is as in Route.
use mping.Base.{ℕ, ◌+◌, Bool, ◌&&◌, ◌||◌, Option, none, some, List, if◌then◌else◌}
use mping.Base.Int.{ℤ, pos, leb_ℤ, ltb_ℤ}
use mping.Base.Float.{Floats}
use mping.Base.Text.{String, str_eq}
use mping.Rtt.{RttAccumulator, fresh, record_rtt, append_history, avg, stddev, history_snapshot}
pub mod Counts
pub mod Tests

-- stats.go: about five minutes of samples at the shortest interval.
abbrev pub history_size : ℕ
history_size = 3000

pub record PortCheckResult (F : Type 0) : Type 0 where
  pub port : ℤ
  pub protocol : String
  pub status : String
  pub last_rtt : ℤ
  pub open_count : ℕ
  pub closed_count : ℕ
  pub last_change : Option ℕ
  pub rtt : RttAccumulator F
  pub mutations : ℕ

pub record PortCheckView : Type 0 where
  pub port : ℤ
  pub protocol : String
  pub status : String
  pub last_rtt : ℤ
  pub min_rtt : ℤ
  pub avg_rtt : ℤ
  pub max_rtt : ℤ
  pub std_dev : ℤ
  pub history : List ℤ
  pub open_count : ℕ
  pub closed_count : ℕ
  pub last_change : Option ℕ

pub record HttpCheckResult (F : Type 0) : Type 0 where
  pub url : String
  pub status_code : ℤ
  pub status : String
  pub last_rtt : ℤ
  pub up_count : ℕ
  pub down_count : ℕ
  pub last_change : Option ℕ
  pub rtt : RttAccumulator F
  pub mutations : ℕ

module _ {F : Type 0} (fl : Floats F) where
  unfoldable pub new_port_check : ℤ → String → PortCheckResult F
  new_port_check port protocol = record {
    port = port;
    protocol = protocol;
    status = "Checking...";
    last_rtt = pos 0;
    open_count = 0;
    closed_count = 0;
    last_change = none;
    rtt = fresh fl;
    mutations = 0;
  }

  -- `recordRTT` of a port.
  unfoldable pub record_open_rtt : ℤ → RttAccumulator F → RttAccumulator F
  record_open_rtt d a =
      if leb_ℤ d (pos 0) then a else append_history d history_size (record_rtt fl d a)

  -- `PortCheckResult.SetResult`.
  unfoldable pub set_port_result : String → ℤ → ℕ → PortCheckResult F → PortCheckResult F
  set_port_result status rtt now r =
      let is_open = str_eq status "Open" in
      let is_closed =
        str_eq status "Closed" || str_eq status "Filtered" || str_eq status "Open|Filtered" in
      record r {
        last_change = if str_eq status r.status then r.last_change else some now;
        status = status;
        last_rtt = rtt;
        open_count = if is_open then r.open_count + 1 else r.open_count;
        rtt = if is_open then record_open_rtt rtt r.rtt else r.rtt;
        closed_count =
            if is_open
            then r.closed_count
            else if is_closed
            then r.closed_count + 1
            else r.closed_count;
        mutations = r.mutations + 1;
      }

  -- `PortCheckResult.GetView`.
  unfoldable pub port_view : PortCheckResult F → PortCheckView
  port_view r = record {
    port = r.port;
    protocol = r.protocol;
    status = r.status;
    last_rtt = r.last_rtt;
    min_rtt = r.rtt.min_rtt;
    avg_rtt = avg r.rtt;
    max_rtt = r.rtt.max_rtt;
    std_dev = stddev fl r.rtt;
    history = history_snapshot r.rtt;
    open_count = r.open_count;
    closed_count = r.closed_count;
    last_change = r.last_change;
  }

  unfoldable pub new_http_check : String → HttpCheckResult F
  new_http_check url = record {
    url = url;
    status_code = pos 0;
    status = "Checking...";
    last_rtt = pos 0;
    up_count = 0;
    down_count = 0;
    last_change = none;
    rtt = fresh fl;
    mutations = 0;
  }

  -- `err` is whether the request failed.
  unfoldable pub http_status : ℤ → Bool → String
  http_status code err =
      if err then "Error" else if leb_ℤ (pos 200) code && ltb_ℤ code (pos 400) then "Up" else "Down"

  -- `HTTPCheckResult.SetResult`.
  unfoldable pub set_http_result : ℤ → ℤ → Bool → ℕ → HttpCheckResult F → HttpCheckResult F
  set_http_result code rtt err now r =
      let status = http_status code err in
      let up = str_eq status "Up" in
      record r {
        last_change = if str_eq status r.status then r.last_change else some now;
        status = status;
        status_code = code;
        last_rtt = rtt;
        up_count = if up then r.up_count + 1 else r.up_count;
        rtt = if up then record_rtt fl rtt r.rtt else r.rtt;
        down_count = if up then r.down_count else r.down_count + 1;
        mutations = r.mutations + 1;
      }
