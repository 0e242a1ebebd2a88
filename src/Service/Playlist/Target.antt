-- ===== src/Service/Playlist/Target.antt =====
-- The target duration of a playlist (nvr_core/utils/m3u8/builder.go).
use rm_vms.Base.{◌≡◌, refl, List, [], ◌∷◌, if◌then◌else◌, arith}
use rm_vms.Base.Int.{ℤ, pos, ◌≤ℤ◌, ◌<ℤ◌, ltb_ℤ, sub64, parts_apart}
use rm_vms.Segment.{Segment}
use rm_vms.Service.Playlist.{
  extinf_duration, clamped_duration, max_duration_from, calculate_max_duration,
}

-- The duration of an entry is from 1 ms to 120 s, whatever the times of its segment are.
pub extinf_duration_bounds :
    (start_time end_time : ℤ)
    → (pos 1 ≤ℤ extinf_duration start_time end_time)
      × (extinf_duration start_time end_time ≤ℤ pos 120000)
unfolding extinf_duration
extinf_duration_bounds start_time end_time = ground (arith, parts_apart (sub64 end_time start_time))

clamped_duration_bounds :
    (seg : Segment) → (pos 1 ≤ℤ clamped_duration seg) × (clamped_duration seg ≤ℤ pos 120)
unfolding clamped_duration
clamped_duration_bounds seg = ground (arith, parts_apart (sub64 seg.end_time seg.start_time))

max_duration_from_bounds :
    (m : ℤ) (segs : List Segment)
    → pos 0 ≤ℤ m
    → m ≤ℤ pos 120
    → (m ≤ℤ max_duration_from m segs) × (max_duration_from m segs ≤ℤ pos 120)
unfolding max_duration_from
max_duration_from_bounds m [] low high = (omega arith, high)
max_duration_from_bounds m (seg ∷ segs) low high =
    let (c_low, c_high) = clamped_duration_bounds seg in
    let next : ℤ = if ltb_ℤ m (clamped_duration seg) then clamped_duration seg else m in
    let up : m ≤ℤ next = ground arith in
    let capped : next ≤ℤ pos 120 = ground arith in
    let (le, top) = max_duration_from_bounds next segs (omega arith) capped in (omega arith, top)

-- The target duration of a playlist is from 1 to 120.
calculate_max_duration_bounds :
    (segs : List Segment)
    → (pos 1 ≤ℤ calculate_max_duration segs) × (calculate_max_duration segs ≤ℤ pos 120)
unfolding calculate_max_duration
calculate_max_duration_bounds segs =
    let (low, high) = max_duration_from_bounds (pos 0) segs (omega arith) (omega arith) in
    ground (arith, parts_apart (max_duration_from (pos 0) segs))

clamped_long :
    (seg : Segment) → pos 120 <ℤ sub64 seg.end_time seg.start_time → clamped_duration seg ≡ pos 60
unfolding clamped_duration
clamped_long seg long = ground arith

-- A playlist of one file that is longer than 120 ms and at most 120 s has the target duration 60,
-- whatever the duration of its entry is: the one is clamped in milliseconds, the other in seconds.
calculate_max_duration_in_ms :
    (seg : Segment)
    → pos 120 <ℤ sub64 seg.end_time seg.start_time
    → sub64 seg.end_time seg.start_time ≤ℤ pos 120000
    → (calculate_max_duration (seg ∷ []) ≡ pos 60)
      × (extinf_duration seg.start_time seg.end_time ≡ sub64 seg.end_time seg.start_time)
unfolding calculate_max_duration max_duration_from extinf_duration
calculate_max_duration_in_ms seg long short =
    let c : clamped_duration seg ≡ pos 60 = clamped_long seg long in
    (rw (calculate_max_duration, max_duration_from, c) refl, ground arith)
