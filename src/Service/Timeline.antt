-- ===== src/Service/Timeline.antt =====
-- `segmentsToTimeline` of nvr_core/service/timeline.go, and nvr_core/apiserver/dto/timeline.go: the
-- recorded files of a camera as blocks of time. `sort.Slice` is a parameter of the model.
pub mod Blocks
use rm_vms.Base.{ℕ, zero, suc, ◌+◌, ◌/◌, ◌≡◌, Bool, List, [], ◌∷◌, map, if◌then◌else◌}
use rm_vms.Base.Int.{ℤ, pos, negsuc, leb_ℤ, ltb_ℤ, add64}
use rm_vms.Segment.{Segment}

-- `TimeRange`, and `TimelineBlock`, which has nothing else.
pub record TimeRange : Type 0 where
  pub start_time : ℤ
  pub end_time : ℤ

-- A quotient of integers of Go drops the fraction.
abbrev pub negate : ℕ → ℤ
negate zero = pos 0
negate (suc n) = negsuc n

abbrev pub div_1000 : ℤ → ℤ
div_1000 (pos n) = pos (n / 1000)
div_1000 (negsuc n) = negate (suc n / 1000)

unfoldable pub convert_to_seconds : TimeRange → TimeRange
convert_to_seconds tb = record {
  start_time = add64 (div_1000 tb.start_time) (pos 1);
  end_time = div_1000 tb.end_time;
}

-- A block that starts as the one of the segment.
abbrev pub block_of : Segment → TimeRange
block_of seg = record { start_time = seg.start_time; end_time = seg.end_time }

abbrev pub gap_tolerance_seconds : ℤ
gap_tolerance_seconds = pos 5000

abbrev pub extend : TimeRange → Segment → TimeRange
extend block seg =
    if ltb_ℤ block.end_time seg.end_time then record block { end_time = seg.end_time } else block

-- The loop over the segments from the second on, with `currentBlock`: the blocks it appends, and
-- the final block.
unfoldable pub timeline_from : TimeRange → List Segment → List TimeRange
timeline_from current [] = convert_to_seconds current ∷ []
timeline_from current (seg ∷ segments) =
    if leb_ℤ seg.start_time (add64 current.end_time gap_tolerance_seconds)
    then timeline_from (extend current seg) segments
    else convert_to_seconds current ∷ timeline_from (block_of seg) segments

abbrev pub timeline_of_sorted : List Segment → List TimeRange
timeline_of_sorted [] = []
timeline_of_sorted (seg ∷ segments) = timeline_from (block_of seg) segments

-- `sort` is `sort.Slice` with the comparison of start times.
unfoldable pub segments_to_timeline : (List Segment → List Segment) → List Segment → List TimeRange
segments_to_timeline sort [] = []
segments_to_timeline sort (seg ∷ segments) = timeline_of_sorted (sort (seg ∷ segments))
