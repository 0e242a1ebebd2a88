-- ===== src/Service/Timeline/Blocks.antt =====
-- The groups of segments of which the blocks of a timeline are made (nvr_core/service/timeline.go).
use rm_vms.Base.{
  ◌≡◌, ◌≢◌, ◌∙◌, inl, inr, refl, ap, true, false, List, [], ◌∷◌, ◌++◌, map, All, if◌then◌else◌,
  Bool-cases, arith,
}
use rm_vms.Base.Int.{ℤ, pos, ◌≤ℤ◌, ◌<ℤ◌, leb_ℤ, ltb_ℤ, add64}
use rm_vms.Segment.{Segment}
use rm_vms.Service.Timeline.{
  TimeRange, div_1000, convert_to_seconds, gap_tolerance_seconds, extend, timeline_from,
  timeline_of_sorted, segments_to_timeline,
}

-- The later of two times, and of a time and the ends of segments.
abbrev pub later : ℤ → ℤ → ℤ
later a b = if ltb_ℤ a b then b else a

abbrev pub latest : ℤ → List Segment → ℤ
latest last [] = last
latest last (seg ∷ segs) = latest (later last seg.end_time) segs

-- A group: its first segment and the others.
abbrev pub Group : Type 0
Group = Segment × List Segment

abbrev pub group_end : Group → ℤ
group_end (seg, segs) = latest seg.end_time segs

-- The segments of all groups, in their order.
abbrev pub members : List Group → List Segment
members [] = []
members ((seg, segs) ∷ groups) = seg ∷ (segs ++ members groups)

-- Each segment starts at `start` or later, and at most the tolerance after the latest end before it.
abbrev pub Linked : ℤ → ℤ → List Segment → Type 0
Linked start last [] = Unit
Linked start last (seg ∷ segs) =
    (start ≤ℤ seg.start_time)
    × (seg.start_time ≤ℤ add64 last gap_tolerance_seconds)
    × Linked start (later last seg.end_time) segs

abbrev pub IsGroup : Group → Type 0
IsGroup (seg, segs) = Linked seg.start_time seg.end_time segs

-- Each group starts more than the tolerance after the latest end of the one before, `last`.
abbrev pub After : ℤ → List Group → Type 0
After last [] = Unit
After last (g ∷ groups) =
    (add64 last gap_tolerance_seconds <ℤ g.0.start_time) × After (group_end g) groups

abbrev pub Apart : List Group → Type 0
Apart [] = Unit
Apart (g ∷ groups) = After (group_end g) groups

-- The block of a group in whole seconds: from the one after the second in which its first segment
-- starts to the one of the latest end of its segments.
abbrev pub seconds : ℤ → ℤ → TimeRange
seconds start end = record { start_time = add64 (div_1000 start) (pos 1); end_time = div_1000 end }

abbrev pub block_in_seconds : Group → TimeRange
block_in_seconds g = seconds g.0.start_time (group_end g)

-- Segments in the order of their start times, none before `start`.
abbrev pub SortedFrom : ℤ → List Segment → Type 0
SortedFrom start [] = Unit
SortedFrom start (seg ∷ segments) = (start ≤ℤ seg.start_time) × SortedFrom seg.start_time segments

abbrev pub Sorted : List Segment → Type 0
Sorted [] = Unit
Sorted (seg ∷ segments) = SortedFrom seg.start_time segments

-- What a timeline of segments is: they fall into groups, in their order, such that within a group
-- no gap is above the tolerance of 5000 ms and every gap between groups is, and the timeline has
-- one block for each group, in whole seconds.
unfoldable pub IsTimeline : List Segment → List TimeRange → Type 0
IsTimeline segments timeline =
    (groups : List Group) × (members groups ≡ segments)
    × (timeline ≡ map block_in_seconds groups)
    × All IsGroup groups
    × Apart groups

weaken_start :
    (a b : ℤ) (segments : List Segment) → a ≤ℤ b → SortedFrom b segments → SortedFrom a segments
weaken_start a b [] le sorted = tt
weaken_start a b (seg ∷ segments) le (first, rest) = (omega arith, rest)

extend-range :
    (start last : ℤ) (seg : Segment)
    → extend (record { start_time = start; end_time = last }) seg
      ≡ record { start_time = start; end_time = later last seg.end_time }
extend-range start last seg = elim (Bool-cases (ltb_ℤ last seg.end_time)) [
  | inl longer ↦ rw longer refl
  | inr within ↦ rw within refl
]

abbrev range : ℤ → ℤ → TimeRange
range start last = record { start_time = start; end_time = last }

-- The current block goes on with the segments `run`, and the groups follow.
abbrev Splits : ℤ → ℤ → List Segment → List TimeRange → Type 0
Splits start last segments timeline =
    (run : List Segment) × (groups : List Group) × (run ++ members groups ≡ segments)
    × (timeline ≡ seconds start (latest last run) ∷ map block_in_seconds groups)
    × Linked start last run
    × All IsGroup groups
    × After (latest last run) groups

timeline_from-near :
    (start last : ℤ) (seg : Segment) (segments : List Segment)
    → leb_ℤ seg.start_time (add64 last gap_tolerance_seconds) ≡ true
    → timeline_from (range start last) (seg ∷ segments)
      ≡ timeline_from (range start (later last seg.end_time)) segments
unfolding timeline_from
timeline_from-near start last seg segments near =
    rw near (ap (λ block. timeline_from block segments) (extend-range start last seg))

timeline_from-far :
    (start last : ℤ) (seg : Segment) (segments : List Segment)
    → leb_ℤ seg.start_time (add64 last gap_tolerance_seconds) ≡ false
    → timeline_from (range start last) (seg ∷ segments)
      ≡ seconds start last ∷ timeline_from (range seg.start_time seg.end_time) segments
unfolding timeline_from convert_to_seconds
timeline_from-far start last seg segments far = rw far refl

timeline_from-Splits :
    (start last : ℤ) (segments : List Segment)
    → SortedFrom start segments
    → Splits start last segments (timeline_from (range start last) segments)
unfolding timeline_from convert_to_seconds
timeline_from-Splits start last [] sorted = ([], [], refl, refl, tt, tt, tt)
timeline_from-Splits start last (seg ∷ segments) (first, sorted) =
    elim (Bool-cases (leb_ℤ seg.start_time (add64 last gap_tolerance_seconds))) [
      | inl near ↦
          let (run, groups, all, blocks, linked, each, apart) =
            timeline_from-Splits start (later last seg.end_time) segments
              (weaken_start start seg.start_time segments first sorted) in
          (
            seg ∷ run,
            groups,
            ap (◌∷◌ seg) all,
            timeline_from-near start last seg segments near ∙ blocks,
            (first, ground arith, linked),
            each,
            apart,
          )
      | inr far ↦
          let (run, groups, all, blocks, linked, each, apart) =
            timeline_from-Splits seg.start_time seg.end_time segments sorted in
          (
            [],
            (seg, run) ∷ groups,
            ap (◌∷◌ seg) all,
            timeline_from-far start last seg segments far ∙ ap (◌∷◌ (seconds start last)) blocks,
            tt,
            (linked, each),
            (ground arith, apart),
          )
    ]

timeline_of_sorted-IsTimeline :
    (segments : List Segment) → Sorted segments → IsTimeline segments (timeline_of_sorted segments)
unfolding IsTimeline
timeline_of_sorted-IsTimeline [] sorted = ([], refl, refl, tt, tt)
timeline_of_sorted-IsTimeline (seg ∷ segments) sorted =
    let (run, groups, all, blocks, linked, each, apart) =
      timeline_from-Splits seg.start_time seg.end_time segments sorted in
    ((seg, run) ∷ groups, ap (◌∷◌ seg) all, blocks, (linked, each), apart)

-- Where there are segments and the sort returns them in the order of their start times, the
-- timeline has exactly one block for each maximal group of the sorted segments without a gap above
-- 5000 ms, in the arithmetic of int64: each segment but the first of a group starts at most 5000 ms after the latest end of
-- those before it, and each next group starts more than 5000 ms after the latest end of the group
-- before. The block starts one second after the start of the first segment in whole seconds, and
-- ends at the latest end of its segments in whole seconds.
pub segments_to_timeline-IsTimeline :
    (sort : List Segment → List Segment) (segments : List Segment)
    → segments ≢ []
    → Sorted (sort segments)
    → IsTimeline (sort segments) (segments_to_timeline sort segments)
unfolding segments_to_timeline
segments_to_timeline-IsTimeline sort [] some_segment sorted = absurd (some_segment refl)
segments_to_timeline-IsTimeline sort (seg ∷ segments) some_segment sorted =
    timeline_of_sorted-IsTimeline (sort (seg ∷ segments)) sorted
