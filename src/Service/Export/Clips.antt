-- ===== src/Service/Export/Clips.antt =====
-- nvr_core/service/export.go: what the concat file of an export plays.
use rm_vms.Base.{
  ℕ, ◌≡◌, refl, sym, ap, ◌∙◌, inl, inr, Bool, true, false, ◌&&◌, Option, none, some, List, [], ◌∷◌,
  ◌++◌, All, ◌==◌, if◌then◌else◌, String, Bool-cases, and-true, arith,
}
use rm_vms.Base.Int.{ℤ, sub64, leb_ℤ, ltb_ℤ, ◌≤ℤ◌, ◌+ℤ◌, Within, sub64_exact, int_laws, eq_of_parts}
use rm_vms.Base.Assoc.{String_eq}
use mathlib.Core.List.{append_assoc, append-nil}
use rm_vms.Segment.{Segment}
use rm_vms.Service.Export.Concat.{
  ConcatLine, file, inpoint, outpoint, is_last, in_lines, out_lines, concat_lines,
  build_concat_file, in_range, get_profile_segments_by_range,
}

-- A stretch of time of a file.
pub record Clip : Type 0 where
  pub path : String
  pub base : ℤ
  pub from : ℤ
  pub to : ℤ

-- What ffmpeg plays of such a file, where the segments say when each file was recorded: each file
-- in turn, from the start or the `inpoint` to the end or the `outpoint`, which count from the
-- start of the file.
unfoldable pub whole : String → Segment → Clip
whole path seg = record {
  path = path;
  base = seg.start_time;
  from = seg.start_time;
  to = seg.end_time;
}

unfoldable pub played : Option Clip → List Clip
played none = []
played (some c) = c ∷ []

unfoldable pub enter : ℤ → Option Clip → Option Clip
enter d none = none
enter d (some c) = some (record c { from = c.base +ℤ d })

unfoldable pub leave : ℤ → Option Clip → Option Clip
leave d none = none
leave d (some c) = some (record c { to = c.base +ℤ d })

unfoldable pub play : Option Clip → List Segment → List ConcatLine → List Clip
play now segs [] = played now
play now [] (file path ∷ lines) = played now ++ play none [] lines
play now (seg ∷ segs) (file path ∷ lines) = played now ++ play (some (whole path seg)) segs lines
play now segs (inpoint d ∷ lines) = play (enter d now) segs lines
play now segs (outpoint d ∷ lines) = play (leave d now) segs lines

-- The later and the earlier of two times, and the part of a segment within a range.
unfoldable pub later : ℤ → ℤ → ℤ
later a b = if ltb_ℤ a b then b else a

unfoldable pub earlier : ℤ → ℤ → ℤ
earlier a b = if ltb_ℤ b a then b else a

unfoldable pub clip_within : ℤ → ℤ → Segment → Clip
clip_within start end seg = record {
  path = seg.file_path;
  base = seg.start_time;
  from = later seg.start_time start;
  to = earlier seg.end_time end;
}

unfoldable pub clips_within : ℤ → ℤ → List Segment → List Clip
clips_within start end [] = []
clips_within start end (seg ∷ segs) = clip_within start end seg ∷ clips_within start end segs

-- Times below 2 ^ 62, and a segment that meets the range.
unfoldable pub Meets : ℤ → ℤ → Segment → Type 0
Meets start end seg = Within 62 seg.start_time × (start ≤ℤ seg.end_time) × (seg.start_time ≤ℤ end)

Meets-Within : (start end : ℤ) (seg : Segment) → Meets start end seg → Within 62 seg.start_time
unfolding Meets
Meets-Within start end seg m = m.0

-- Each segment ends before the next one starts.
unfoldable pub InTurn : List Segment → Type 0
InTurn [] = Unit
InTurn (a ∷ []) = Unit
InTurn (a ∷ b ∷ rest) = (a.end_time ≤ℤ b.start_time) × InTurn (b ∷ rest)

base_back : (a b : ℤ) → Within 62 a → Within 62 b → a +ℤ sub64 b a ≡ b
base_back a b ha hb = ap (λ d. a +ℤ d) (sub64_exact b a hb ha) ∙ eq_of_parts _ _ (omega int_laws)

play-in_lines :
    (first : Bool) (seg : Segment) (start : ℤ) (segs : List Segment) (lines : List ConcatLine)
    → Within 62 seg.start_time
    → Within 62 start
    → (first ≡ false → start ≤ℤ seg.start_time)
    → play (some (whole seg.file_path seg)) segs (in_lines first seg start ++ lines)
      ≡ play
          (some (record (whole seg.file_path seg) { from = later seg.start_time start }))
          segs
          lines
unfolding in_lines later play enter whole
play-in_lines true seg start segs lines hs ht after =
    elim (Bool-cases (ltb_ℤ seg.start_time start)) [
      | inl e ↦ rw e (
          ap (λ t. play (some (record (whole seg.file_path seg) { from = t })) segs lines)
            (base_back seg.start_time start hs ht))
      | inr e ↦ rw e refl
    ]
play-in_lines false seg start segs lines hs ht after =
    let s = after refl in let e : ltb_ℤ seg.start_time start ≡ false = ground arith in rw e refl

play-out_lines :
    (last : Bool) (seg : Segment) (from end : ℤ) (segs : List Segment) (lines : List ConcatLine)
    → Within 62 seg.start_time
    → Within 62 end
    → (last ≡ false → seg.end_time ≤ℤ end)
    → play
        (some (record (whole seg.file_path seg) { from = from }))
        segs
        (out_lines last seg end ++ lines)
      ≡ play
          (some (record (whole seg.file_path seg) { from = from; to = earlier seg.end_time end }))
          segs
          lines
unfolding out_lines earlier play leave whole
play-out_lines true seg from end segs lines hs ht before =
    elim (Bool-cases (ltb_ℤ end seg.end_time)) [
      | inl e ↦ rw e (
          ap
            (λ t. play (some (record (whole seg.file_path seg) { from = from; to = t })) segs lines)
            (base_back seg.start_time end hs ht))
      | inr e ↦ rw e refl
    ]
play-out_lines false seg from end segs lines hs ht before =
    let b = before refl in let e : ltb_ℤ end seg.end_time ≡ false = ground arith in rw e refl

-- A segment that another one follows ends within the range.
not_last :
    (start end : ℤ) (seg : Segment) (rest : List Segment)
    → All (Meets start end) rest
    → InTurn (seg ∷ rest)
    → is_last rest ≡ false
    → seg.end_time ≤ℤ end
unfolding is_last InTurn Meets
not_last start end seg [] meets turn e = absurd (cc e)
not_last start end seg (b ∷ rest) ((within, late, early), meets) (before, turn) e = omega arith

-- The segments that follow one start within the range.
rest_InTurn : (seg : Segment) (rest : List Segment) → InTurn (seg ∷ rest) → InTurn rest
unfolding InTurn
rest_InTurn seg [] turn = tt
rest_InTurn seg (b ∷ rest) (before, turn) = turn

-- The first segment, if any, starts at the time or later.
unfoldable StartsFrom : ℤ → List Segment → Type 0
StartsFrom start [] = Unit
StartsFrom start (seg ∷ rest) = start ≤ℤ seg.start_time

rest_StartsFrom :
    (start end : ℤ) (seg : Segment) (rest : List Segment)
    → Meets start end seg
    → InTurn (seg ∷ rest)
    → StartsFrom start rest
unfolding InTurn Meets StartsFrom
rest_StartsFrom start end seg [] meets turn = tt
rest_StartsFrom start end seg (b ∷ rest) (within, late, early) (before, turn) = omega arith

play-concat_lines :
    (first : Bool) (start end : ℤ) (segs : List Segment) (now : Option Clip)
    → Within 62 start
    → Within 62 end
    → All (Meets start end) segs
    → InTurn segs
    → (first ≡ false → StartsFrom start segs)
    → play now segs (concat_lines first segs start end) ≡ played now ++ clips_within start end segs
unfolding concat_lines clips_within clip_within play played whole StartsFrom
play-concat_lines first start end [] now hs he meets turn after = sym (append-nil (played now))
play-concat_lines first start end (seg ∷ rest) now hs he (m, meets) turn after =
    ap (played now ++◌) (
      ap (play (some (whole seg.file_path seg)) rest) (
        append_assoc (in_lines first seg start) (out_lines (is_last rest) seg end)
          (concat_lines false rest start end))
      ∙ play-in_lines first seg start rest _ (Meets-Within start end seg m) hs after
      ∙ play-out_lines (is_last rest) seg (later seg.start_time start) end rest _
          (Meets-Within start end seg m) he (not_last start end seg rest meets turn)
      ∙ play-concat_lines false start end rest _ hs he meets (rest_InTurn seg rest turn)
          (λ e. rest_StartsFrom start end seg rest m turn)
      ∙ refl)

in_range_times :
    (cam_id : ℕ) (profile : String) (start end : ℤ) (seg : Segment)
    → in_range cam_id profile start end seg ≡ true
    → (start ≤ℤ seg.end_time) × (seg.start_time ≤ℤ end)
unfolding in_range
in_range_times cam_id profile start end seg e =
    let same = String_eq.beq seg.profile profile in
    let reaches = leb_ℤ start seg.end_time in
    let begins = leb_ℤ seg.start_time end in
    let times : (same && reaches && begins) ≡ true =
      (and-true (same && reaches && begins) (seg.camera_id == cam_id) e).0 in
    let late : (same && reaches) ≡ true = (and-true (same && reaches) begins times).0 in
    let l : leb_ℤ start seg.end_time ≡ true = (and-true same reaches late).1 in
    let b : leb_ℤ seg.start_time end ≡ true = (and-true (same && reaches) begins times).1 in
    (ground arith, ground arith)

query-Meets :
    (rows : List Segment) (cam_id : ℕ) (profile : String) (start end : ℤ)
    → All (λ seg. Within 62 seg.start_time) rows
    → All (Meets start end) (get_profile_segments_by_range rows cam_id profile start end)
unfolding get_profile_segments_by_range in_range Meets
query-Meets [] cam_id profile start end within = tt
query-Meets (seg ∷ rows) cam_id profile start end (w, within) =
    elim (Bool-cases (in_range cam_id profile start end seg)) [
      | inl e ↦
          let t = in_range_times cam_id profile start end seg e in
          rw e ((w, t.0, t.1), query-Meets rows cam_id profile start end within)
      | inr e ↦ rw e (query-Meets rows cam_id profile start end within)
    ]

-- What the concat file of an export plays is, for each segment that the query finds in the range and
-- in that order, the part of it within the range: the first is entered late and the last is left
-- early where the range asks for it, and nothing else is cut. The times are below 2 ^ 62, and the
-- segments found do not overlap.
pub build_concat_file_plays_range :
    (rows : List Segment) (cam_id : ℕ) (profile : String) (start end : ℤ)
    → All (λ seg. Within 62 seg.start_time) rows
    → Within 62 start
    → Within 62 end
    → InTurn (get_profile_segments_by_range rows cam_id profile start end)
    → play none
        (get_profile_segments_by_range rows cam_id profile start end)
        (build_concat_file (get_profile_segments_by_range rows cam_id profile start end) start end)
      ≡ clips_within start end (get_profile_segments_by_range rows cam_id profile start end)
unfolding build_concat_file played
build_concat_file_plays_range rows cam_id profile start end within hs he turn =
    play-concat_lines true start end (get_profile_segments_by_range rows cam_id profile start end)
      none hs he (query-Meets rows cam_id profile start end within) turn (λ e. absurd (cc e))
