-- ===== src/Service/Playlist/Joined.antt =====
-- The entries of a VOD playlist, from end to start (nvr_core/service/playlist.go).
use rm_vms.Base.{
  ◌≡◌, refl, sym, ap, ◌∙◌, subst, inl, inr, true, false, Option, none, some, List, [], ◌∷◌, ◌++◌,
  arith, Bool-cases, All,
}
use rm_vms.Base.Int.{
  ℤ, pos, ◌≤ℤ◌, ltb_ℤ, ◌+ℤ◌, ◌-ℤ◌, add64, sub64, Within, add64_exact, sub64_exact, +ℤ_parts,
  -ℤ_parts, eq_of_parts, parts_apart,
}
use rm_vms.Segment.{Segment}
use rm_vms.Service.Playlist.{Entry, gap, whole, final, gap_tolerance, gap_before, vod_entries}

-- Where an entry starts and ends.
abbrev pub entry_start : Entry → ℤ
entry_start (gap cam start duration) = start
entry_start (whole seg) = seg.start_time
entry_start (final seg) = seg.start_time

abbrev pub entry_end : Entry → ℤ
entry_end (gap cam start duration) = add64 start duration
entry_end (whole seg) = seg.end_time
entry_end (final seg) = seg.end_time

-- No entry starts more than the tolerance after the end of the one before.
abbrev pub JoinedTo : ℤ → List Entry → Type 0
JoinedTo end [] = Unit
JoinedTo end (e ∷ es) = (sub64 (entry_start e) end ≤ℤ gap_tolerance) × JoinedTo (entry_end e) es

abbrev pub Joined : List Entry → Type 0
Joined [] = Unit
Joined (e ∷ es) = JoinedTo (entry_end e) es

-- Both times are far from the limits of an int64.
abbrev pub Timely : Segment → Type 0
Timely seg = Within 60 seg.start_time × Within 60 seg.end_time

-- The end of the gap before a segment is the start of the segment.
gap_ends : (a b : ℤ) → Within 60 a → Within 60 b → add64 a (sub64 b a) ≡ b
gap_ends a b wa wb =
    let e : sub64 b a ≡ b -ℤ a = sub64_exact b a (omega arith) (omega arith) in
    let parts = -ℤ_parts b a in
    let f : add64 a (b -ℤ a) ≡ a +ℤ (b -ℤ a) =
      add64_exact a (b -ℤ a) (omega arith) (omega (arith, parts, parts_apart (b -ℤ a))) in
    rw e (f ∙ eq_of_parts (a +ℤ (b -ℤ a)) b (omega (arith, parts, +ℤ_parts a (b -ℤ a))))

sub64_self : (a : ℤ) → Within 60 a → sub64 a a ≡ pos 0
sub64_self a w =
    sub64_exact a a (omega arith) (omega arith)
    ∙ eq_of_parts (a -ℤ a) (pos 0) (omega (arith, -ℤ_parts a a))

gap_before-wide :
    (last seg : Segment) (e : Entry) (es : List Entry)
    → ltb_ℤ gap_tolerance (sub64 seg.start_time last.end_time) ≡ true
    → gap_before (some last) seg ++ e ∷ es
      ≡ gap seg.camera_id last.end_time (sub64 seg.start_time last.end_time) ∷ e ∷ es
gap_before-wide last seg e es wide = rw wide refl

gap_before-near :
    (last seg : Segment) (e : Entry) (es : List Entry)
    → ltb_ℤ gap_tolerance (sub64 seg.start_time last.end_time) ≡ false
    → gap_before (some last) seg ++ e ∷ es ≡ e ∷ es
gap_before-near last seg e es near = rw near refl

gap-JoinedTo :
    (last seg : Segment) (e : Entry) (es : List Entry)
    → Timely last
    → Timely seg
    → entry_start e ≡ seg.start_time
    → JoinedTo (entry_end e) es
    → JoinedTo last.end_time (gap_before (some last) seg ++ e ∷ es)
gap-JoinedTo last seg e es tl ts starts joined =
    elim (Bool-cases (ltb_ℤ gap_tolerance (sub64 seg.start_time last.end_time))) [
      | inl wide ↦
          let ends = gap_ends last.end_time seg.start_time tl.1 ts.0 in
          subst (JoinedTo last.end_time) (sym (gap_before-wide last seg e es wide)) (
            rw (sub64_self last.end_time tl.1) (omega arith),
            (rw (ends, starts, sub64_self seg.start_time ts.0) (omega arith), joined),
          )
      | inr near ↦
          subst (JoinedTo last.end_time) (sym (gap_before-near last seg e es near))
            (rw starts (ground arith), joined)
    ]

vod_entries-JoinedTo :
    (last : Segment) (segs : List Segment)
    → Timely last
    → All Timely segs
    → JoinedTo last.end_time (vod_entries (some last) segs)
unfolding vod_entries
vod_entries-JoinedTo last [] tl ts = tt
vod_entries-JoinedTo last (seg ∷ []) tl (t, ts) = gap-JoinedTo last seg (final seg) [] tl t refl tt
vod_entries-JoinedTo last (seg ∷ next ∷ segs) tl (t, ts) =
    gap-JoinedTo last seg (whole seg) (vod_entries (some seg) (next ∷ segs)) tl t refl
      (vod_entries-JoinedTo seg (next ∷ segs) t ts)

-- The segments among the entries.
abbrev pub segments_in : List Entry → List Segment
segments_in [] = []
segments_in (gap cam start duration ∷ es) = segments_in es
segments_in (whole seg ∷ es) = seg ∷ segments_in es
segments_in (final seg ∷ es) = seg ∷ segments_in es

segments_in-gap :
    (last : Option Segment) (seg : Segment) (es : List Entry)
    → segments_in (gap_before last seg ++ es) ≡ segments_in es
segments_in-gap none seg es = refl
segments_in-gap (some last) seg es =
    elim (Bool-cases (ltb_ℤ gap_tolerance (sub64 seg.start_time last.end_time))) [
      | inl wide ↦ rw wide refl
      | inr near ↦ rw near refl
    ]

segments_in-vod_entries :
    (last : Option Segment) (segs : List Segment) → segments_in (vod_entries last segs) ≡ segs
unfolding vod_entries
segments_in-vod_entries last [] = refl
segments_in-vod_entries last (seg ∷ []) = segments_in-gap last seg (final seg ∷ [])
segments_in-vod_entries last (seg ∷ next ∷ segs) =
    segments_in-gap last seg (whole seg ∷ vod_entries (some seg) (next ∷ segs))
    ∙ ap (◌∷◌ seg) (segments_in-vod_entries (some seg) (next ∷ segs))

-- The entries of a VOD playlist are its segments, all of them in their order, with gaps between, and
-- no entry starts more than 300 ms after the end of the one before, where the times of the segments
-- are far from the limits of an int64.
pub vod_entries-Joined :
    (segs : List Segment)
    → All Timely segs
    → (segments_in (vod_entries none segs) ≡ segs) × Joined (vod_entries none segs)
unfolding vod_entries
vod_entries-Joined segs timely = (segments_in-vod_entries none segs, joined segs timely)
  where
    joined : (segs : List Segment) → All Timely segs → Joined (vod_entries none segs)
    joined [] timely = tt
    joined (seg ∷ []) timely = tt
    joined (seg ∷ next ∷ segs) (t, ts) = vod_entries-JoinedTo seg (next ∷ segs) t ts
