-- ===== src/Service/Export/Progress.antt =====
-- nvr_core/service/export.go: the progress that `executeFFmpeg` reads from the output of ffmpeg.
-- The match of a word with the pattern of a time is an argument, the decimals of its seconds as a
-- number and their count.
use rm_vms.Base.{
  ℕ, zero, suc, ◌+◌, ◌*◌, ◌/◌, ◌-◌, ◌^◌, ◌≤◌, inl, inr, Option, none, some, List, [], ◌∷◌, length,
  ltb, ◌==◌, if◌then◌else◌, Bool-cases, arith,
}
use rm_vms.Base.Int.{ℤ, pos, negsuc, pos_part, neg_part, ltb_ℤ, ◌<ℤ◌, ◌≤ℤ◌}
use native.Mathlib.Nat.{div-le_of_le-mul}
use rm_vms.Service.Export.{Percent, percent, minus, not_a_number}

-- `time=HH:MM:SS.ff`, with the seconds as `seconds` / 10 ^ `decimals`.
pub record Time : Type 0 where
  pub hours : ℕ
  pub mins : ℕ
  pub seconds : ℕ
  pub decimals : ℕ

-- The seconds, times 10 ^ decimals.
unfoldable pub current_sec : Time → ℕ
current_sec t = (t.hours * 3600 + t.mins * 60) * 10 ^ t.decimals + t.seconds

-- `if progress > 100 { progress = 100 }`
unfoldable pub capped : ℕ → ℕ → Percent
capped n d = if ltb (100 * d) n then percent 100 1 else percent n d

-- The quotient by the length of the export, which is in milliseconds.
unfoldable pub progress_of : ℤ → Time → Percent
progress_of (pos zero) t = if current_sec t == 0 then not_a_number else percent 100 1
progress_of (pos (suc ms)) t = capped (current_sec t * 100000) (10 ^ t.decimals * suc ms)
progress_of (negsuc ms) t = minus (current_sec t * 100000) (10 ^ t.decimals * suc ms)

-- `int(progress)`, which Go leaves open for no number: the least int on the processors in use.
unfoldable pub to_int : Percent → ℤ
to_int (percent n d) = pos (n / d)
to_int (minus n d) = let q = n / d in if q == 0 then pos 0 else negsuc (q - 1)
to_int not_a_number = negsuc (2 ^ 63 - 1)

-- The calls of `onProgress` over the words of the output.
unfoldable pub watch : ℤ → ℤ → List (Option Time) → List Percent
watch total last [] = []
watch total last (none ∷ words) = watch total last words
watch total last (some t ∷ words) =
    let progress = progress_of total t in
    let reported = watch total (to_int progress) words in
    let skipped = watch total last words in
    if ltb_ℤ last (to_int progress) then progress ∷ reported else skipped

unfoldable pub progress_calls : ℤ → List (Option Time) → List Percent
progress_calls total words = watch total (negsuc 0) words

-- Each call reports a higher whole percent than the one before, at most 100.
unfoldable pub Climbs : ℤ → List Percent → Type 0
Climbs last [] = Unit
Climbs last (p ∷ ps) = (last <ℤ to_int p) × (to_int p ≤ℤ pos 100) × Climbs (to_int p) ps

capped-le-100 : (n d : ℕ) → to_int (capped n d) ≤ℤ pos 100
unfolding capped to_int
capped-le-100 n d = elim (Bool-cases (ltb (100 * d) n)) [
  | inl e ↦ rw e (omega arith)
  | inr e ↦ let q : n / d ≤ 100 = div-le_of_le-mul d (ground arith) in rw e (omega arith)
]

progress_of-le-100 : (total : ℤ) (t : Time) → to_int (progress_of total t) ≤ℤ pos 100
unfolding progress_of to_int capped
progress_of-le-100 (pos zero) t = ground arith
progress_of-le-100 (pos (suc ms)) t =
    capped-le-100 (current_sec t * 100000) (10 ^ t.decimals * suc ms)
progress_of-le-100 (negsuc ms) t = ground arith

watch-Climbs : (total last : ℤ) (words : List (Option Time)) → Climbs last (watch total last words)
unfolding watch Climbs
watch-Climbs total last [] = tt
watch-Climbs total last (none ∷ words) = watch-Climbs total last words
watch-Climbs total last (some t ∷ words) =
    elim (Bool-cases (ltb_ℤ last (to_int (progress_of total t)))) [
      | inl e ↦ rw e (
        ground arith,
        progress_of-le-100 total t,
        watch-Climbs total (to_int (progress_of total t)) words,
      )
      | inr e ↦ rw e (watch-Climbs total last words)
    ]

climb_length :
    (last : ℤ) (ps : List Percent)
    → last ≤ℤ pos 100
    → Climbs last ps
    → length ps + pos_part last ≤ 100 + neg_part last
unfolding Climbs
climb_length last [] small climbs = omega arith
climb_length last (p ∷ ps) small (above, below, climbs) =
    let rest = climb_length (to_int p) ps below climbs in omega arith

-- Whatever ffmpeg prints and however long the export is, 0 or negative included, each call of the
-- progress callback reports a higher whole percent than the one before, none above 100, and there
-- are at most 101 calls.
pub progress_calls_climb :
    (total : ℤ) (words : List (Option Time))
    → Climbs (negsuc 0) (progress_calls total words) × (length (progress_calls total words) ≤ 101)
unfolding progress_calls
progress_calls_climb total words =
    let climbs = watch-Climbs total (negsuc 0) words in
    let few = climb_length (negsuc 0) (watch total (negsuc 0) words) (omega arith) climbs in
    (climbs, omega arith)
