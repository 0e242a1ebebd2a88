-- ===== src/Transmux/Clock/Order.antt =====
-- One call of nvr_core/transmux/clock.go: the order of what it returns.
use rm_vms.Base.{ℕ, suc, ◌+◌, ◌^◌, ◌≤◌, ◌<◌, ◌≡◌, refl, sym, subst, ◌∙◌, arith}
use rm_vms.Base.Int.{
  ℤ, pos, pos_part, neg_part, ◌+ℤ◌, ◌-ℤ◌, ◌≤ℤ◌, ◌<ℤ◌, add64, sub64, Within, add64_exact,
  sub64_exact, parts_apart, +ℤ_parts, -ℤ_parts,
}
use rm_vms.Transmux.Clock.{
  StreamClock, anchor, after_last, norm_pts_of, normalize_video, normalize_audio,
}

norm_pts_of-ge : (p d : ℤ) → d ≤ℤ norm_pts_of p d
unfolding norm_pts_of
norm_pts_of-ge p d = ground arith

-- On every path, whatever the state and the input, the presentation time that is returned is not
-- before the decoding time, for video and for audio.
normalize_dts-le-pts :
    (c : StreamClock) (pts dts : ℤ)
    → ((normalize_video c pts dts).1.dts ≤ℤ (normalize_video c pts dts).1.pts)
      × ((normalize_audio c pts dts).1.1 ≤ℤ (normalize_audio c pts dts).1.0)
unfolding normalize_video normalize_audio
normalize_dts-le-pts c pts dts = (norm_pts_of-ge _ _, norm_pts_of-ge _ _)

-- What one call needs so that no sum wraps. `k` bounds the number of calls so far.
pub record Bounded (k : ℕ) (c : StreamClock) : Type 0 where
  pub few : k < 2 ^ 60
  pub anchor_small : Within 60 c.anchor_base
  pub video_low : neg_part c.last_video_dts ≡ 0
  pub video_high : pos_part c.last_video_dts ≤ 2 ^ 61 + k
  pub audio_low : neg_part c.last_audio_dts ≡ 0
  pub audio_high : pos_part c.last_audio_dts ≤ 2 ^ 61 + k
  pub pcr_synced : c.last_pcr ≡ c.last_video_dts
  pub buffer : c.buffer_ticks ≡ pos 90000

-- The anchor is never after the packet.
pub anchor-le : (c : StreamClock) (dts : ℤ) → (anchor c dts).anchor_base ≤ℤ dts
unfolding anchor
anchor-le c dts = ground arith

pub anchor-Bounded :
    (k : ℕ) (c : StreamClock) (dts : ℤ) → Within 60 dts → Bounded k c → Bounded k (anchor c dts)
unfolding anchor
anchor-Bounded k c dts w b = ground arith

anchor_keeps :
    (c : StreamClock) (dts : ℤ)
    → ((anchor c dts).last_video_dts ≡ c.last_video_dts)
      × ((anchor c dts).last_audio_dts ≡ c.last_audio_dts)
      × ((anchor c dts).last_pcr ≡ c.last_pcr)
      × ((anchor c dts).buffer_ticks ≡ c.buffer_ticks)
unfolding anchor
anchor_keeps c dts = ground arith

-- The clamp yields a value above the last one, and moves up by one where the input is too low.
pub after_last_bounds :
    (x last : ℤ) (m : ℕ)
    → neg_part last ≡ 0
    → pos_part last ≤ m
    → x ≤ℤ pos m
    → m < 2 ^ 61 + 2 ^ 60
    → (last <ℤ after_last x last)
      × (neg_part (after_last x last) ≡ 0)
      × (pos_part (after_last x last) ≤ m + 1)
unfolding after_last
after_last_bounds x last m low high xm small =
    let e : add64 last (pos 1) ≡ last +ℤ pos 1 =
      add64_exact last (pos 1) (omega arith) (omega arith) in
    ground (arith, e, +ℤ_parts last (pos 1), parts_apart x, parts_apart (last +ℤ pos 1))

elapsed_high : (dts base : ℤ) → Within 60 dts → Within 60 base → sub64 dts base ≤ℤ pos (2 ^ 61)
elapsed_high dts base w v =
    let e : sub64 dts base ≡ dts -ℤ base = sub64_exact dts base (omega arith) (omega arith) in
    rw e (omega (arith, -ℤ_parts dts base))

-- With the PCR in step with the video clock, its own clamp never moves it.
after_last_again : (x last : ℤ) → last <ℤ x → after_last x last ≡ x
unfolding after_last
after_last_again x last h = ground arith

-- The clamped time of a packet against the clock of its own medium.
ticks_bounds :
    (k : ℕ) (dts base last : ℤ)
    → suc k < 2 ^ 60
    → Within 60 dts
    → Within 60 base
    → neg_part last ≡ 0
    → pos_part last ≤ 2 ^ 61 + k
    → let ticks = after_last (sub64 dts base) last in
      (last <ℤ ticks) × (neg_part ticks ≡ 0) × (pos_part ticks ≤ 2 ^ 61 + suc k)
ticks_bounds k dts base last few w v low high =
    let (up, low', high') =
      after_last_bounds (sub64 dts base) last (2 ^ 61 + k) low high
        (omega (arith, elapsed_high dts base w v)) (omega arith) in
    (up, low', omega (arith, high'))

-- Within the bounds that keep sums from wrapping, one video packet takes the PCR and the video
-- clock up strictly, by the same value, and keeps the clock within the bounds of one call more.
pub normalize_video_steps :
    (k : ℕ) (c : StreamClock) (pts dts : ℤ)
    → suc k < 2 ^ 60
    → Within 60 dts
    → Bounded k c
    → (Bounded (suc k) (normalize_video c pts dts).0)
      × (c.last_pcr <ℤ (normalize_video c pts dts).1.pcr_base)
      × ((normalize_video c pts dts).0.last_pcr ≡ (normalize_video c pts dts).1.pcr_base)
unfolding normalize_video
normalize_video_steps k c pts dts few w b = (
  record {
    few = few;
    anchor_small = b'.anchor_small;
    video_low = step.1;
    video_high = step.2;
    audio_low = b'.audio_low;
    audio_high = omega (arith, b'.audio_high);
    pcr_synced = same;
    buffer = b'.buffer;
  },
  subst (λ x. x <ℤ pcr) last_same (subst (λ y. last <ℤ y) (sym same) step.0),
  refl,
)
  where
    last : ℤ
    last = (anchor c dts).last_video_dts

    pcr : ℤ
    pcr =
        after_last (after_last (sub64 dts (anchor c dts).anchor_base) last) (anchor c dts).last_pcr

    last_same : last ≡ c.last_pcr
    last_same = (anchor_keeps c dts).0 ∙ sym b.pcr_synced

    b' : Bounded k (anchor c dts)
    b' = anchor-Bounded k c dts w b

    step :
        let ticks = after_last (sub64 dts (anchor c dts).anchor_base) last in
        (last <ℤ ticks) × (neg_part ticks ≡ 0) × (pos_part ticks ≤ 2 ^ 61 + suc k)
    step =
        ticks_bounds k dts (anchor c dts).anchor_base (anchor c dts).last_video_dts few w
          b'.anchor_small b'.video_low b'.video_high

    same :
        let ticks =
          after_last (sub64 dts (anchor c dts).anchor_base) (anchor c dts).last_video_dts in
        after_last ticks (anchor c dts).last_pcr ≡ ticks
    same = rw b'.pcr_synced (after_last_again _ _ step.0)

pub normalize_audio_steps :
    (k : ℕ) (c : StreamClock) (pts dts : ℤ)
    → suc k < 2 ^ 60
    → Within 60 dts
    → Bounded k c
    → (Bounded (suc k) (normalize_audio c pts dts).0)
      × ((normalize_audio c pts dts).0.last_pcr ≡ c.last_pcr)
unfolding normalize_audio
normalize_audio_steps k c pts dts few w b = (
  record {
    few = few;
    anchor_small = b'.anchor_small;
    video_low = b'.video_low;
    video_high = omega (arith, b'.video_high);
    audio_low = step.1;
    audio_high = step.2;
    pcr_synced = b'.pcr_synced;
    buffer = b'.buffer;
  },
  (anchor_keeps c dts).2,
)
  where
    b' : Bounded k (anchor c dts)
    b' = anchor-Bounded k c dts w b

    step :
        let last = (anchor c dts).last_audio_dts in
        let ticks = after_last (sub64 dts (anchor c dts).anchor_base) last in
        (last <ℤ ticks) × (neg_part ticks ≡ 0) × (pos_part ticks ≤ 2 ^ 61 + suc k)
    step =
        ticks_bounds k dts (anchor c dts).anchor_base (anchor c dts).last_audio_dts few w
          b'.anchor_small b'.audio_low b'.audio_high
