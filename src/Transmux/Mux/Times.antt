-- ===== src/Transmux/Mux/Times.antt =====
-- nvr_core/transmux: the clock references of a whole session.
use mathlib.Core.List.{append-nil}
use rm_vms.Base.{
  ℕ, suc, ◌+◌, ◌^◌, ◌<◌, ◌≡◌, refl, sym, ap, subst, ◌∙◌, ◌⊎◌, inl, inr, Bool, true, ◌&&◌, Option,
  none, some, List, [], ◌∷◌, ◌++◌, arith, ◌==◌, if◌then◌else◌, length, All, Bool-cases,
}
use rm_vms.Base.Int.{ℤ, pos, ◌<ℤ◌, Within}
use rm_vms.Transmux.Clock.{StreamClock, normalize_video}
use rm_vms.Transmux.Clock.Order.{Bounded, normalize_video_steps, normalize_audio_steps}
use rm_vms.Transmux.Mux.{
  StreamPacket, MuxCall, TsMuxSession, Outcome, write_data, flush, fact_check_pcr, write_video,
  write_audio, write_payload, table_calls, dispatch, process_packet, run, new_ts_mux_session,
}
use rm_vms.Transmux.Mux.Gate.{is_video_keyframe, diagnosed, diagnosed_keeps}

abbrev cons_some : Option ℤ → List ℤ → List ℤ
cons_some none xs = xs
cons_some (some x) xs = x ∷ xs

-- The clock references of the data that a session writes, in order.
abbrev pub pcrs : List MuxCall → List ℤ
pcrs [] = []
pcrs (write_data d ∷ calls) = cons_some d.pcr (pcrs calls)
pcrs (_ ∷ calls) = pcrs calls

-- Strictly rising, from above `low`.
abbrev pub Rises : ℤ → List ℤ → Type 0
Rises low [] = Unit {0}
Rises low (x ∷ xs) = (low <ℤ x) × Rises x xs

cons_some-append :
    (o : Option ℤ) (xs ys zs : List ℤ) → zs ≡ xs ++ ys → cons_some o zs ≡ cons_some o xs ++ ys
cons_some-append none xs ys zs e = e
cons_some-append (some x) xs ys zs e = ap (◌∷◌ x) e

pcrs-append : (xs ys : List MuxCall) → pcrs (xs ++ ys) ≡ pcrs xs ++ pcrs ys
pcrs-append [] ys = refl
pcrs-append (MuxCall.write_data d ∷ xs) ys =
    cons_some-append d.pcr (pcrs xs) (pcrs ys) _ (pcrs-append xs ys)
pcrs-append (MuxCall.add_elementary_stream _ _ _ ∷ xs) ys = pcrs-append xs ys
pcrs-append (MuxCall.set_pcr_pid _ ∷ xs) ys = pcrs-append xs ys
pcrs-append (MuxCall.write_tables ∷ xs) ys = pcrs-append xs ys
pcrs-append (MuxCall.flush ∷ xs) ys = pcrs-append xs ys

pcrs-table_calls : (s : TsMuxSession) → pcrs (table_calls s) ≡ []
unfolding table_calls
pcrs-table_calls s = elim (Bool-cases (s.audio_codec == 0)) [ inl e ↦ simp e | inr e ↦ simp e ]

-- What one packet does to the clock, and what it emits: no reference, or the clock's new one.
record StepsClock (k : ℕ) (c : StreamClock) (r : Outcome) : Type 0 where
  bounded : Bounded (suc k) r.0.clock
  emits :
      ((pcrs r.1 ≡ []) × (r.0.clock.last_pcr ≡ c.last_pcr))
      ⊎ ((pcrs r.1 ≡ r.0.clock.last_pcr ∷ []) × (c.last_pcr <ℤ r.0.clock.last_pcr))

fact_check_pcr_clock : (s : TsMuxSession) → (fact_check_pcr s).clock ≡ s.clock
unfolding fact_check_pcr
fact_check_pcr_clock s = ground arith

module _ (k : ℕ) (s : TsMuxSession) (packet : StreamPacket) (write_ok : Bool) (few : suc k < 2 ^ 60)
    (w : Within 60 packet.dts) (b : Bounded k s.clock) where
  write_video-StepsClock : StepsClock k s.clock (write_video s packet write_ok)
  unfolding write_video
  write_video-StepsClock = record {
    bounded = rw (fact_check_pcr_clock _) steps.0;
    emits = inr (emitted, rw (fact_check_pcr_clock _, steps.2) steps.1);
  }
    where
      steps :
          (Bounded (suc k) (normalize_video s.clock packet.pts packet.dts).0)
          × (s.clock.last_pcr <ℤ (normalize_video s.clock packet.pts packet.dts).1.pcr_base)
          × ((normalize_video s.clock packet.pts packet.dts).0.last_pcr
              ≡ (normalize_video s.clock packet.pts packet.dts).1.pcr_base)
      steps = normalize_video_steps k s.clock packet.pts packet.dts few w b

      flushes :
          (normalize_video s.clock packet.pts packet.dts).1.pcr_base
            ∷ pcrs (if write_ok && s.has_flusher then flush ∷ [] else [])
          ≡ (normalize_video s.clock packet.pts packet.dts).1.pcr_base ∷ []
      flushes = elim (Bool-cases (write_ok && s.has_flusher)) [ inl e ↦ rw e | inr e ↦ rw e ]

      emitted :
          pcrs (write_video s packet write_ok).1
          ≡ (write_video s packet write_ok).0.clock.last_pcr ∷ []
      emitted = rw (fact_check_pcr_clock _, steps.2) flushes

  write_audio-StepsClock : StepsClock k s.clock (write_audio s packet write_ok)
  unfolding write_audio
  write_audio-StepsClock =
      let (b', same) = normalize_audio_steps k s.clock packet.pts packet.dts few w b in
      record { bounded = b'; emits = inl (refl, same) }

  skipped-StepsClock : StepsClock k s.clock (s, [], true)
  skipped-StepsClock = record {
    bounded = record {
      few = few;
      anchor_small = b.anchor_small;
      video_low = b.video_low;
      video_high = omega (arith, b.video_high);
      audio_low = b.audio_low;
      audio_high = omega (arith, b.audio_high);
      pcr_synced = b.pcr_synced;
      buffer = b.buffer;
    };
    emits = inl (refl, refl);
  }

  write_payload-StepsClock : StepsClock k s.clock (write_payload s packet write_ok)
  unfolding write_payload
  write_payload-StepsClock = elim (Bool-cases (packet.media_type == 0)) [
    | inl video ↦ rw video write_video-StepsClock
    | inr other ↦ elim (Bool-cases (packet.media_type == 1)) [
      | inl audio ↦ rw (other, audio) write_audio-StepsClock
      | inr unknown ↦ rw (other, unknown) skipped-StepsClock
    ]
  ]

dispatch-StepsClock :
    (k : ℕ) (s : TsMuxSession) (packet : StreamPacket) (write_ok : Bool)
    → suc k < 2 ^ 60
    → Within 60 packet.dts
    → Bounded k s.clock
    → StepsClock k s.clock (dispatch s packet write_ok)
unfolding dispatch
dispatch-StepsClock k s packet write_ok few w b = elim (Bool-cases s.pmt_written) [
  | inl opened ↦ simp opened (write_payload-StepsClock k s packet write_ok few w b)
  | inr waits ↦ elim (Bool-cases (is_video_keyframe packet)) [
    | inr other ↦ simp (waits, other) (skipped-StepsClock k s packet write_ok few w b)
    | inl keyframe ↦
        let begun : TsMuxSession = record s { pmt_written = true } in
        let step = write_payload-StepsClock k begun packet write_ok few w b in
        let calls = (write_payload begun packet write_ok).1 in
        let same : pcrs (table_calls s ++ calls) ≡ pcrs calls =
          pcrs-append (table_calls s) calls ∙ ap (λ xs. xs ++ pcrs calls) (pcrs-table_calls s) in
        simp (waits, keyframe) (record { bounded = step.bounded; emits = rw same step.emits })
  ]
]

process_packet-StepsClock :
    (k : ℕ) (s : TsMuxSession) (packet : StreamPacket) (write_ok : Bool)
    → suc k < 2 ^ 60
    → Within 60 packet.dts
    → Bounded k s.clock
    → StepsClock k s.clock (process_packet s packet write_ok)
unfolding process_packet
process_packet-StepsClock k s packet write_ok few w b =
    let same = (diagnosed_keeps s packet).1 in
    subst (λ c. StepsClock k c (dispatch (diagnosed s packet) packet write_ok)) same
      (dispatch-StepsClock k (diagnosed s packet) packet write_ok few w
        (subst (Bounded k) (sym same) b))

-- One packet in front of later ones.
Rises-step :
    (k : ℕ) (c : StreamClock) (r : Outcome) (later : List ℤ)
    → StepsClock k c r
    → Rises r.0.clock.last_pcr later
    → Rises c.last_pcr (pcrs r.1 ++ later)
Rises-step k c r later step rises = elim step.emits [
  | inl (none_new, same) ↦ rw none_new (subst (λ x. Rises x later) same rises)
  | inr (one, up) ↦ rw one (up, rises)
]

run-Rises :
    (k : ℕ) (s : TsMuxSession) (packets : List (StreamPacket × Bool))
    → k + length packets < 2 ^ 60
    → All (λ p. Within 60 p.0.dts) packets
    → Bounded k s.clock
    → Rises s.clock.last_pcr (pcrs (run s packets))
unfolding run
run-Rises k s [] few w b = tt
run-Rises k s ((packet, write_ok) ∷ rest) few w b =
    let step = process_packet-StepsClock k s packet write_ok (omega arith) w.0 b in
    let s' = (process_packet s packet write_ok).0 in
    let later = run-Rises (suc k) s' rest (omega arith) w.1 step.bounded in
    elim (Bool-cases (process_packet s packet write_ok).2) [
      | inl ok ↦
          rw (ok, pcrs-append (process_packet s packet write_ok).1 (run s' rest))
            (Rises-step k s.clock (process_packet s packet write_ok) _ step later)
      | inr stopped ↦
          rw (stopped, ← append-nil (pcrs (process_packet s packet write_ok).1))
            (Rises-step k s.clock (process_packet s packet write_ok) [] step tt)
    ]

-- The clock references that a session writes rise strictly, from above 0, over its whole life,
-- whatever the order of the packets and whichever writes fail, if it has fewer than 2 ^ 60 packets
-- and every decoding time is below 2 ^ 60 in absolute value, so that no sum wraps in 64 bits.
pub run-pcrs-Rises :
    (has_flusher : Bool) (v_codec a_codec : ℕ) (packets : List (StreamPacket × Bool))
    → length packets < 2 ^ 60
    → All (λ p. Within 60 p.0.dts) packets
    → Rises (pos 0) (pcrs (run (new_ts_mux_session has_flusher v_codec a_codec) packets))
unfolding new_ts_mux_session
run-pcrs-Rises has_flusher v_codec a_codec packets few w =
    run-Rises 0 (new_ts_mux_session has_flusher v_codec a_codec) packets (omega arith) w (record {
      few = omega arith;
      anchor_small = omega arith;
      video_low = refl;
      video_high = omega arith;
      audio_low = refl;
      audio_high = omega arith;
      pcr_synced = refl;
      buffer = refl;
    })
