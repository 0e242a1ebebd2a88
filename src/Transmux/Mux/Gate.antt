-- ===== src/Transmux/Mux/Gate.antt =====
-- nvr_core/transmux/ts.muxer.go: what a session emits, and when.
use mathlib.Core.List.{append_assoc}
use rm_vms.Base.{
  ◌≡◌, refl, subst, ◌∙◌, ◌⊎◌, inl, inr, Bool, true, false, ◌&&◌, List, [], ◌∷◌, ◌++◌, arith, ◌==◌,
  All, All-append, Bool-cases,
}
use rm_vms.Transmux.Mux.{
  StreamPacket, MuxCall, TsMuxSession, Outcome, write_data, flush, media_type_video,
  fact_check_null_unit_headers, fact_check_diagnostic, fact_check_adts, fact_check_pcr, write_video,
  write_audio, write_payload, table_calls, dispatch, process_packet, run, prepare_audio_descriptors,
}

abbrev pub is_video_keyframe : StreamPacket → Bool
is_video_keyframe packet = (packet.media_type == media_type_video) && packet.is_key_frame

-- The diagnostics change nothing but their counter.
abbrev pub diagnosed : TsMuxSession → StreamPacket → TsMuxSession
diagnosed s packet =
    fact_check_adts (fact_check_diagnostic (fact_check_null_unit_headers s packet)) packet

pub diagnosed_keeps :
    (s : TsMuxSession) (packet : StreamPacket)
    → ((diagnosed s packet).pmt_written ≡ s.pmt_written)
      × ((diagnosed s packet).clock ≡ s.clock)
      × ((diagnosed s packet).video_codec ≡ s.video_codec)
      × ((diagnosed s packet).audio_codec ≡ s.audio_codec)
unfolding fact_check_adts fact_check_diagnostic fact_check_null_unit_headers
diagnosed_keeps s packet = ground arith

waits_for_keyframe :
    (s : TsMuxSession) (packet : StreamPacket) (write_ok : Bool)
    → s.pmt_written ≡ false
    → is_video_keyframe packet ≡ false
    → process_packet s packet write_ok ≡ (diagnosed s packet, [], true)
unfolding process_packet dispatch
waits_for_keyframe s packet write_ok waits other =
    let still = (diagnosed_keeps s packet).0 ∙ waits in rw (still, other)

-- Until the first video keyframe a session emits nothing and reports no error.
run_before_keyframe :
    (s : TsMuxSession) (packets : List (StreamPacket × Bool))
    → s.pmt_written ≡ false
    → All (λ p. is_video_keyframe p.0 ≡ false) packets
    → run s packets ≡ []
unfolding run
run_before_keyframe s [] waits none_yet = refl
run_before_keyframe s ((packet, write_ok) ∷ rest) waits none_yet =
    rw (waits_for_keyframe s packet write_ok waits none_yet.0) (
      run_before_keyframe (diagnosed s packet) rest ((diagnosed_keeps s packet).0 ∙ waits)
        none_yet.1)

-- A call behind the tables: data or a flush.
abbrev pub IsPayloadCall : MuxCall → Type 0
IsPayloadCall (write_data _) = Unit {0}
IsPayloadCall flush = Unit {0}
IsPayloadCall _ = ⊥

-- What one packet emits once the tables are out.
abbrev EmitsPayload : TsMuxSession → Outcome → Type 0
EmitsPayload s r =
    All IsPayloadCall r.1
    × (r.0.pmt_written ≡ s.pmt_written)
    × (r.0.video_codec ≡ s.video_codec)
    × (r.0.audio_codec ≡ s.audio_codec)

write_video-EmitsPayload :
    (s : TsMuxSession) (packet : StreamPacket) (write_ok : Bool)
    → EmitsPayload s (write_video s packet write_ok)
unfolding write_video fact_check_pcr
write_video-EmitsPayload s packet write_ok = elim (Bool-cases (write_ok && s.has_flusher)) [
  | inl both ↦ (rw both (tt, (tt, tt)), ground arith, ground arith, ground arith)
  | inr not_both ↦ (rw not_both (tt, tt), ground arith, ground arith, ground arith)
]

write_payload-EmitsPayload :
    (s : TsMuxSession) (packet : StreamPacket) (write_ok : Bool)
    → EmitsPayload s (write_payload s packet write_ok)
unfolding write_payload write_audio
write_payload-EmitsPayload s packet write_ok = elim (Bool-cases (packet.media_type == 0)) [
  | inl video ↦ rw video (write_video-EmitsPayload s packet write_ok)
  | inr other ↦ elim (Bool-cases (packet.media_type == 1)) [
    | inl audio ↦ rw (other, audio) ((tt, tt), refl, refl, refl)
    | inr unknown ↦ rw (other, unknown) (tt, refl, refl, refl)
  ]
]

process_open-EmitsPayload :
    (s : TsMuxSession) (packet : StreamPacket) (write_ok : Bool)
    → s.pmt_written ≡ true
    → All IsPayloadCall (process_packet s packet write_ok).1
      × ((process_packet s packet write_ok).0.pmt_written ≡ true)
unfolding process_packet dispatch
process_open-EmitsPayload s packet write_ok opened =
    let still = (diagnosed_keeps s packet).0 ∙ opened in
    let (calls, pmt, _, _) = write_payload-EmitsPayload (diagnosed s packet) packet write_ok in
    simp still (calls, pmt ∙ still)

run_open :
    (s : TsMuxSession) (packets : List (StreamPacket × Bool))
    → s.pmt_written ≡ true
    → All IsPayloadCall (run s packets)
unfolding run
run_open s [] opened = tt
run_open s ((packet, write_ok) ∷ rest) opened =
    let (calls, still) = process_open-EmitsPayload s packet write_ok opened in
    elim (Bool-cases (process_packet s packet write_ok).2) [
      | inl ok ↦ rw ok (
          All-append IsPayloadCall _ _ calls
            (run_open (process_packet s packet write_ok).0 rest still))
      | inr stopped ↦ rw stopped calls
    ]

-- What a waiting session emits: nothing, or its tables and then payload only.
abbrev pub TablesFirst : TsMuxSession → List MuxCall → Type 0
TablesFirst s calls =
    (calls ≡ [])
    ⊎ ((payload : List MuxCall) × (calls ≡ table_calls s ++ payload) × All IsPayloadCall payload)

table_calls_same :
    (s t : TsMuxSession)
    → t.video_codec ≡ s.video_codec
    → t.audio_codec ≡ s.audio_codec
    → table_calls t ≡ table_calls s
unfolding table_calls prepare_audio_descriptors
table_calls_same s t v a = simp (v, a)

-- The first video keyframe.
opens :
    (s : TsMuxSession) (packet : StreamPacket) (write_ok : Bool)
    → s.pmt_written ≡ false
    → is_video_keyframe packet ≡ true
    → (payload : List MuxCall) × ((process_packet s packet write_ok).1 ≡ table_calls s ++ payload)
      × All IsPayloadCall payload
      × ((process_packet s packet write_ok).0.pmt_written ≡ true)
unfolding process_packet dispatch
opens s packet write_ok waits keyframe =
    let keeps = diagnosed_keeps s packet in
    let still = keeps.0 ∙ waits in
    let begun : TsMuxSession = record (diagnosed s packet) { pmt_written = true } in
    let (calls, pmt, _, _) = write_payload-EmitsPayload begun packet write_ok in
    let tables = table_calls_same s (diagnosed s packet) keeps.2 keeps.3 in
    (
      (write_payload begun packet write_ok).1,
      simp (still, keyframe, tables) refl,
      calls,
      simp (still, keyframe) pmt,
    )

-- The tables are written once, before any data: all that a new session emits is nothing, or its
-- program tables followed by writes of data and flushes.
pub run-TablesFirst :
    (s : TsMuxSession) (packets : List (StreamPacket × Bool))
    → s.pmt_written ≡ false
    → TablesFirst s (run s packets)
unfolding run
run-TablesFirst s [] waits = inl refl
run-TablesFirst s ((packet, write_ok) ∷ rest) waits = elim (Bool-cases (is_video_keyframe packet)) [
  | inr other ↦
      let keeps = diagnosed_keeps s packet in
      rw (waits_for_keyframe s packet write_ok waits other) (
        subst
          (λ calls.
            (run (diagnosed s packet) rest ≡ [])
            ⊎ ((payload : List MuxCall) × (run (diagnosed s packet) rest ≡ calls ++ payload)
                × All IsPayloadCall payload))
          (table_calls_same s (diagnosed s packet) keeps.2 keeps.3)
          (run-TablesFirst (diagnosed s packet) rest (keeps.0 ∙ waits)))
  | inl keyframe ↦
      let (payload, first, are_payload, opened) = opens s packet write_ok waits keyframe in
      elim (Bool-cases (process_packet s packet write_ok).2) [
        | inl ok ↦ inr (
          payload ++ run (process_packet s packet write_ok).0 rest,
          rw (ok, first) (append_assoc (table_calls s) payload _),
          All-append IsPayloadCall payload _ are_payload
              (run_open (process_packet s packet write_ok).0 rest opened),
        )
        | inr stopped ↦ inr (payload, rw stopped first, are_payload)
      ]
]
