-- ===== src/Transmux/Mux.antt =====
-- nvr_core/transmux/ts.muxer.go and nvr_core/stream/codec.go: a session's state machine. The
-- muxer of go-astits is outside: the calls that a session makes of it are its output, in order,
-- and whether `WriteData` succeeds is an input.
mod Gate
mod Times
mod Tests
use rm_vms.Base.{
  ℕ, zero, suc, ◌+◌, ◌≡◌, Bool, true, false, not, ◌&&◌, ◌||◌, Option, none, some, List, [], ◌∷◌,
  ◌++◌, ltb, ◌==◌, if◌then◌else◌, length, get_elem?,
}
use rm_vms.Base.Int.{ℤ, eqb_ℤ}
use rm_vms.Transmux.Clock.{
  StreamClock, new_stream_clock, normalize_video, normalize_audio, VideoTimes,
}

-- `StreamPacket` of nvr_core/stream/hub.go.
pub record StreamPacket : Type 0 where
  pub media_type : ℕ
  pub codec_id : ℕ
  pub is_key_frame : Bool
  pub pts : ℤ
  pub dts : ℤ
  pub payload : List ℕ

abbrev pub media_type_video : ℕ
media_type_video = 0

abbrev pub media_type_audio : ℕ
media_type_audio = 1

abbrev pub ffmpeg_codec_ulaw : ℕ
ffmpeg_codec_ulaw = 65542

abbrev pub ffmpeg_codec_alaw : ℕ
ffmpeg_codec_alaw = 65543

-- The stream types by name: their numbers are constants of go-astits.
pub data StreamType : Type 0 where
  h264_video hevc aac_audio private_data unknown : StreamType

unfoldable pub get_ts_stream_type : ℕ → StreamType
get_ts_stream_type codec =
    if codec == 27
    then h264_video
    else if codec == 173
    then hevc
    else if codec == 86018
    then aac_audio
    else if codec == ffmpeg_codec_ulaw
    then private_data
    else if codec == ffmpeg_codec_alaw
    then private_data
    else unknown

abbrev pub video_pid : ℕ
video_pid = 256

abbrev pub audio_pid : ℕ
audio_pid = 257

abbrev pub video_pes_id : ℕ
video_pes_id = 224

abbrev pub audio_pes_id : ℕ
audio_pes_id = 192

abbrev pub private_pes_id : ℕ
private_pes_id = 189

-- A registration descriptor: the format identifier and the additional bytes.
pub record Descriptor : Type 0 where
  pub format_identifier : ℕ
  pub additional_identification_info : List ℕ

-- `MuxerData` with the fields that the session sets.
pub record MuxerData : Type 0 where
  pub pid : ℕ
  pub stream_id : ℕ
  pub pts : ℤ
  pub dts : Option ℤ
  pub pcr : Option ℤ
  pub payload : List ℕ

pub data MuxCall : Type 0 where
  add_elementary_stream : ℕ → StreamType → List Descriptor → MuxCall
  set_pcr_pid : ℕ → MuxCall
  write_tables : MuxCall
  write_data : MuxerData → MuxCall
  flush : MuxCall

pub record TsMuxSession : Type 0 where
  pub clock : StreamClock
  pub pmt_written : Bool
  pub video_codec : ℕ
  pub audio_codec : ℕ
  pub has_flusher : Bool
  pub debug_count : ℕ

unfoldable pub new_ts_mux_session : Bool → ℕ → ℕ → TsMuxSession
unfolding new_stream_clock
new_ts_mux_session has_flusher v_codec a_codec = record {
  clock = new_stream_clock;
  pmt_written = false;
  video_codec = v_codec;
  audio_codec = a_codec;
  has_flusher = has_flusher;
  debug_count = 0;
}

-- The diagnostics log, and count what they logged.
unfoldable pub fact_check_null_unit_headers : TsMuxSession → StreamPacket → TsMuxSession
fact_check_null_unit_headers s packet =
    if (packet.media_type == media_type_video) && ltb s.debug_count 10
    then record s { debug_count = s.debug_count + 1 }
    else s

unfoldable pub fact_check_diagnostic : TsMuxSession → TsMuxSession
fact_check_diagnostic s =
    if ltb s.debug_count 15 then record s { debug_count = s.debug_count + 1 } else s

unfoldable pub fact_check_adts : TsMuxSession → StreamPacket → TsMuxSession
fact_check_adts s packet =
    if (packet.media_type == media_type_audio) && ltb s.debug_count 10
    then record s { debug_count = s.debug_count + 1 }
    else s

unfoldable pub fact_check_pcr : TsMuxSession → TsMuxSession
fact_check_pcr s = if ltb s.debug_count 15 then record s { debug_count = s.debug_count + 1 } else s

abbrev pub aud : List ℕ
aud = 0x00 ∷ 0x00 ∷ 0x00 ∷ 0x01 ∷ 0x09 ∷ 0xF0 ∷ []

abbrev pub is_aud : Option ℕ → Bool
is_aud none = false
is_aud (some b) = b == 0x09

-- `packet.Payload` after `InjectAUD`.
unfoldable pub inject_aud : List ℕ → List ℕ
inject_aud payload =
    if ltb 4 (length payload)
    then if not (is_aud (get_elem? payload 4)) then aud ++ payload else payload
    else payload

unfoldable pub audio_is_pcm : TsMuxSession → Bool
audio_is_pcm s = (s.audio_codec == ffmpeg_codec_ulaw) || (s.audio_codec == ffmpeg_codec_alaw)

unfoldable pub prepare_audio_descriptors : TsMuxSession → List Descriptor
prepare_audio_descriptors s =
    if s.audio_codec == ffmpeg_codec_ulaw
    then record { format_identifier = 0x756c6177; additional_identification_info = [] } ∷ []
    else if s.audio_codec == ffmpeg_codec_alaw
    then record { format_identifier = 0x616c6177; additional_identification_info = [] } ∷ []
    else []

-- What the end of `writePayload` does: the write, and the flush of a video frame that was written.
-- The last field of a result is `err == nil`.
abbrev pub Outcome : Type 0
Outcome = TsMuxSession × List MuxCall × Bool

unfoldable pub write_video : TsMuxSession → StreamPacket → Bool → Outcome
write_video s packet write_ok =
    let payload = inject_aud packet.payload in
    let (clock, times) = normalize_video s.clock packet.pts packet.dts in
    let dts = if eqb_ℤ times.dts times.pts then none else some times.dts in
    let muxer_data : MuxerData = record {
      pid = video_pid;
      stream_id = video_pes_id;
      pts = times.pts;
      dts = dts;
      pcr = some times.pcr_base;
      payload = payload;
    } in
    let flushes = if write_ok && s.has_flusher then flush ∷ [] else [] in
    (fact_check_pcr (record s { clock = clock }), write_data muxer_data ∷ flushes, write_ok)

unfoldable pub write_audio : TsMuxSession → StreamPacket → Bool → Outcome
write_audio s packet write_ok =
    let (clock, (pts, dts)) = normalize_audio s.clock packet.pts packet.dts in
    let muxer_data : MuxerData = record {
      pid = audio_pid;
      stream_id = if audio_is_pcm s then private_pes_id else audio_pes_id;
      pts = pts;
      dts = none;
      pcr = none;
      payload = packet.payload;
    } in
    (record s { clock = clock }, write_data muxer_data ∷ [], write_ok)

unfoldable pub write_payload : TsMuxSession → StreamPacket → Bool → Outcome
write_payload s packet write_ok =
    if packet.media_type == media_type_video
    then write_video s packet write_ok
    else if packet.media_type == media_type_audio
    then write_audio s packet write_ok
    else (s, [], true)

-- The tables of the session, from its codecs.
unfoldable pub table_calls : TsMuxSession → List MuxCall
table_calls s =
    add_elementary_stream video_pid (get_ts_stream_type s.video_codec) []
    ∷ set_pcr_pid video_pid
    ∷ (if not (s.audio_codec == 0)
        then add_elementary_stream audio_pid (get_ts_stream_type s.audio_codec)
            (prepare_audio_descriptors s)
          ∷ write_tables
          ∷ []
        else write_tables ∷ [])

abbrev pub with_tables : TsMuxSession → Outcome → Outcome
with_tables s (s', calls, ok) = (s', table_calls s ++ calls, ok)

-- `ProcessPacket` behind its three diagnostics.
unfoldable pub dispatch : TsMuxSession → StreamPacket → Bool → Outcome
dispatch s packet write_ok =
    if s.pmt_written
    then write_payload s packet write_ok
    else if (packet.media_type == media_type_video) && packet.is_key_frame
    then with_tables s (write_payload (record s { pmt_written = true }) packet write_ok)
    else (s, [], true)

unfoldable pub process_packet : TsMuxSession → StreamPacket → Bool → Outcome
process_packet s packet write_ok =
    dispatch
      (fact_check_adts (fact_check_diagnostic (fact_check_null_unit_headers s packet)) packet)
      packet write_ok

-- A session over a list of packets, each with the result of its write, up to the first error.
unfoldable pub run : TsMuxSession → List (StreamPacket × Bool) → List MuxCall
run s [] = []
run s ((packet, write_ok) ∷ rest) =
    let (s', calls, ok) = process_packet s packet write_ok in
    let later = run s' rest in if ok then calls ++ later else calls
