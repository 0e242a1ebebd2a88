-- ===== src/Transmux/Mux/Tests.antt =====
-- A short session of nvr_core/transmux, and the theorems at such inputs.
use rm_vms.Base.{◌≡◌, refl, Bool, true, false, List, [], ◌∷◌, arith}
use rm_vms.Base.Int.{ℤ, pos, ◌+ℤ◌, ◌-ℤ◌, int64, add64, sub64}
use rm_vms.Transmux.Clock.{
  new_stream_clock, anchor, after_last, norm_dts_of, norm_pts_of, normalize_video, normalize_audio,
}
use rm_vms.Transmux.Mux.{
  StreamPacket, TsMuxSession, new_ts_mux_session, table_calls, process_packet, run, inject_aud,
  write_video, write_audio, write_payload, dispatch, fact_check_adts, fact_check_diagnostic,
  fact_check_null_unit_headers, fact_check_pcr,
}
use rm_vms.Transmux.Mux.Gate.{TablesFirst, run-TablesFirst}
use rm_vms.Transmux.Mux.Times.{pcrs, Rises, run-pcrs-Rises}

abbrev video : Bool → ℤ → StreamPacket
video key dts = record {
  media_type = 0;
  codec_id = 27;
  is_key_frame = key;
  pts = dts;
  dts = dts;
  payload = 0 ∷ 0 ∷ 0 ∷ 1 ∷ 0x65 ∷ [];
}

abbrev audio : ℤ → StreamPacket
audio dts = record (video false dts) { media_type = 1; codec_id = 86018 }

abbrev session : TsMuxSession
session = new_ts_mux_session true 27 86018

abbrev packets : List (StreamPacket × Bool)
packets =
    (audio (pos 10), true)
    ∷ (video true (pos 1000), true)
    ∷ (video false (pos 900), true)
    ∷ (video false (pos 4600), true)
    ∷ []

session-pcrs : pcrs (run session packets) ≡ pos 1 ∷ pos 2 ∷ pos 3700 ∷ []
unfolding run process_packet dispatch write_payload write_video write_audio normalize_video
    normalize_audio anchor after_last norm_dts_of norm_pts_of add64 sub64 int64 ◌+ℤ◌ ◌-ℤ◌
    new_ts_mux_session new_stream_clock fact_check_adts fact_check_diagnostic
    fact_check_null_unit_headers fact_check_pcr table_calls inject_aud
session-pcrs = refl

run-TablesFirst_example : TablesFirst session (run session packets)
unfolding new_ts_mux_session
run-TablesFirst_example = run-TablesFirst session packets refl

run-pcrs-Rises_example : Rises (pos 0) (pcrs (run session packets))
run-pcrs-Rises_example = run-pcrs-Rises true 27 86018 packets (omega arith) (omega arith)
