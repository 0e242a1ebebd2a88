-- ===== src/Service/Tests.antt =====
-- Runs of the services, and the conditions of their theorems at concrete inputs.
use rm_vms.Base.{ℕ, ◌≡◌, ◌++◌, refl, true, false, none, List, [], ◌∷◌, arith}
use rm_vms.Base.Int.{pos}
use rm_vms.Base.Assoc.{ℕ_eq}
use rm_vms.Segment.{Segment}
use rm_vms.Service.Timeline.{segments_to_timeline}
use rm_vms.Service.Timeline.Blocks.{IsTimeline, segments_to_timeline-IsTimeline}
use rm_vms.Service.Sessions.{
  update_permissions, is_valid, logs_in, logs_out, calls, NotBefore, permissions_change_revokes,
}
use rm_vms.Service.Ingest.{
  BatchIngester, enqueued, received, new_batch_ingester, ingest_run, ingest_step, enqueue,
  receive_segment, flush,
}
use rm_vms.Service.Ingest.Conserve.{nothing_lost}
use rm_vms.Service.Playlist.{vod_entries}
use rm_vms.Service.Playlist.Joined.{Joined, segments_in, vod_entries-Joined}

abbrev file_at : ℕ → ℕ → Segment
file_at start end = record {
  id = 1;
  profile = "main";
  camera_id = 7;
  start_time = pos start;
  end_time = pos end;
  file_path = "/rec/7.mp4";
  snapshot_path = "";
  size_bytes = pos 1000;
}

abbrev swap_two : List Segment → List Segment
swap_two [] = []
swap_two (a ∷ []) = a ∷ []
swap_two (a ∷ b ∷ rest) = b ∷ a ∷ rest

segments_to_timeline-IsTimeline_example :
    IsTimeline
      (file_at 1000 61000 ∷ file_at 62000 99000 ∷ [])
      (segments_to_timeline swap_two (file_at 62000 99000 ∷ file_at 1000 61000 ∷ []))
segments_to_timeline-IsTimeline_example =
    segments_to_timeline-IsTimeline swap_two (file_at 62000 99000 ∷ file_at 1000 61000 ∷ [])
      (λ e. cc e) (omega arith, tt)

permissions_change_revokes_example :
    is_valid
      (calls (update_permissions [] 4 (pos 1700)) (logs_out 4 ∷ logs_in 4 (pos 1800) ∷ []))
      4
      (pos 1699)
    ≡ false
unfolding NotBefore
permissions_change_revokes_example =
    permissions_change_revokes [] 4 (pos 1700) (pos 1699) (logs_out 4 ∷ logs_in 4 (pos 1800) ∷ [])
      (omega arith) (tt, (omega arith, tt))

abbrev drained : BatchIngester
drained = record {
  buffer_size = 10;
  batch_size = 2;
  buffer_chan = [];
  batch = [];
  flushes = (file_at 0 60 ∷ file_at 60 120 ∷ [], true) ∷ [];
  stopped = false;
}

nothing_lost_example :
    (file_at 0 60 ∷ file_at 60 120 ∷ []) ++ [] ++ [] ++ [] ≡ file_at 0 60 ∷ file_at 60 120 ∷ []
unfolding ingest_run ingest_step enqueue receive_segment flush new_batch_ingester
nothing_lost_example =
    nothing_lost (λ batch. true) 10 2
      (enqueued (file_at 0 60) ∷ received ∷ enqueued (file_at 60 120) ∷ received ∷ []) drained refl

vod_entries-Joined_example :
    (segments_in (vod_entries none (file_at 0 60000 ∷ file_at 70000 90000 ∷ []))
      ≡ file_at 0 60000 ∷ file_at 70000 90000 ∷ [])
    × Joined (vod_entries none (file_at 0 60000 ∷ file_at 70000 90000 ∷ []))
vod_entries-Joined_example = vod_entries-Joined (file_at 0 60000 ∷ file_at 70000 90000 ∷ []) (
  ((omega arith, omega arith), (omega arith, omega arith)),
  (((omega arith, omega arith), (omega arith, omega arith)), tt),
)
