-- ===== src/Service/Retention/Tests.antt =====
-- Ticks of the disk watchdog, and the conditions of its theorems at concrete inputs.
use rm_vms.Base.{ℕ, ◌+◌, ◌-◌, ◌*◌, ◌≡◌, refl, true, false, some, [], ◌∷◌, length, String}
use rm_vms.Base.Int.{pos}
use rm_vms.Segment.{Segment}
use rm_vms.Service.Retention.{
  Env, Store, pruned, enforce_disk_watermark, below_high, above_low, prune_loop, prune_oldest,
  paths_of, non_empty, remove_files, unless_empty,
}
use rm_vms.Service.Retention.Eviction.{Enforced, enforce-Enforced, no_cameras_no_eviction}

abbrev row : ℕ → String → Segment
row start path = record {
  id = start;
  profile = "main";
  camera_id = 7;
  start_time = pos start;
  end_time = pos (start + 60);
  file_path = path;
  snapshot_path = "";
  size_bytes = pos 1000;
}

-- A disk of 100 that is filled to 90, where each file that is gone frees 4.
abbrev env : Env
env = record {
  disk_usage = λ gone. some (record { used_bytes = 90 - 4 * length gone; total_bytes = 100 });
  can_remove = λ path. true;
  db_fails = λ rows. false;
}

abbrev full_store : Store
full_store = record {
  rows = row 1 "a" ∷ row 2 "b" ∷ row 3 "c" ∷ row 4 "d" ∷ row 5 "e" ∷ [];
  removed = [];
}

enforce-Enforced_example : Enforced env 3 full_store (enforce_disk_watermark env 1 full_store).loop
unfolding below_high
enforce-Enforced_example = enforce-Enforced env 1 full_store refl

no_cameras_no_eviction_example : (enforce_disk_watermark env 0 full_store).loop ≡ pruned full_store
unfolding below_high
no_cameras_no_eviction_example = no_cameras_no_eviction env full_store refl refl

-- One batch of three files is enough.
one_batch :
    (enforce_disk_watermark env 1 full_store).loop
    ≡ pruned (record { rows = row 4 "d" ∷ row 5 "e" ∷ []; removed = "a" ∷ "b" ∷ "c" ∷ [] })
unfolding enforce_disk_watermark below_high above_low prune_loop prune_oldest paths_of non_empty
    remove_files unless_empty
one_batch = refl
