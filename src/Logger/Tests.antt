-- ===== src/Logger/Tests.antt =====
-- The buffer of the log at a small capacity.
use rm_vms.Base.{◌≡◌, some, [], ◌∷◌, arith}
use rm_vms.Logger.Buffer.{LogBuffer, new_buffer, write_all, snapshot, last_of, snapshot_is_last}

snapshot_is_last_example :
    (b : LogBuffer) × (write_all (new_buffer 2) ("a" ∷ "b" ∷ "c" ∷ []) ≡ some b)
    × (snapshot b ≡ last_of 2 ("a" ∷ "b" ∷ "c" ∷ []))
snapshot_is_last_example = snapshot_is_last 2 ("a" ∷ "b" ∷ "c" ∷ []) (omega arith)
