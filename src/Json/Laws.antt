-- ===== src/Json/Laws.antt =====
-- Reading an object behind `pop` and an assignment.
use media_bridge.Base.{String, none, some, ◌≡◌, refl, arith, ◌==◌, string_eq, eq_iff, if◌then◌else◌}
use media_bridge.Json.{Json, Fields, end, field, find, insert, remove}

pub find-insert :
    (k j : String) (v : Json) (fs : Fields)
    → find k (insert j v fs) ≡ (if j == k then some v else find k fs)
unfolding find insert
find-insert k j v end = refl
find-insert k j v (field i w fs) =
    ground (arith, eq_iff j k, eq_iff i k, eq_iff i j, find-insert k j v fs)

pub find-remove :
    (k j : String) (fs : Fields) → find k (remove j fs) ≡ (if j == k then none else find k fs)
unfolding find remove
find-remove k j end = ground arith
find-remove k j (field i w fs) =
    ground (arith, eq_iff j k, eq_iff i k, eq_iff i j, find-remove k j fs)
