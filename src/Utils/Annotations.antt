-- ===== src/Utils/Annotations.antt =====
-- controllers/internal/utils/annotations.go
pub mod Laws
use k8gb.Prelude.{String, List, [], ◌∷◌, ◌==◌, if◌then◌else◌}
use k8gb.Prelude.Dict.{Dict, lookup_or_zero, insert}

-- The loop over `source`; a nil map is the empty one.
unfoldable pub merge_annotations : Dict String → Dict String → Dict String
merge_annotations target [] = target
merge_annotations target ((k, v) ∷ source) =
    merge_annotations (if lookup_or_zero k target == v then target else insert k v target) source
