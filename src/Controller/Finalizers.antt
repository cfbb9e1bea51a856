-- ===== src/Controller/Finalizers.antt =====
-- controllers/finalize.go. `remove` shifts items to the left in the array that the list shares with
-- the loop over it, so the array and the length of the list are kept apart here.
pub mod Removal
use k8gb.Prelude.{
  ℕ, zero, suc, ◌+◌, ◌-◌, String, Bool, true, false, ◌||◌, Option, none, some, List, [], ◌∷◌, ◌++◌,
  ◌==◌, leb, length, take, drop, get_elem?, if◌then◌else◌,
}
use k8gb.Effect.{Outcome, ok, panicked, Run, ◌>>=◌, pure}
use k8gb.Api.{Gslb}
use k8gb.Cluster.{Client}

unfoldable pub contains : List String → String → Bool
contains [] s = false
contains (v ∷ list) s = v == s || contains list s

-- `list = append(list[:i], list[i+1:]...)` on the first `len` items of the array.
abbrev pub shift_left : ℕ → ℕ → List String → List String
shift_left i len array = take i array ++ (drop (suc i) (take len array) ++ drop (len - 1) array)

-- The rounds that are left, the index, the array, the length of `list`. The slice `list[i+1:]`
-- panics where the list has become too short for it.
unfoldable pub remove_loop : String → ℕ → ℕ → List String → ℕ → Outcome (List String)
remove_loop s zero i array len = ok (take len array)
remove_loop s (suc k) i array len =
    let kept = remove_loop s k (suc i) array len in
    let cut = remove_loop s k (suc i) (shift_left i len array) (len - 1) in
    elim (get_elem? array i) [
      | none ↦ panicked
      | some v ↦ if v == s then (if leb (suc i) len then cut else panicked) else kept
    ]

unfoldable pub remove : List String → String → Outcome (List String)
unfolding remove_loop
remove list s = remove_loop s (length list) 0 list (length list)

abbrev pub gslb_finalizer : String
gslb_finalizer = "k8gb.absa.oss/finalizer"

abbrev pub legacy_finalizer : String
legacy_finalizer = "finalizer.k8gb.absa.oss"

abbrev pub with_finalizers : Gslb → List String → Gslb
with_finalizers g list = record g { meta = record g.meta { finalizers = list } }

unfoldable pub add_finalizer : {W : Type 0} → Client W → Gslb → Run W Gslb
add_finalizer client gslb =
    client.update_gslb (with_finalizers gslb (gslb.meta.finalizers ++ gslb_finalizer ∷ []))
