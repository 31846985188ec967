-- ===== src/Twin/Windows.antt =====
-- twin/twin_api.py: the telemetry windows, sorted and merged.
use mathlib.Core.List.{Perm}
use asterion_one.Base.{
  ℕ, zero, suc, ◌≡◌, refl, true, some, List, [], ◌∷◌, String, map, get_elem?, last_or, arith,
}
use asterion_one.Base.Assoc.{lookup, last_value, lookup-update}
use asterion_one.Base.Sorting.{sort_by, IsSorted, sort_by-IsSorted, sort_by-perm}
use asterion_one.Twin.{Frame}
use asterion_one.Twin.Times.{stamped_leb, all_stamped, stamped_leb-total, stamped_leb_trans}
use asterion_one.Twin.Telemetry.{RawFrame, Outside, flatten, fetched, merged_frame, merge_telemetry}

get_elem?-map :
    {A B : Type 0} (f : A → B) (xs : List A) (i : ℕ) {x : A}
    → get_elem? xs i ≡ some x
    → get_elem? (map f xs) i ≡ some (f x)
get_elem?-map f [] i h = cc
get_elem?-map f (x ∷ xs) zero h = cc
get_elem?-map f (x ∷ xs) (suc i) h = get_elem?-map f xs i h

module _ {F : Type 0} where
  -- Where the ground answers and every frame of the answer parses and has a time, the window holds exactly
  -- these frames, in the order of their times, so that its last frame is a latest one.
  pub fetched-IsSorted :
      (out : Outside F) (subsystem : String) (request : ℕ) {raws : List (RawFrame F)}
      {frames : List (Frame F)}
      → out.answer subsystem request ≡ some raws
      → flatten out raws ≡ some frames
      → all_stamped frames ≡ true
      → (window : List (Frame F)) × (fetched out subsystem request ≡ some window)
        × IsSorted stamped_leb window
        × Perm window frames
  unfolding fetched
  fetched-IsSorted out subsystem request {raws} {frames} answered parsed stamped = (
    sort_by stamped_leb frames,
    rw (answered, parsed) (ground (arith, stamped)),
    sort_by-IsSorted stamped_leb stamped_leb-total stamped_leb_trans frames,
    sort_by-perm stamped_leb frames,
  )

  -- Merged with power frames, a thermal frame keeps its place and its time, and each of its metrics is the last power
  -- frame's, if that has one of this name, and otherwise its own.
  pub merge_telemetry-lookup :
      (thermal : List (Frame F)) (p : Frame F) (ps : List (Frame F)) (i : ℕ) {frame : Frame F}
      (metric : String)
      → get_elem? thermal i ≡ some frame
      → (merged : Frame F) × (get_elem? (merge_telemetry thermal (p ∷ ps)) i ≡ some merged)
        × (merged.timestamp ≡ frame.timestamp)
        × (lookup metric merged.metrics
            ≡ last_value metric (last_or p ps).metrics (lookup metric frame.metrics))
  unfolding merge_telemetry
  merge_telemetry-lookup [] p ps i metric h = cc
  merge_telemetry-lookup (t ∷ ts) p ps i {frame} metric h = (
    merged_frame (last_or p ps).metrics frame,
    get_elem?-map (merged_frame (last_or p ps).metrics) (t ∷ ts) i h,
    refl,
    lookup-update metric frame.metrics (last_or p ps).metrics,
  )
