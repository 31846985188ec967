-- ===== src/Twin/Times.antt =====
-- twin/twin_api.py: the order of frames by their timestamps, texts that compare by code points.
use Prim.Native.Char.{code}
use asterion_one.Base.{
  ℕ, Bool, true, false, ◌≡◌, not, ◌&&◌, Option, none, some, List, [], ◌∷◌, String, if◌then◌else◌,
  ltb, length, is_some,
}
use asterion_one.Base.Sorting.{sort_by}
use asterion_one.Queue.Names.{name_leb}
use asterion_one.Queue.Names.Compare.{name_leb-total, name_leb_trans}
use asterion_one.Twin.{Frame}

-- The code points of a text.
abbrev codes : String → List ℕ
codes String.[] = []
codes (String.◌∷◌ c s) = code c ∷ codes s

abbrev timestamp_codes : Option String → List ℕ
timestamp_codes none = []
timestamp_codes (some t) = codes t

-- `a["timestamp"] <= b["timestamp"]`, for frames that have one.
abbrev pub stamped_leb : {F : Type 0} → Frame F → Frame F → Bool
stamped_leb f g = name_leb (timestamp_codes f.timestamp) (timestamp_codes g.timestamp)

abbrev pub all_stamped : {F : Type 0} → List (Frame F) → Bool
all_stamped [] = true
all_stamped (f ∷ fs) = is_some f.timestamp && all_stamped fs

-- `frames.sort(key=timestamp)`: among two frames or more, one with no time raises, since `None`
-- compares with nothing.
unfoldable pub sort_frames : {F : Type 0} → List (Frame F) → Option (List (Frame F))
sort_frames fs =
    if ltb 1 (length fs) && not (all_stamped fs) then none else some (sort_by stamped_leb fs)

pub stamped_leb-total :
    {F : Type 0} (f g : Frame F) → stamped_leb f g ≡ false → stamped_leb g f ≡ true
stamped_leb-total f g = name_leb-total (timestamp_codes f.timestamp) (timestamp_codes g.timestamp)

pub stamped_leb_trans :
    {F : Type 0} (f g h : Frame F)
    → stamped_leb f g ≡ true
    → stamped_leb g h ≡ true
    → stamped_leb f h ≡ true
stamped_leb_trans f g h =
    name_leb_trans (timestamp_codes f.timestamp) (timestamp_codes g.timestamp)
      (timestamp_codes h.timestamp)
