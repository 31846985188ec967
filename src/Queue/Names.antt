-- ===== src/Queue/Names.antt =====
-- flight/disk_queue.py: file names as code points, `f"{seq_id:06d}.json"` and its inverse.
pub mod Digits
pub mod Order
pub mod Compare
use asterion_one.Base.{
  ℕ, zero, suc, ◌+◌, ◌-◌, ◌*◌, ◌/◌, ◌%◌, Bool, true, false, ◌&&◌, Option, none, some, List, [], ◌∷◌,
  ◌++◌, ltb, leb, ◌==◌, if◌then◌else◌, length,
}

abbrev pub Name : Type 0
Name = List ℕ

-- Decimal digits, most significant first, on enough fuel for `n`.
unfoldable pub digits_from : ℕ → ℕ → Name
digits_from zero n = []
digits_from (suc f) n =
    let more = digits_from f (n / 10) ++ (48 + n % 10) ∷ [] in
    if ltb n 10 then (48 + n) ∷ [] else more

unfoldable pub digits : ℕ → Name
unfolding digits_from
digits n = digits_from (suc n) n

unfoldable pub zeros : ℕ → Name
zeros zero = []
zeros (suc n) = 48 ∷ zeros n

-- `f"{n:06d}"`
unfoldable pub padded : ℕ → Name
unfolding digits zeros
padded n = zeros (6 - length (digits n)) ++ digits n

-- ".json"
abbrev pub dot_json : Name
dot_json = b'.' ∷ b'j' ∷ b's' ∷ b'o' ∷ b'n' ∷ []

abbrev pub dot_tmp : Name
dot_tmp = b'.' ∷ b't' ∷ b'm' ∷ b'p' ∷ []

unfoldable pub file_name : ℕ → Name
unfolding padded
file_name n = padded n ++ dot_json

unfoldable pub tmp_name : ℕ → Name
unfolding file_name
tmp_name n = file_name n ++ dot_tmp

abbrev pub is_digit : ℕ → Bool
is_digit c = leb 48 c && leb c 57

-- `int` on a text of digits; a sign, blanks and underscores are in no name that the queue writes.
unfoldable pub read_from : ℕ → Name → Option ℕ
read_from acc [] = some acc
read_from acc (c ∷ cs) = if is_digit c then read_from (acc * 10 + (c - 48)) cs else none

unfoldable pub read_int : Name → Option ℕ
unfolding read_from
read_int [] = none
read_int (c ∷ cs) = read_from 0 (c ∷ cs)

abbrev is_dot_json : ℕ → ℕ → ℕ → ℕ → ℕ → Bool
is_dot_json a b c d e = a == b'.' && b == b'j' && c == b's' && d == b'o' && e == b'n'

-- `filename.replace(".json", "")`
unfoldable pub remove_json : Name → Name
remove_json (a ∷ b ∷ c ∷ d ∷ e ∷ rest) =
    let after = remove_json rest in
    let onward = a ∷ remove_json (b ∷ c ∷ d ∷ e ∷ rest) in
    if is_dot_json a b c d e then after else onward
remove_json name = name

unfoldable pub seq_from_filename : Name → Option ℕ
unfolding read_int remove_json
seq_from_filename name = read_int (remove_json name)

-- `f.suffix == ".json"`: the name ends so, after at least one more character. (Such a name does
-- not end in ".tmp".)
unfoldable pub ends_json : Name → Bool
ends_json (a ∷ b ∷ c ∷ d ∷ e ∷ []) = is_dot_json a b c d e
ends_json (a ∷ rest) = ends_json rest
ends_json [] = false

unfoldable pub is_queue_file : Name → Bool
unfolding ends_json
is_queue_file [] = false
is_queue_file (c ∷ cs) = ends_json cs

-- The order of `str`: by code points, a prefix first.
unfoldable pub name_leb : Name → Name → Bool
name_leb [] ys = true
name_leb (x ∷ xs) [] = false
name_leb (x ∷ xs) (y ∷ ys) = if ltb x y then true else if ltb y x then false else name_leb xs ys

unfoldable pub name_eq : Name → Name → Bool
name_eq [] [] = true
name_eq (x ∷ xs) (y ∷ ys) = x == y && name_eq xs ys
name_eq xs ys = false
