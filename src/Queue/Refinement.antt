-- ===== src/Queue/Refinement.antt =====
-- flight/disk_queue.py: the methods implement the backlog, for sequence numbers of six digits.
use asterion_one.Base.{
  ℕ, suc, ◌<◌, ◌≡◌, refl, ◌∙◌, ap, Bool, true, false, not, Option, none, some, [], ◌∷◌, leb, arith,
  keep, length, map,
}
use asterion_one.Json.{Fields}
use asterion_one.Queue.Names.{Name, file_name, seq_from_filename}
use asterion_one.Queue.Names.Digits.{seq_from_filename-file_name}
use asterion_one.Queue.Spec.{
  Backlog, from_number, above_number, messages, encode, Represents, keep-IsAscending, keep-IsSmall,
}
use asterion_one.Queue.Encoded.{read_from-encode}
use asterion_one.Queue.Removal.{remove_each-count, sorted_files-remove_each}
use asterion_one.Queue.{Queue, depth, up_to_seq, get_from, remove_up_to, first_message, peek, clear}

abbrev pub AllUnlinkable : Queue → Type 0
AllUnlinkable q = (n : Name) → q.unlinkable n ≡ true

length-encode : (b : Backlog) → length (map encode b) ≡ length b
length-encode [] = refl
length-encode (e ∷ b) = ap suc (length-encode b)

pub depth-Represents : (q : Queue) (b : Backlog) → Represents q b → depth q ≡ length b
unfolding depth
depth-Represents q b v = rw (v.listing) (length-encode b)

-- On a queue that represents a backlog, reading from a number returns the messages of that number on,
-- in order.
pub get_from-Represents :
    (q : Queue) (b : Backlog) (s : ℕ) → Represents q b → get_from s q ≡ messages (from_number s b)
unfolding get_from
get_from-Represents q b s v = rw (v.listing) (read_from-encode s b)

abbrev pub first_of_backlog : Backlog → Option Fields
first_of_backlog [] = none
first_of_backlog (e ∷ b) = some e.1

-- On a queue that represents a backlog and whose files can all be removed, removing up to a number
-- removes those messages and no others, and counts them.
pub remove_up_to-Represents :
    (q : Queue) (b : Backlog) (s : ℕ)
    → AllUnlinkable q
    → Represents q b
    → let (q', removed) = remove_up_to s q in
      Represents q' (above_number s b)
      × (removed ≡ length (keep (λ (e : ℕ × Fields). leb e.0 s) b))
      × (q'.max_depth ≡ q.max_depth)
      × (q'.unlinkable ≡ q.unlinkable)
unfolding remove_up_to
remove_up_to-Represents q b s able v = (
  record {
    listing =
        sorted_files-remove_each chosen q.unlinkable (λ n. leb n s) same able b q.files v.listing;
    ascending = keep-IsAscending (λ e. not (leb e.0 s)) b v.ascending;
    small = keep-IsSmall (λ e. not (leb e.0 s)) b v.small;
  },
  rw (v.listing)
      (remove_each-count chosen q.unlinkable (λ n. leb n s) same able b q.files 0 ∙ omega arith),
  refl,
  refl,
)
  where
    chosen : Name → Bool
    chosen n = up_to_seq s (seq_from_filename n)

    same : (n : ℕ) → chosen (file_name n) ≡ leb n s
    same n = ap (up_to_seq s) (seq_from_filename-file_name n)

from_number-above_number :
    (s k : ℕ) (b : Backlog) → s < k → from_number k (above_number s b) ≡ from_number k b
from_number-above_number s k [] lt = refl
from_number-above_number s k (e ∷ b) lt = ground (arith, from_number-above_number s k b lt)

-- On a queue that represents a backlog and whose files can all be removed, a removal up to a number
-- does not change what a read from any number above finds.
pub get_from-remove_up_to :
    (q : Queue) (b : Backlog) (s k : ℕ)
    → AllUnlinkable q
    → Represents q b
    → s < k
    → get_from k (remove_up_to s q).0 ≡ get_from k q
get_from-remove_up_to q b s k able v lt =
    get_from-Represents (remove_up_to s q).0 (above_number s b) k
      (remove_up_to-Represents q b s able v).0
    ∙ rw (from_number-above_number s k b lt, get_from-Represents q b k v)

first_message-encode : (b : Backlog) → first_message (map encode b) ≡ first_of_backlog b
first_message-encode [] = refl
first_message-encode (e ∷ b) = refl

-- `peek` returns the message of the lowest number.
pub peek-Represents : (q : Queue) (b : Backlog) → Represents q b → peek q ≡ first_of_backlog b
unfolding peek
peek-Represents q b v = rw (v.listing) (first_message-encode b)

keep_none : (b : Backlog) → keep (λ (e : ℕ × Fields). false) b ≡ []
keep_none [] = refl
keep_none (e ∷ b) = keep_none b

keep_all : (b : Backlog) → keep (λ (e : ℕ × Fields). true) b ≡ b
keep_all [] = refl
keep_all (e ∷ b) = ap (◌∷◌ e) (keep_all b)

-- On a queue that represents a backlog and whose files can all be removed, `clear` removes and counts
-- everything.
pub clear-Represents :
    (q : Queue) (b : Backlog)
    → AllUnlinkable q
    → Represents q b
    → let (q', removed) = clear q in Represents q' [] × (removed ≡ length b)
unfolding clear
clear-Represents q b able v = (
  record {
    listing =
        sorted_files-remove_each (λ n. true) q.unlinkable (λ n. true) (λ n. refl) able b q.files
          v.listing
        ∙ ap (map encode) (keep_none b);
    ascending = tt;
    small = tt;
  },
  rw (v.listing) (
      remove_each-count (λ n. true) q.unlinkable (λ n. true) (λ n. refl) able b q.files 0
      ∙ rw (keep_all b) (omega arith)),
)
