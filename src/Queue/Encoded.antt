-- ===== src/Queue/Encoded.antt =====
-- flight/disk_queue.py: the listing of a backlog under insertion, removal and choice.
use asterion_one.Base.{ℕ, ◌<◌, ◌≡◌, refl, ap, Bool, not, [], ◌∷◌, ◌==◌, arith, keep, map}
use asterion_one.Json.{Fields}
use asterion_one.Queue.Names.{file_name}
use asterion_one.Queue.Names.Digits.{seq_from_filename-file_name}
use asterion_one.Queue.Names.Order.{name_leb-file_name}
use asterion_one.Queue.Names.Compare.{name_eq-file_name}
use asterion_one.Queue.Files.{Entry, other_than, insert_entry}
use asterion_one.Queue.Spec.{
  Backlog, put_message, messages, IsAbove, IsAbove-trans, IsAscending, IsSmall, encode, from_number,
}
use asterion_one.Queue.{read_from}

abbrev pub other_number : ℕ → ℕ × Fields → Bool
other_number n e = not (n == e.0)

-- A choice of entries by name is a choice of messages by number.
pub keep-encode :
    (p : Entry → Bool) (r : ℕ × Fields → Bool) (b : Backlog)
    → ((e : ℕ × Fields) → p (encode e) ≡ r e)
    → keep p (map encode b) ≡ map encode (keep r b)
keep-encode p r [] h = refl
keep-encode p r (e ∷ b) h = ground (arith, keep-encode p r b h, h e)

pub keep-other_than :
    (n : ℕ) (b : Backlog)
    → keep (other_than (file_name n)) (map encode b) ≡ map encode (keep (other_number n) b)
unfolding other_than
keep-other_than n b =
    keep-encode (other_than (file_name n)) (other_number n) b
      (λ e. ap not (name_eq-file_name n e.0))

pub keep-other_number : (n : ℕ) (b : Backlog) → IsAbove n b → keep (other_number n) b ≡ b
keep-other_number n [] h = refl
keep-other_number n (e ∷ b) h = ground (arith, keep-other_number n b h.1)

insert_entry-front :
    (n : ℕ) (m : Fields) (b : Backlog)
    → n < 1000000
    → IsSmall b
    → IsAbove n b
    → insert_entry (encode (n, m)) (map encode b) ≡ encode (n, m) ∷ map encode b
unfolding insert_entry
insert_entry-front n m [] lt h k = refl
insert_entry-front n m (e ∷ b) lt h k = ground (arith, name_leb-file_name n e.0 lt h.0)

-- Inserting the new file is putting the message in its place.
pub insert_entry-encode :
    (n : ℕ) (m : Fields) (b : Backlog)
    → n < 1000000
    → IsSmall b
    → IsAscending b
    → insert_entry (encode (n, m)) (map encode (keep (other_number n) b))
      ≡ map encode (put_message n m b)
unfolding insert_entry put_message
insert_entry-encode n m [] lt h k = refl
insert_entry-encode n m ((j, x) ∷ b) lt h k = ground (
  arith,
  insert_entry-encode n m b lt h.1 k.1,
  name_leb-file_name n j lt h.0,
  insert_entry-front n m b lt h.1,
  keep-other_number n b,
  IsAbove-trans n j b,
  k.0,
)

pub read_from-encode :
    (s : ℕ) (b : Backlog) → read_from s (map encode b) ≡ messages (from_number s b)
unfolding read_from
read_from-encode s [] = refl
read_from-encode s (e ∷ b) =
    rw (seq_from_filename-file_name e.0) (ground (arith, read_from-encode s b))
