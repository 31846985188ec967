-- ===== src/Queue/Spec.antt =====
-- flight/disk_queue.py: what the queue promises: a list of numbered messages in ascending order, and
-- how a directory represents it.
use asterion_one.Base.{
  ℕ, ◌<◌, ◌≡◌, Bool, not, List, [], ◌∷◌, ltb, leb, arith, if◌then◌else◌, keep, All, map,
}
use asterion_one.Json.{Fields}
use asterion_one.Queue.Names.{file_name}
use asterion_one.Queue.Files.{Entry, whole, sorted_files}
use asterion_one.Queue.{Queue}

abbrev pub Backlog : Type 0
Backlog = List (ℕ × Fields)

-- The message takes its place in the order, or that of the message of its number.
unfoldable pub put_message : ℕ → Fields → Backlog → Backlog
put_message n m [] = (n, m) ∷ []
put_message n m ((k, x) ∷ b) =
    let further = (k, x) ∷ put_message n m b in
    if ltb n k then (n, m) ∷ (k, x) ∷ b else if ltb k n then further else (n, m) ∷ b

abbrev pub drop_first : Backlog → Backlog
drop_first [] = []
drop_first (e ∷ b) = b

abbrev pub from_number : ℕ → Backlog → Backlog
from_number s = keep (λ e. leb s e.0)

abbrev pub above_number : ℕ → Backlog → Backlog
above_number s = keep (λ e. not (leb e.0 s))

abbrev pub messages : Backlog → List Fields
messages = map (λ e. e.1)

abbrev pub IsAbove : ℕ → Backlog → Type 0
IsAbove n = All (λ e. n < e.0)

abbrev pub IsAscending : Backlog → Type 0
IsAscending [] = Unit
IsAscending (e ∷ b) = IsAbove e.0 b × IsAscending b

-- Every number is below `f"{seq_id:06d}"`'s seventh digit.
abbrev pub IsSmall : Backlog → Type 0
IsSmall = All (λ e. e.0 < 1000000)

abbrev pub encode : ℕ × Fields → Entry
encode (n, m) = (file_name n, whole m)

pub record Represents (q : Queue) (b : Backlog) : Type 0 where
  pub listing : sorted_files q.files ≡ map encode b
  pub ascending : IsAscending b
  pub small : IsSmall b

-- The backlog operations keep the order and the range.
module _ (p : ℕ × Fields → Bool) where
  pub keep-IsAbove : (n : ℕ) (b : Backlog) → IsAbove n b → IsAbove n (keep p b)
  keep-IsAbove n [] h = tt
  keep-IsAbove n (e ∷ b) h = ground (arith, keep-IsAbove n b h.1)

  pub keep-IsAscending : (b : Backlog) → IsAscending b → IsAscending (keep p b)
  keep-IsAscending [] h = tt
  keep-IsAscending (e ∷ b) h = ground (arith, keep-IsAscending b h.1, keep-IsAbove e.0 b h.0)

  pub keep-IsSmall : (b : Backlog) → IsSmall b → IsSmall (keep p b)
  keep-IsSmall [] h = tt
  keep-IsSmall (e ∷ b) h = ground (arith, keep-IsSmall b h.1)

put_message-IsAbove :
    (k n : ℕ) (m : Fields) (b : Backlog) → k < n → IsAbove k b → IsAbove k (put_message n m b)
unfolding put_message
put_message-IsAbove k n m [] lt h = (lt, tt)
put_message-IsAbove k n m (e ∷ b) lt h = ground (arith, put_message-IsAbove k n m b lt h.1)

pub IsAbove-trans : (k n : ℕ) (b : Backlog) → k < n → IsAbove n b → IsAbove k b
IsAbove-trans k n [] lt h = tt
IsAbove-trans k n (e ∷ b) lt h = (omega (arith, h.0), IsAbove-trans k n b lt h.1)

pub put_message-IsAscending :
    (n : ℕ) (m : Fields) (b : Backlog) → IsAscending b → IsAscending (put_message n m b)
unfolding put_message
put_message-IsAscending n m [] h = (tt, tt)
put_message-IsAscending n m (e ∷ b) h = ground (
  arith,
  put_message-IsAscending n m b h.1,
  put_message-IsAbove e.0 n m b,
  IsAbove-trans n e.0 b,
  IsAbove-trans e.0 n b,
)

pub put_message-IsSmall :
    (n : ℕ) (m : Fields) (b : Backlog) → n < 1000000 → IsSmall b → IsSmall (put_message n m b)
unfolding put_message
put_message-IsSmall n m [] lt h = (lt, tt)
put_message-IsSmall n m (e ∷ b) lt h = ground (arith, put_message-IsSmall n m b lt h.1)
