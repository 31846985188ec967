-- ===== src/Queue/Fifo.antt =====
-- flight/disk_queue.py: the delivery order from sequence number 1000000 on.
use asterion_one.Base.{ℕ, ◌/◌, ◌<◌, ◌≤◌, ◌≡◌, some, [], ◌∷◌, arith}
use asterion_one.Json.{Fields}
use asterion_one.Queue.Names.{file_name}
use asterion_one.Queue.Names.Digits.{seq_from_filename-file_name}
use asterion_one.Queue.Names.Order.{name_leb-file_name_million}
use asterion_one.Queue.Names.Compare.{is_queue_file-file_name}
use asterion_one.Queue.Files.{Directory, whole, insert_entry, sort_entries, sorted_files}
use asterion_one.Queue.{Queue, get_from, read_from, peek}

abbrev pub two_files : ℕ → Fields → ℕ → Fields → Directory
two_files b later a earlier = (file_name b, whole later) ∷ (file_name a, whole earlier) ∷ []

-- A queue that holds a seven-digit message `a` and a six-digit message `b` above `a`'s first six
-- digits delivers `a` first, though its number is the higher one; `peek` shows `a` too.
pub get_from_million :
    (q : Queue) (a b : ℕ) (high low : Fields)
    → q.files ≡ two_files b low a high
    → 1000000 ≤ a
    → a < 10000000
    → a / 10 < b
    → b < 1000000
    → (get_from 0 q ≡ high ∷ low ∷ []) × (peek q ≡ some high) × (b < a)
unfolding get_from peek sorted_files sort_entries insert_entry read_from
get_from_million q a b high low files la ha lt hb =
    let names = name_leb-file_name_million a b la ha lt hb in
    let shown = is_queue_file-file_name a in
    let shown' = is_queue_file-file_name b in
    (
      rw (files, shown, shown', names.1)
          (rw (seq_from_filename-file_name a, seq_from_filename-file_name b) (ground arith)),
      rw (files, shown, shown', names.1),
      omega arith,
    )
