-- ===== src/Queue/Tests.antt =====
-- Runs of the queue, and its theorems at concrete inputs.
use asterion_one.Base.{ℕ, ◌<◌, ◌≤◌, ◌≡◌, refl, ◌⊎◌, true, some, [], ◌∷◌, arith, leb}
use asterion_one.Json.{Fields, end, field, num, text}
use asterion_one.Queue.Names.{
  file_name, tmp_name, padded, digits, digits_from, zeros, seq_from_filename, is_queue_file,
  ends_json, name_leb, remove_json, read_int,
}
use asterion_one.Queue.Files.{whole, sorted_files, sort_entries, insert_entry, apply_ops}
use asterion_one.Queue.Spec.{Backlog, Represents, put_message, above_number}
use asterion_one.Queue.Enqueueing.{enqueue-Represents, make_room, enqueue-depth-le}
use asterion_one.Queue.Refinement.{remove_up_to-Represents}
use asterion_one.Queue.Crash.{take, dropped, enqueue_crash}
use asterion_one.Queue.Fifo.{two_files, get_from_million}
use asterion_one.Queue.{
  Queue, ok, err, missing_seq_id, enqueue, enqueue_ops, depth, read_from, get_from, remove_up_to,
  peek,
}

abbrev pub message : ℕ → Fields
message n = field "seq_id" (num n) (field "type" (text "TELEMETRY") end)

abbrev pub empty : Queue
empty = record { files = []; max_depth = 2; unlinkable = λ n. true }

abbrev pub holding : Queue
holding = record {
  files =
      (file_name 12, whole (message 12))
      ∷ (file_name 7, whole (message 7))
      ∷ (tmp_name 9, whole (message 9))
      ∷ [];
  max_depth = 2;
  unlinkable = λ n. true;
}

abbrev pub backlog : Backlog
backlog = (7, message 7) ∷ (12, message 12) ∷ []

missing : enqueue end empty ≡ err missing_seq_id
unfolding enqueue
missing = refl

read_back : get_from 8 holding ≡ message 12 ∷ []
unfolding get_from sorted_files sort_entries insert_entry is_queue_file ends_json name_leb file_name
    tmp_name padded digits digits_from zeros seq_from_filename remove_json read_int read_from
read_back = refl

pub holding-Represents : Represents holding backlog
unfolding sorted_files sort_entries insert_entry is_queue_file ends_json name_leb file_name tmp_name
    padded digits digits_from zeros
holding-Represents = record { listing = refl; ascending = omega arith; small = omega arith }

enqueue-Represents_example :
    (q' : Queue) × (enqueue (message 9) holding ≡ ok q')
    × Represents q' (put_message 9 (message 9) (make_room 2 backlog))
    × (q'.max_depth ≡ 2)
    × (q'.unlinkable ≡ (λ n. true))
enqueue-Represents_example =
    enqueue-Represents holding backlog 9 (message 9) (λ n. refl) holding-Represents refl
      (omega arith)

remove_up_to-Represents_example :
    let (q', removed) = remove_up_to 7 holding in
    Represents q' (above_number 7 backlog)
    × (removed ≡ 1)
    × (q'.max_depth ≡ 2)
    × (q'.unlinkable ≡ (λ n. true))
remove_up_to-Represents_example =
    remove_up_to-Represents holding backlog 7 (λ n. refl) holding-Represents

abbrev fuller : Queue
fuller = record holding { files = apply_ops (enqueue_ops 9 (message 9) holding) holding.files }

stored : enqueue (message 9) holding ≡ ok fuller
unfolding enqueue
stored = refl

depth_two : depth holding ≤ 2
unfolding depth sorted_files sort_entries insert_entry is_queue_file ends_json name_leb file_name
    tmp_name padded digits digits_from zeros
depth_two = omega arith

enqueue-depth-le_example : depth fuller ≤ 2
enqueue-depth-le_example =
    enqueue-depth-le holding fuller backlog 9 (message 9) (λ n. refl) holding-Represents refl
      (omega arith) (omega arith) depth_two stored

enqueue_crash_example :
    let after =
      sorted_files (apply_ops (take 2 (enqueue_ops 9 (message 9) holding)) holding.files) in
    (after ≡ sorted_files holding.files)
    ⊎ (after ≡ sorted_files (apply_ops (enqueue_ops 9 (message 9) holding) holding.files))
    ⊎ (leb 2 (depth holding) ≡ true) × (after ≡ dropped holding)
enqueue_crash_example = enqueue_crash holding 9 (message 9) 2

abbrev late : Queue
late = record empty { files = two_files 999999 (message 999999) 1000000 (message 1000000) }

get_from_million_example :
    (get_from 0 late ≡ message 1000000 ∷ message 999999 ∷ [])
    × (peek late ≡ some (message 1000000))
    × (999999 < 1000000)
get_from_million_example =
    get_from_million late 1000000 999999 (message 1000000) (message 999999) refl (omega arith)
      (omega arith) (omega arith) (omega arith)
