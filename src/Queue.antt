-- ===== src/Queue.antt =====
-- flight/disk_queue.py: the methods of `DiskQueue` over a directory. Each holds the queue's mutex
-- from its first to its last file-system call, so a method is one step. An `OSError` of a call is
-- swallowed: `unlinkable` says which files can be removed.
pub mod Names
pub mod Files
pub mod Spec
pub mod Encoded
pub mod Removal
pub mod Refinement
pub mod Enqueueing
pub mod Crash
pub mod Fifo
pub mod Tests
use Prim.Native.Char.{code}
use asterion_one.Base.{
  ℕ, zero, suc, ◌+◌, Bool, true, false, Option, none, some, List, [], ◌∷◌, ◌++◌, String, length,
  leb, ◌==◌, ◌&&◌, keep, if◌then◌else◌,
}
use asterion_one.Json.{Json, Fields, null, flag, num, decimal, text, arr, obj, get}
use asterion_one.Queue.Names.{Name, file_name, tmp_name, read_int, seq_from_filename}
use asterion_one.Queue.Files.{
  Content, Entry, Directory, whole, broken, FileOp, unlinks, opens, writes, renames, unlink,
  apply_ops, sorted_files,
}

pub record Queue : Type 0 where
  pub files : Directory
  pub max_depth : ℕ
  pub unlinkable : Name → Bool

pub data Error : Type 0 where
  missing_seq_id bad_seq_id : Error

pub data Result (A : Type 0) : Type 0 where
  ok : A → Result A
  err : Error → Result A

abbrev codes : String → Name
codes String.[] = []
codes (String.◌∷◌ c s) = code c ∷ codes s

-- `int(x)`, where the result is a natural number; a fraction is not taken as a sequence number.
abbrev pub as_int : Json → Option ℕ
as_int (num n) = some n
as_int (flag true) = some 1
as_int (flag false) = some 0
as_int (text s) = read_int (codes s)
as_int _ = none

-- `_count_locked`
unfoldable pub depth : Queue → ℕ
depth q = length (sorted_files q.files)

unfoldable pub is_empty : Queue → Bool
is_empty q = depth q == 0

-- `_drop_oldest_locked`, as the calls that it makes.
abbrev pub drop_oldest : (Name → Bool) → List Entry → List FileOp
drop_oldest unlinkable [] = []
drop_oldest unlinkable (f ∷ fs) = if unlinkable f.0 then unlinks f.0 ∷ [] else []

-- The calls of `enqueue`, in order: perhaps an overflow drop, then the file under its temporary
-- name, then the rename.
unfoldable pub enqueue_ops : ℕ → Fields → Queue → List FileOp
enqueue_ops seq msg q =
    (if leb q.max_depth (depth q) then drop_oldest q.unlinkable (sorted_files q.files) else [])
    ++ opens (tmp_name seq)
      ∷ writes (tmp_name seq) (whole msg)
      ∷ renames (tmp_name seq) (file_name seq)
      ∷ []

abbrev enqueue_seq : Option ℕ → Fields → Queue → Result Queue
enqueue_seq none msg q = err bad_seq_id
enqueue_seq (some seq) msg q = ok (record q { files = apply_ops (enqueue_ops seq msg q) q.files })

abbrev enqueue_value : Option Json → Fields → Queue → Result Queue
enqueue_value none msg q = err missing_seq_id
enqueue_value (some v) msg q = enqueue_seq (as_int v) msg q

unfoldable pub enqueue : Fields → Queue → Result Queue
enqueue msg q = enqueue_value (get "seq_id" msg) msg q

abbrev pub from_seq : ℕ → Option ℕ → Bool
from_seq seq none = false
from_seq seq (some n) = leb seq n

abbrev pub up_to_seq : ℕ → Option ℕ → Bool
up_to_seq seq none = false
up_to_seq seq (some n) = leb n seq

-- `_read_file`, and the test `msg is not None`.
abbrev read_onto : Content → List Fields → List Fields
read_onto (whole msg) rest = msg ∷ rest
read_onto broken rest = rest

unfoldable pub read_from : ℕ → List Entry → List Fields
read_from seq [] = []
read_from seq ((n, c) ∷ fs) =
    let rest = read_from seq fs in
    if from_seq seq (seq_from_filename n) then read_onto c rest else rest

unfoldable pub get_from : ℕ → Queue → List Fields
get_from seq q = read_from seq (sorted_files q.files)

-- `for f in files: if ...: try: f.unlink(); removed += 1`
unfoldable pub remove_each :
    (Name → Bool) → (Name → Bool) → List Entry → Directory × ℕ → Directory × ℕ
remove_each chosen unlinkable [] acc = acc
remove_each chosen unlinkable ((n, c) ∷ fs) (d, removed) =
    remove_each chosen unlinkable fs
      (if chosen n && unlinkable n then (unlink n d, removed + 1) else (d, removed))

unfoldable pub remove_up_to : ℕ → Queue → Queue × ℕ
remove_up_to seq q =
    let (d, removed) =
      remove_each (λ n. up_to_seq seq (seq_from_filename n)) q.unlinkable (sorted_files q.files)
        (q.files, 0) in
    (record q { files = d }, removed)

abbrev first_message : List Entry → Option Fields
first_message [] = none
first_message ((n, whole msg) ∷ fs) = some msg
first_message ((n, broken) ∷ fs) = none

unfoldable pub peek : Queue → Option Fields
peek q = first_message (sorted_files q.files)

unfoldable pub clear : Queue → Queue × ℕ
clear q =
    let (d, removed) = remove_each (λ n. true) q.unlinkable (sorted_files q.files) (q.files, 0) in
    (record q { files = d }, removed)
