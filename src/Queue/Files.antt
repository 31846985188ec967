-- ===== src/Queue/Files.antt =====
-- flight/disk_queue.py: the queue directory, and the file-system calls that the queue makes.
pub mod Sorting
pub mod Listing
use asterion_one.Base.{
  ℕ, Bool, true, false, Option, none, some, List, [], ◌∷◌, ◌++◌, keep, not, if◌then◌else◌,
}
use asterion_one.Json.{Fields}
use asterion_one.Queue.Names.{Name, name_eq, name_leb, is_queue_file}

-- A file's content: a JSON object, or what `json.loads` refuses (an empty or a cut-off file).
pub data Content : Type 0 where
  whole : Fields → Content
  broken : Content

abbrev pub Entry : Type 0
Entry = Name × Content

-- No two entries have one name; the order is the arbitrary one of `iterdir`.
abbrev pub Directory : Type 0
Directory = List Entry

unfoldable pub other_than : Name → Entry → Bool
other_than n e = not (name_eq n e.0)

abbrev pub unlink : Name → Directory → Directory
unlink n = keep (other_than n)

abbrev pub put : Name → Content → Directory → Directory
put n c d = (n, c) ∷ unlink n d

unfoldable pub find : Name → Directory → Option Content
find n [] = none
find n ((m, c) ∷ d) = if name_eq n m then some c else find n d

-- `open(path, "w")` leaves an empty file; `f.write` and `os.fsync` complete it; `os.rename` replaces
-- the file of the new name.
pub data FileOp : Type 0 where
  unlinks : Name → FileOp
  opens : Name → FileOp
  writes : Name → Content → FileOp
  renames : Name → Name → FileOp

abbrev moved : Name → Name → Option Content → Directory → Directory
moved from to none d = d
moved from to (some c) d = put to c (unlink from d)

unfoldable pub apply_op : FileOp → Directory → Directory
apply_op (unlinks n) d = unlink n d
apply_op (opens n) d = put n broken d
apply_op (writes n c) d = put n c d
apply_op (renames from to) d = moved from to (find from d) d

unfoldable pub apply_ops : List FileOp → Directory → Directory
apply_ops [] d = d
apply_ops (o ∷ os) d = apply_ops os (apply_op o d)

-- `files.sort(key=lambda f: f.name)`
unfoldable pub insert_entry : Entry → List Entry → List Entry
insert_entry e [] = e ∷ []
insert_entry e (f ∷ fs) =
    let further = f ∷ insert_entry e fs in if name_leb e.0 f.0 then e ∷ f ∷ fs else further

unfoldable pub sort_entries : List Entry → List Entry
sort_entries [] = []
sort_entries (e ∷ es) = insert_entry e (sort_entries es)

-- `_sorted_files_locked`
unfoldable pub sorted_files : Directory → List Entry
sorted_files d = sort_entries (keep (λ e. is_queue_file e.0) d)
