-- ===== src/Queue/Enqueueing.antt =====
-- flight/disk_queue.py: `enqueue` implements the backlog, for sequence numbers of six digits, and
-- keeps the depth within its bound.
use asterion_one.Base.{
  ℕ, suc, ◌<◌, ◌≤◌, ◌≡◌, refl, ◌∙◌, ap, Bool, true, some, List, [], ◌∷◌, ◌++◌, leb, arith,
  if◌then◌else◌, length, map, inl, inr, Bool-cases,
}
use asterion_one.Json.{Fields, num, get}
use asterion_one.Queue.Names.{Name, file_name, tmp_name}
use asterion_one.Queue.Names.Compare.{is_queue_file-file_name, is_queue_file-tmp_name}
use asterion_one.Queue.Files.{Directory, whole, FileOp, apply_op, apply_ops, sorted_files}
use asterion_one.Queue.Files.Listing.{sorted_files-unlink, sorted_files-renames}
use asterion_one.Queue.Spec.{
  Backlog, put_message, drop_first, IsAscending, IsSmall, encode, Represents,
  put_message-IsAscending, put_message-IsSmall,
}
use asterion_one.Queue.Encoded.{keep-other_than, insert_entry-encode, keep-other_number}
use asterion_one.Queue.{Queue, ok, drop_oldest, depth, enqueue_ops, enqueue}
use asterion_one.Queue.Refinement.{AllUnlinkable, depth-Represents}

-- The first call of an enqueue on a full queue drops the message of the lowest number.
abbrev pub make_room : ℕ → Backlog → Backlog
make_room max_depth b = if leb max_depth (length b) then drop_first b else b

abbrev drop_ops : Queue → List FileOp
drop_ops q =
    if leb q.max_depth (depth q) then drop_oldest q.unlinkable (sorted_files q.files) else []

drop_oldest-Represents :
    (d : Directory) (b : Backlog) (unlinkable : Name → Bool)
    → ((n : Name) → unlinkable n ≡ true)
    → sorted_files d ≡ map encode b
    → IsAscending b
    → sorted_files (apply_ops (drop_oldest unlinkable (sorted_files d)) d)
      ≡ map encode (drop_first b)
unfolding apply_ops apply_op
drop_oldest-Represents d [] unlinkable able h a = rw h h
drop_oldest-Represents d (e ∷ b) unlinkable able h a =
    rw (h, able (file_name e.0))
      (sorted_files-unlink (file_name e.0) d
        ∙ rw h (
            keep-other_than e.0 (e ∷ b)
            ∙ ap (map encode) (ground (arith, keep-other_number e.0 b a.0))))

sorted_files-drop_ops :
    (q : Queue) (b : Backlog)
    → AllUnlinkable q
    → Represents q b
    → sorted_files (apply_ops (drop_ops q) q.files) ≡ map encode (make_room q.max_depth b)
sorted_files-drop_ops q b able v =
    rw (depth-Represents q b v) (elim (Bool-cases (leb q.max_depth (length b))) [
      | inl full ↦
          rw full (drop_oldest-Represents q.files b q.unlinkable able v.listing v.ascending)
      | inr room ↦ rw room (unfold apply_ops in v.listing)
    ])

pub make_room-IsAscending : (k : ℕ) (b : Backlog) → IsAscending b → IsAscending (make_room k b)
make_room-IsAscending k [] h = ground arith
make_room-IsAscending k (e ∷ b) h = ground arith

pub make_room-IsSmall : (k : ℕ) (b : Backlog) → IsSmall b → IsSmall (make_room k b)
make_room-IsSmall k [] h = ground arith
make_room-IsSmall k (e ∷ b) h = ground arith

apply_ops-append :
    (os ps : List FileOp) (d : Directory) → apply_ops (os ++ ps) d ≡ apply_ops ps (apply_ops os d)
unfolding apply_ops
apply_ops-append [] ps d = refl
apply_ops-append (o ∷ os) ps d = apply_ops-append os ps (apply_op o d)

-- The calls of an enqueue store the message in its place, on a full queue after dropping the
-- message of the lowest number.
enqueue_ops-Represents :
    (q : Queue) (b : Backlog) (seq : ℕ) (msg : Fields)
    → AllUnlinkable q
    → Represents q b
    → seq < 1000000
    → sorted_files (apply_ops (enqueue_ops seq msg q) q.files)
      ≡ map encode (put_message seq msg (make_room q.max_depth b))
unfolding enqueue_ops
enqueue_ops-Represents q b seq msg able v lt =
    ap sorted_files (apply_ops-append (drop_ops q) _ q.files)
    ∙ sorted_files-renames (tmp_name seq) (file_name seq) (whole msg) (is_queue_file-tmp_name seq)
        (apply_ops (drop_ops q) q.files) (is_queue_file-file_name seq)
    ∙ rw (sorted_files-drop_ops q b able v) (
        rw (keep-other_than seq (make_room q.max_depth b)) (
          insert_entry-encode seq msg (make_room q.max_depth b) lt
            (make_room-IsSmall q.max_depth b v.small)
            (make_room-IsAscending q.max_depth b v.ascending)))

-- On a queue that represents a backlog and whose files can all be removed, enqueueing a message whose
-- number is below a million succeeds and stores it in its place in the order, over the message of its
-- number if there is one, on a full queue after dropping the lowest number.
pub enqueue-Represents :
    (q : Queue) (b : Backlog) (seq : ℕ) (msg : Fields)
    → AllUnlinkable q
    → Represents q b
    → get "seq_id" msg ≡ some (num seq)
    → seq < 1000000
    → (q' : Queue) × (enqueue msg q ≡ ok q')
      × Represents q' (put_message seq msg (make_room q.max_depth b))
      × (q'.max_depth ≡ q.max_depth)
      × (q'.unlinkable ≡ q.unlinkable)
unfolding enqueue
enqueue-Represents q b seq msg able v key lt = (
  record q { files = apply_ops (enqueue_ops seq msg q) q.files },
  rw key,
  record {
    listing = enqueue_ops-Represents q b seq msg able v lt;
    ascending = put_message-IsAscending seq msg _ (make_room-IsAscending q.max_depth b v.ascending);
    small = put_message-IsSmall seq msg _ lt (make_room-IsSmall q.max_depth b v.small);
  },
  refl,
  refl,
)

length-put_message-le :
    (n : ℕ) (m : Fields) (b : Backlog) → length (put_message n m b) ≤ suc (length b)
unfolding put_message
length-put_message-le n m [] = omega arith
length-put_message-le n m (e ∷ b) = ground (arith, length-put_message-le n m b)

length-make_room : (k : ℕ) (b : Backlog) → 0 < k → length b ≤ k → suc (length (make_room k b)) ≤ k
length-make_room k [] pos h = ground arith
length-make_room k (e ∷ b) pos h = ground arith

-- The overflow drop bounds the queue: on a queue that represents a backlog, whose files can all be
-- removed and whose `max_depth` is not 0, a depth within `max_depth` stays so when a message with a
-- number below a million is enqueued.
pub enqueue-depth-le :
    (q q' : Queue) (b : Backlog) (seq : ℕ) (msg : Fields)
    → AllUnlinkable q
    → Represents q b
    → get "seq_id" msg ≡ some (num seq)
    → seq < 1000000
    → 0 < q.max_depth
    → depth q ≤ q.max_depth
    → enqueue msg q ≡ ok q'
    → depth q' ≤ q.max_depth
enqueue-depth-le q q' b seq msg able v key lt pos le e =
    let (r, e', v', _, _) = enqueue-Represents q b seq msg able v key lt in
    let same : q' ≡ r = cc in
    rw same (
      omega (
        arith,
        depth-Represents r _ v',
        depth-Represents q b v,
        length-put_message-le seq msg (make_room q.max_depth b),
        length-make_room q.max_depth b pos,
      ))
