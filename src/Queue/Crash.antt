-- ===== src/Queue/Crash.antt =====
-- flight/disk_queue.py: a crash inside `enqueue`, in any directory.
use asterion_one.Base.{
  ℕ, zero, suc, ◌≡◌, refl, ap, ◌⊎◌, inl, inr, Bool, true, List, [], ◌∷◌, ◌++◌, leb, arith, length,
  ◌≤◌, Bool-cases,
}
use asterion_one.Json.{Fields}
use asterion_one.Queue.Names.{Name, file_name, tmp_name}
use asterion_one.Queue.Names.Compare.{is_queue_file-tmp_name}
use asterion_one.Queue.Files.{
  Entry, Directory, whole, FileOp, opens, writes, renames, apply_op, apply_ops, sorted_files,
}
use asterion_one.Queue.Files.Listing.{sorted_files-opens, sorted_files-writes}
use asterion_one.Queue.{Queue, drop_oldest, depth, enqueue_ops}

-- The calls that were made before the crash.
abbrev pub take : ℕ → List FileOp → List FileOp
take zero os = []
take (suc k) [] = []
take (suc k) (o ∷ os) = o ∷ take k os

-- The listing without the file that an overflow drop removes first.
abbrev pub dropped : Queue → List Entry
dropped q = sorted_files (apply_ops (drop_oldest q.unlinkable (sorted_files q.files)) q.files)

abbrev store_ops : ℕ → Fields → List FileOp
store_ops seq msg =
    opens (tmp_name seq)
    ∷ writes (tmp_name seq) (whole msg)
    ∷ renames (tmp_name seq) (file_name seq)
    ∷ []

take-nil : (k : ℕ) → take k [] ≡ []
take-nil zero = refl
take-nil (suc k) = refl

store_crash :
    (seq : ℕ) (msg : Fields) (d : Directory) (k : ℕ)
    → (sorted_files (apply_ops (take k (store_ops seq msg)) d) ≡ sorted_files d)
      ⊎ (apply_ops (take k (store_ops seq msg)) d ≡ apply_ops (store_ops seq msg) d)
store_crash seq msg d zero = inl (unfold apply_ops in refl)
store_crash seq msg d (suc zero) =
    inl
      (sorted_files-opens (tmp_name seq) (file_name seq) (whole msg) (is_queue_file-tmp_name seq) d)
store_crash seq msg d (suc (suc zero)) =
    inl (
      sorted_files-writes (tmp_name seq) (file_name seq) (whole msg) (is_queue_file-tmp_name seq) d)
store_crash seq msg d (suc (suc (suc k))) = inr (rw (take-nil k))

-- With at most one call before the three that store the message.
ops_crash :
    (seq : ℕ) (msg : Fields) (before : List FileOp) (d : Directory) (k : ℕ)
    → length before ≤ 1
    → let after = sorted_files (apply_ops (take k (before ++ store_ops seq msg)) d) in
      (after ≡ sorted_files d)
      ⊎ (after ≡ sorted_files (apply_ops (before ++ store_ops seq msg) d))
      ⊎ (after ≡ sorted_files (apply_ops before d))
ops_crash seq msg [] d k h = elim (store_crash seq msg d k) [
  | inl e ↦ inl e
  | inr e ↦ inr (inl (ap sorted_files e))
]
ops_crash seq msg (o ∷ []) d zero h = inl (unfold apply_ops in refl)
ops_crash seq msg (o ∷ []) d (suc k) h = elim (store_crash seq msg (apply_op o d) k) [
  | inl e ↦ inr (inr (unfold apply_ops in e))
  | inr e ↦ inr (inl (unfold apply_ops in ap sorted_files e))
]
ops_crash seq msg (o ∷ p ∷ os) d k h = absurd (omega arith)

length-drop_oldest-le : (able : Name → Bool) (es : List Entry) → length (drop_oldest able es) ≤ 1
length-drop_oldest-le able [] = omega arith
length-drop_oldest-le able (e ∷ es) = ground arith

-- Whatever the directory holds, and after whichever call of an enqueue the process dies, the
-- listing is the one before it, the one after it, or, where the queue was full, the one before it
-- less the oldest file: no listed file is ever half written.
pub enqueue_crash :
    (q : Queue) (seq : ℕ) (msg : Fields) (k : ℕ)
    → let after = sorted_files (apply_ops (take k (enqueue_ops seq msg q)) q.files) in
      (after ≡ sorted_files q.files)
      ⊎ (after ≡ sorted_files (apply_ops (enqueue_ops seq msg q) q.files))
      ⊎ (leb q.max_depth (depth q) ≡ true) × (after ≡ dropped q)
unfolding enqueue_ops
enqueue_crash q seq msg k = elim (Bool-cases (leb q.max_depth (depth q))) [
  | inl full ↦
      rw full
        (elim (ops_crash seq msg (drop_oldest q.unlinkable (sorted_files q.files)) q.files k
          (length-drop_oldest-le q.unlinkable (sorted_files q.files))) [
            | inl e ↦ inl e
            | inr (inl e) ↦ inr (inl e)
            | inr (inr e) ↦ inr (inr (refl, e))
          ])
  | inr room ↦ rw room (elim (ops_crash seq msg [] q.files k (omega arith)) [
    | inl e ↦ inl e
    | inr (inl e) ↦ inr (inl e)
    | inr (inr e) ↦ inl (unfold apply_ops in e)
  ])
]
