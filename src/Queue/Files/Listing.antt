-- ===== src/Queue/Files/Listing.antt =====
-- flight/disk_queue.py: what each file-system call does to the sorted listing.
use asterion_one.Base.{◌≡◌, refl, ◌∙◌, ap, Bool, true, false, some, List, [], ◌∷◌, arith, keep}
use asterion_one.Queue.Names.{Name, is_queue_file}
use asterion_one.Queue.Names.Compare.{name_eq_refl, eq_of_name_eq}
use asterion_one.Queue.Files.{
  Content, Entry, Directory, broken, opens, writes, renames, other_than, unlink, put, find,
  apply_op, apply_ops, insert_entry, sort_entries, sorted_files,
}
use asterion_one.Queue.Files.Sorting.{keep-sort_entries}

keep_comm : (p q : Entry → Bool) (es : List Entry) → keep p (keep q es) ≡ keep q (keep p es)
keep_comm p q [] = refl
keep_comm p q (e ∷ es) = ground (arith, keep_comm p q es)

-- Removing a file takes its entry out of the listing.
pub sorted_files-unlink :
    (n : Name) (d : Directory) → sorted_files (unlink n d) ≡ keep (other_than n) (sorted_files d)
unfolding sorted_files
sorted_files-unlink n d =
    rw (keep_comm (λ e. is_queue_file e.0) (other_than n) d)
      (rw (keep-sort_entries (other_than n) (keep (λ e. is_queue_file e.0) d)))

-- A queue file that is written takes the place of the one of its name.
pub sorted_files-put :
    (n : Name) (c : Content) (d : Directory)
    → is_queue_file n ≡ true
    → sorted_files (put n c d) ≡ insert_entry (n, c) (keep (other_than n) (sorted_files d))
sorted_files-put n c d h = rw (← sorted_files-unlink n d) (unfold sorted_files sort_entries in rw h)

keep-unlisted :
    (n : Name) (d : Directory)
    → is_queue_file n ≡ false
    → keep (other_than n) (keep (λ e. is_queue_file e.0) d) ≡ keep (λ e. is_queue_file e.0) d
unfolding other_than
keep-unlisted n [] h = refl
keep-unlisted n (e ∷ d) h = ground (arith, keep-unlisted n d h, eq_of_name_eq n e.0)

-- Removing or writing a temporary file leaves the listing.
pub sorted_files-unlink_unlisted :
    (n : Name) (d : Directory)
    → is_queue_file n ≡ false
    → sorted_files (unlink n d) ≡ sorted_files d
unfolding sorted_files
sorted_files-unlink_unlisted n d h =
    rw (keep_comm (λ e. is_queue_file e.0) (other_than n) d) (rw (keep-unlisted n d h))

pub sorted_files-put_unlisted :
    (n : Name) (c : Content) (d : Directory)
    → is_queue_file n ≡ false
    → sorted_files (put n c d) ≡ sorted_files d
sorted_files-put_unlisted n c d h =
    rw (← sorted_files-unlink_unlisted n d h) (unfold sorted_files in rw h)

pub find-put : (n : Name) (c : Content) (d : Directory) → find n (put n c d) ≡ some c
unfolding find
find-put n c d = rw (name_eq_refl n)

module _ (tmp final : Name) (c : Content) (hidden : is_queue_file tmp ≡ false) where
  -- The three calls that store a message: the first two change nothing that is listed.
  pub sorted_files-opens :
      (d : Directory) → sorted_files (apply_ops (opens tmp ∷ []) d) ≡ sorted_files d
  unfolding apply_ops apply_op
  sorted_files-opens d = sorted_files-put_unlisted tmp broken d hidden

  pub sorted_files-writes :
      (d : Directory) → sorted_files (apply_ops (opens tmp ∷ writes tmp c ∷ []) d) ≡ sorted_files d
  unfolding apply_ops apply_op
  sorted_files-writes d =
      sorted_files-put_unlisted tmp c (put tmp broken d) hidden
      ∙ sorted_files-put_unlisted tmp broken d hidden

  -- The third one shows the message.
  pub sorted_files-renames :
      (d : Directory)
      → is_queue_file final ≡ true
      → sorted_files (apply_ops (opens tmp ∷ writes tmp c ∷ renames tmp final ∷ []) d)
        ≡ insert_entry (final, c) (keep (other_than final) (sorted_files d))
  unfolding apply_ops apply_op
  sorted_files-renames d shown = rw (find-put tmp c (put tmp broken d)) (
      sorted_files-put final c (unlink tmp (put tmp c (put tmp broken d))) shown
      ∙ ap (λ l. insert_entry (final, c) (keep (other_than final) l))
          (sorted_files-unlink_unlisted tmp (put tmp c (put tmp broken d)) hidden
            ∙ sorted_files-put_unlisted tmp c (put tmp broken d) hidden
            ∙ sorted_files-put_unlisted tmp broken d hidden))
