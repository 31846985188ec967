-- ===== src/Queue/Files/Sorting.antt =====
-- flight/disk_queue.py: sorting the listing by name, and what each file-system call does to it.
use asterion_one.Base.{
  ◌≡◌, refl, Bool, true, List, [], ◌∷◌, arith, if◌then◌else◌, inl, inr, Bool-cases, All, keep,
}
use asterion_one.Queue.Names.{name_leb}
use asterion_one.Queue.Names.Compare.{name_leb-total, name_leb_trans}
use asterion_one.Queue.Files.{Entry, insert_entry, sort_entries}

abbrev IsLower : Entry → List Entry → Type 0
IsLower e = All (λ f. name_leb e.0 f.0 ≡ true)

abbrev pub IsSorted : List Entry → Type 0
IsSorted [] = Unit
IsSorted (e ∷ es) = IsLower e es × IsSorted es

IsLower-trans :
    (e f : Entry) (es : List Entry) → name_leb e.0 f.0 ≡ true → IsLower f es → IsLower e es
IsLower-trans e f [] h k = tt
IsLower-trans e f (g ∷ es) h k = (name_leb_trans e.0 f.0 g.0 h k.0, IsLower-trans e f es h k.1)

IsLower-insert_entry :
    (e f : Entry) (es : List Entry)
    → name_leb e.0 f.0 ≡ true
    → IsLower e es
    → IsLower e (insert_entry f es)
unfolding insert_entry
IsLower-insert_entry e f [] h k = (h, tt)
IsLower-insert_entry e f (g ∷ es) h k = ground (arith, IsLower-insert_entry e f es h k.1)

insert_entry-IsSorted : (e : Entry) (es : List Entry) → IsSorted es → IsSorted (insert_entry e es)
unfolding insert_entry
insert_entry-IsSorted e [] h = (tt, tt)
insert_entry-IsSorted e (f ∷ es) h = elim (Bool-cases (name_leb e.0 f.0)) [
  | inl le ↦ rw le ((le, IsLower-trans e f es le h.0), h)
  | inr gt ↦
      rw gt (
        IsLower-insert_entry f e es (name_leb-total e.0 f.0 gt) h.0,
        insert_entry-IsSorted e es h.1,
      )
]

pub sort_entries-IsSorted : (es : List Entry) → IsSorted (sort_entries es)
unfolding sort_entries
sort_entries-IsSorted [] = tt
sort_entries-IsSorted (e ∷ es) =
    insert_entry-IsSorted e (sort_entries es) (sort_entries-IsSorted es)

-- An entry below all others goes in front.
pub insert_entry-IsLower : (e : Entry) (es : List Entry) → IsLower e es → insert_entry e es ≡ e ∷ es
unfolding insert_entry
insert_entry-IsLower e [] h = refl
insert_entry-IsLower e (f ∷ es) h = rw (h.0)

module _ (p : Entry → Bool) where
  keep-IsLower : (e : Entry) (es : List Entry) → IsLower e es → IsLower e (keep p es)
  keep-IsLower e [] h = tt
  keep-IsLower e (f ∷ es) h = ground (arith, keep-IsLower e es h.1)

  keep-insert_entry :
      (e : Entry) (es : List Entry)
      → IsSorted es
      → keep p (insert_entry e es) ≡ (if p e then insert_entry e (keep p es) else keep p es)
  unfolding insert_entry
  keep-insert_entry e [] h = refl
  keep-insert_entry e (f ∷ es) h = ground (
    arith,
    keep-insert_entry e es h.1,
    IsLower-trans e f es,
    insert_entry-IsLower e (keep p es),
    keep-IsLower e es,
  )

  -- Choosing commutes with sorting.
  pub keep-sort_entries : (es : List Entry) → keep p (sort_entries es) ≡ sort_entries (keep p es)
  unfolding sort_entries
  keep-sort_entries [] = refl
  keep-sort_entries (e ∷ es) =
      rw (keep-insert_entry e (sort_entries es) (sort_entries-IsSorted es))
        (ground (arith, keep-sort_entries es))
