-- ===== src/Queue/Removal.antt =====
-- flight/disk_queue.py: the loops that remove files, over the listing of a backlog.
use asterion_one.Base.{
  ℕ, ◌+◌, ◌≡◌, refl, ◌∙◌, ap, Bool, true, false, not, ◌&&◌, ◌||◌, [], ◌∷◌, ◌==◌, arith,
  if◌then◌else◌, keep, All, length, map, inl, inr, Bool-cases,
}
use asterion_one.Json.{Fields}
use asterion_one.Queue.Names.{Name, file_name}
use asterion_one.Queue.Files.{Directory, unlink, sorted_files}
use asterion_one.Queue.Files.Listing.{sorted_files-unlink}
use asterion_one.Queue.Spec.{Backlog, encode}
use asterion_one.Queue.Encoded.{other_number, keep-other_than}
use asterion_one.Queue.{remove_each}

abbrev has_number : ℕ → Backlog → Bool
has_number n [] = false
has_number n (e ∷ b) = e.0 == n || has_number n b

keep_congr : (p q : ℕ × Fields → Bool) (b : Backlog) → All (λ e. p e ≡ q e) b → keep p b ≡ keep q b
keep_congr p q [] h = refl
keep_congr p q (e ∷ b) h = ground (arith, keep_congr p q b h.1)

All-map :
    (P Q : ℕ × Fields → Type 0) (b : Backlog) → ((e : ℕ × Fields) → P e → Q e) → All P b → All Q b
All-map P Q [] f h = tt
All-map P Q (e ∷ b) f h = (f e h.0, All-map P Q b f h.1)

All-intro : (P : ℕ × Fields → Type 0) (b : Backlog) → ((e : ℕ × Fields) → P e) → All P b
All-intro P [] f = tt
All-intro P (e ∷ b) f = (f e, All-intro P b f)

has_number_self : (b : Backlog) → All (λ e. has_number e.0 b ≡ true) b
has_number_self [] = tt
has_number_self (e ∷ b) = (
  ground arith,
  All-map (λ x. has_number x.0 b ≡ true) (λ x. has_number x.0 (e ∷ b) ≡ true) b
      (λ x h. ground arith) (has_number_self b),
)

module _ (chosen unlinkable : Name → Bool) (r : ℕ → Bool)
    (same : (n : ℕ) → chosen (file_name n) ≡ r n) (able : (n : Name) → unlinkable n ≡ true) where
  -- One round of the loop.
  remove_each-cons :
      (e : ℕ × Fields) (b : Backlog) (d : Directory) (k : ℕ)
      → remove_each chosen unlinkable (map encode (e ∷ b)) (d, k)
        ≡ remove_each chosen unlinkable
            (map encode b)
            (if r e.0 then (unlink (file_name e.0) d, k + 1) else (d, k))
  unfolding remove_each
  remove_each-cons e b d k =
      ap
        (λ (t : Bool).
          remove_each chosen unlinkable (map encode b)
            (if t then (unlink (file_name e.0) d, k + 1) else (d, k)))
        (ground (arith, same e.0, able (file_name e.0)))

  -- Every chosen file is counted.
  pub remove_each-count :
      (b : Backlog) (d : Directory) (k : ℕ)
      → (remove_each chosen unlinkable (map encode b) (d, k)).1
        ≡ k + length (keep (λ (e : ℕ × Fields). r e.0) b)
  remove_each-count [] d k = unfold remove_each in omega arith
  remove_each-count (e ∷ b) d k = rw (remove_each-cons e b d k) (elim (Bool-cases (r e.0)) [
    | inl hit ↦ rw hit (omega (arith, remove_each-count b (unlink (file_name e.0) d) (k + 1)))
    | inr miss ↦ rw miss (remove_each-count b d k)
  ])

  abbrev survives : Backlog → ℕ × Fields → Bool
  survives b x = not (r x.0 && has_number x.0 b)

  keep-survives_nil : (c : Backlog) → keep (survives []) c ≡ c
  keep-survives_nil [] = refl
  keep-survives_nil (x ∷ c) = ground (arith, keep-survives_nil c)

  keep-survives_hit :
      (e : ℕ × Fields) (b c : Backlog)
      → r e.0 ≡ true
      → keep (survives b) (keep (other_number e.0) c) ≡ keep (survives (e ∷ b)) c
  keep-survives_hit e b [] h = refl
  keep-survives_hit e b (x ∷ c) h = ground (arith, keep-survives_hit e b c h)

  keep-survives_miss :
      (e : ℕ × Fields) (b c : Backlog)
      → r e.0 ≡ false
      → keep (survives b) c ≡ keep (survives (e ∷ b)) c
  keep-survives_miss e b [] h = refl
  keep-survives_miss e b (x ∷ c) h = ground (arith, keep-survives_miss e b c h)

  remove_each-survives :
      (b c : Backlog) (d : Directory) (k : ℕ)
      → sorted_files d ≡ map encode c
      → sorted_files (remove_each chosen unlinkable (map encode b) (d, k)).0
        ≡ map encode (keep (survives b) c)
  remove_each-survives [] c d k h = rw (keep-survives_nil c) (unfold remove_each in h)
  remove_each-survives (e ∷ b) c d k h = rw (remove_each-cons e b d k) (elim (Bool-cases (r e.0)) [
    | inl hit ↦ rw hit (
        rw (← keep-survives_hit e b c hit) (
          remove_each-survives b (keep (other_number e.0) c) (unlink (file_name e.0) d) (k + 1)
            (sorted_files-unlink (file_name e.0) d ∙ rw h (keep-other_than e.0 c))))
    | inr miss ↦ rw miss (rw (← keep-survives_miss e b c miss) (remove_each-survives b c d k h))
  ])

  -- The loop over the whole listing leaves the messages that were not chosen.
  pub sorted_files-remove_each :
      (b : Backlog) (d : Directory)
      → sorted_files d ≡ map encode b
      → sorted_files (remove_each chosen unlinkable (sorted_files d) (d, 0)).0
        ≡ map encode (keep (λ e. not (r e.0)) b)
  sorted_files-remove_each b d h = rw h (
      remove_each-survives b b d 0 h
      ∙ ap (map encode) (
          keep_congr (survives b) (λ e. not (r e.0)) b
            (All-map (λ e. has_number e.0 b ≡ true) (λ e. survives b e ≡ not (r e.0)) b
              (λ e m. ground arith) (has_number_self b))))
