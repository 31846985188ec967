-- ===== src/Infra/Counts.antt =====
-- infra/fault_injector_bad_sig.py: what the script's counts say of the replies.
use asterion_one.Base.{
  ℕ, ◌≡◌, some, List, [], ◌∷◌, String, All, keep, length, arith, Option-cases, Bool-cases, inl, inr,
}
use asterion_one.Json.{Json}
use asterion_one.Infra.Answers.{item, count_status}
use asterion_one.Infra.Script.{World}
use asterion_one.Infra.BadSignature.{about, is_about}
use asterion_one.Infra.Rules.{IsUnexecuted, is_hit}

pub count_status-IsUnexecuted :
    (rows : List Json) (n : ℕ)
    → count_status "EXECUTED" rows ≡ some n
    → n ≡ 0
    → All IsUnexecuted rows
count_status-IsUnexecuted [] n e z = tt
count_status-IsUnexecuted (row ∷ rows) n e z = elim (Option-cases (item "status" row)) [
  | inl missing ↦ absurd (ground (arith, e, missing))
  | inr (v, found) ↦ elim (Option-cases (count_status "EXECUTED" rows)) [
    | inl raises ↦ absurd (ground (arith, e, found, raises))
    | inr (m, counted) ↦ (
      (v, found, ground (arith, e, z, found, counted)),
      count_status-IsUnexecuted rows m counted (ground (arith, e, z, found, counted)),
    )
  ]
]

module _ (w : World) where
  pub length-about :
      (plan_id : String) (es kinds : List Json)
      → about w plan_id es ≡ some kinds
      → length (keep (is_hit w plan_id) es) ≡ length kinds
  length-about plan_id [] kinds h = ground (arith, h)
  length-about plan_id (e ∷ es) kinds h = elim (Option-cases (is_about w plan_id e)) [
    | inl bad ↦ absurd (ground (arith, h, bad))
    | inr (hit, seen) ↦ elim (Option-cases (about w plan_id es)) [
      | inl raises ↦ absurd (ground (arith, h, seen, raises))
      | inr (rest, listed) ↦ elim (Bool-cases hit) [
        | inr miss ↦ ground (arith, h, seen, listed, miss, length-about plan_id es rest listed)
        | inl counts ↦ elim (Option-cases (item "event_type" e)) [
          | inl untyped ↦ absurd (ground (arith, h, seen, listed, counts, untyped))
          | inr (kind, typed) ↦
              ground (arith, h, seen, listed, counts, typed, length-about plan_id es rest listed)
        ]
      ]
    ]
  ]
