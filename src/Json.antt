-- ===== src/Json.antt =====
-- The `Dict[str, Any]` values of the flight segment, as `json.dumps` and `json.loads` carry them:
-- messages, payloads, command plans and audit metadata. Integers are natural numbers; any other
-- number is kept by its literal text.
use asterion_one.Base.{ℕ, String, Bool, Option, none, some, List, [], ◌∷◌, str_eq, if◌then◌else◌}

mutual
  pub data Json : Type 0 where
    null : Json
    flag : Bool → Json
    num : ℕ → Json
    decimal : String → Json
    text : String → Json
    arr : Items → Json
    obj : Fields → Json

  pub data Items : Type 0 where
    nil : Items
    cons : Json → Items → Items

  pub data Fields : Type 0 where
    end : Fields
    field : String → Json → Fields → Fields

-- `d.get(k)`
abbrev pub get : String → Fields → Option Json
get k end = none
get k (field j v d) = if str_eq j k then some v else get k d

-- `d.get(k, default)`
abbrev pub get_or : String → Json → Fields → Json
get_or k other d = elim (get k d) [ none ↦ other | some v ↦ v ]

-- `for x in a`
abbrev pub elements : Items → List Json
elements nil = []
elements (cons x xs) = x ∷ elements xs
