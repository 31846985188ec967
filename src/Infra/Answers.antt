-- ===== src/Infra/Answers.antt =====
-- infra/fault_injector_bad_sig.py: what the script reads out of the ground API's answers. `none` is an
-- exception.
use asterion_one.Base.{
  ℕ, ◌+◌, ◌==◌, Bool, true, false, not, Option, none, some, List, [], ◌∷◌, String, str_eq,
  if◌then◌else◌,
}
use asterion_one.Base.Partial.{◌>>=◌}
use asterion_one.Json.{
  Json, obj, arr, text, num, decimal, flag, null, field, end, nil, cons, get, elements,
}

-- `d[k]`
abbrev pub item : String → Json → Option Json
item k (obj d) = get k d
item k _ = none

-- `d.get(k, other)`
abbrev pub item_or : String → Json → Json → Option Json
item_or k other (obj d) = some (elim (get k d) [ none ↦ other | some v ↦ v ])
item_or k other _ = none

-- A text, or an exception where it is used as one.
abbrev pub as_text : Json → Option String
as_text (text t) = some t
as_text _ = none

-- What a `for` loop goes over: the elements of a list. An empty object or text has none; over any
-- other value the loops here raise.
abbrev pub as_list : Json → Option (List Json)
as_list (arr a) = some (elements a)
as_list (obj end) = some []
as_list (text t) = if str_eq t "" then some [] else none
as_list _ = none

-- Whether `len(v)` returns.
abbrev pub has_length : Json → Bool
has_length (arr a) = true
has_length (obj d) = true
has_length (text t) = true
has_length _ = false

-- `resp["data"]["id"]`, of which the first eight characters are taken
abbrev pub id_of : Json → Option String
id_of resp = (item "data" resp >>= item "id") >>= as_text

-- Whether a value counts as true.
abbrev pub is_true : Json → Bool
is_true null = false
is_true (flag b) = b
is_true (num n) = not (n == 0)
is_true (decimal t) = not (str_eq t "0.0")
is_true (text t) = not (str_eq t "")
is_true (arr nil) = false
is_true (arr (cons x xs)) = true
is_true (obj end) = false
is_true (obj (field k v d)) = true

abbrev pub is_text : String → Json → Bool
is_text t (text u) = str_eq t u
is_text t _ = false

-- `sum(1 for c in commands if c["status"] == status)`
abbrev pub count_status : String → List Json → Option ℕ
count_status status [] = some 0
count_status status (c ∷ cs) = item "status" c >>= λ v.
    count_status status cs >>= λ n. some (if is_text status v then n + 1 else n)

-- `resp.get("data", []) if status == 200 else []`
abbrev pub listed : Json × ℕ → Option (List Json)
listed (resp, status) =
    if status == 200 then (item_or "data" (arr nil) resp >>= as_list) else some []

-- `resp.get("data", {}).get("chain_valid", False)` of an answer with status 200
abbrev pub chain_of : Json × ℕ → Option Bool
chain_of (resp, status) =
    if status == 200
    then (item_or "data" (obj end) resp >>= λ d.
        item_or "chain_valid" (flag false) d >>= λ v. some (is_true v))
    else some false
