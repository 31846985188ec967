-- ===== src/Settings/Environment.antt =====
-- flight/config.py: what `from_env` makes of an environment.
use asterion_one.Base.{
  ◌≡◌, refl, ap, Option, none, some, [], ◌∷◌, String, ◌<>◌, str_eq, eq_iff, Bool-cases,
  Option-cases, inl, inr,
}
use mathlib.Core.Option
use asterion_one.Base.Assoc.{Assoc, lookup}
use asterion_one.Floats.{Floats}
use asterion_one.Settings.{
  Conversions, Value, flag, int, float, text, defaults, read_as, field_from, from_fields, from_env,
}

pub data Kind : Type 0 where
  a_flag an_int a_float a_text : Kind

abbrev pub kind_of : {F I : Type 0} → Value F I → Kind
kind_of (flag b) = a_flag
kind_of (int n) = an_int
kind_of (float x) = a_float
kind_of (text t) = a_text

-- The names of the fields, with their types.
abbrev pub signature : {F I : Type 0} → Assoc (Value F I) → Assoc Kind
signature [] = []
signature ((name, v) ∷ fields) = (name, kind_of v) ∷ signature fields

module _ (fl : Floats) (cv : Conversions fl.Float) where
  open fl use {Float}
  open cv use {Int}

  field_from-kind_of :
      (t : Option String) (v : Value Float Int) → kind_of (field_from fl cv t v) ≡ kind_of v
  unfolding field_from read_as
  field_from-kind_of none v = refl
  field_from-kind_of (some t) (flag b) = refl
  field_from-kind_of (some t) (int n) = elim (Option-cases (cv.int_of t)) [
    | inl e ↦ rw e
    | inr (m, e) ↦ rw e
  ]
  field_from-kind_of (some t) (float x) = elim (Option-cases (cv.float_of t)) [
    | inl e ↦ rw e
    | inr (y, e) ↦ rw e
  ]
  field_from-kind_of (some t) (text s) = refl

  from_fields-signature :
      (env : String → Option String) (fields : Assoc (Value Float Int))
      → signature (from_fields fl cv env fields) ≡ signature fields
  unfolding from_fields
  from_fields-signature env [] = refl
  from_fields-signature env ((name, v) ∷ fields) =
      rw (field_from-kind_of (env ("ASTERION_" <> name)) v, from_fields-signature env fields)

  from_fields-lookup :
      (env : String → Option String) (name : String) (fields : Assoc (Value Float Int))
      → lookup name (from_fields fl cv env fields)
        ≡ Option.map (field_from fl cv (env ("ASTERION_" <> name))) (lookup name fields)
  unfolding from_fields
  from_fields-lookup env name [] = refl
  from_fields-lookup env name ((n, v) ∷ fields) = elim (Bool-cases (str_eq n name)) [
    | inl same ↦ rw same (
        ap some (
          ap (λ (m : String). field_from fl cv (env ("ASTERION_" <> m)) v)
            ((eq_iff n name).0 same)))
    | inr other ↦ rw other (from_fields-lookup env name fields)
  ]

  -- Whatever the environment holds, the configuration has the fields of the defaults, each with a value of the
  -- type of its default, and a field whose variable is not set or holds no text of this type keeps its default.
  pub from_env-signature :
      (env : String → Option String)
      → (signature (from_env fl cv env) ≡ signature (defaults fl cv))
        × ((name : String) (v : Value Float Int) (t : String)
            → lookup name (defaults fl cv) ≡ some v
            → env ("ASTERION_" <> name) ≡ some t
            → read_as fl cv v t ≡ none
            → lookup name (from_env fl cv env) ≡ some v)
        × ((name : String) (v : Value Float Int)
            → lookup name (defaults fl cv) ≡ some v
            → env ("ASTERION_" <> name) ≡ none
            → lookup name (from_env fl cv env) ≡ some v)
  unfolding from_env field_from
  from_env-signature env = (
    from_fields-signature env (defaults fl cv),
    λ name v t found set malformed.
        rw (from_fields-lookup env name (defaults fl cv), found, set) (rw malformed),
    λ name v found unset. rw (from_fields-lookup env name (defaults fl cv), found, unset),
  )
