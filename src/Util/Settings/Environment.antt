-- ===== src/Util/Settings/Environment.antt =====
-- What the environment does to the configuration, and the configuration to the environment.
use pulsar_beam.Prelude.{
  String, Bool, true, false, Option, none, some, [], ◌∷◌, ◌≡◌, refl, ◌==◌, arith, eq_iff, eq_refl,
  if◌then◌else◌, All, Bool-cases, inl, inr,
}
use pulsar_beam.Prelude.Maps.{Map, lookup, insert, lookup-insert}
use pulsar_beam.Util.Settings.{
  Field, text, Fields, trim_newline, overridden, field_text, read_field, then_field, read_next,
  read_fields,
}

-- No field has the name of a later one.
abbrev pub Distinct : Fields → Type 0
Distinct [] = Unit
Distinct ((name, field) ∷ fields) = All (λ f. (f.0 == name) ≡ false) fields × Distinct fields

abbrev is_absent : String → Fields → Bool
is_absent name [] = true
is_absent name ((other, field) ∷ fields) = if other == name then false else is_absent name fields

abbrev pub is_distinct : Fields → Bool
is_distinct [] = true
is_distinct ((name, field) ∷ fields) = if is_absent name fields then is_distinct fields else false

absent :
    (name : String) (fields : Fields)
    → is_absent name fields ≡ true
    → All (λ f. (f.0 == name) ≡ false) fields
absent name [] h = tt
absent name ((other, field) ∷ fields) h = elim (Bool-cases (other == name)) [
  | inl same ↦ cc (rw same at h)
  | inr differs ↦ (differs, absent name fields (rw differs at h))
]

pub is_distinct-Distinct : (fields : Fields) → is_distinct fields ≡ true → Distinct fields
is_distinct-Distinct [] h = tt
is_distinct-Distinct ((name, field) ∷ fields) h = elim (Bool-cases (is_absent name fields)) [
  | inl new ↦ (absent name fields new, is_distinct-Distinct fields (rw new at h))
  | inr old ↦ cc (rw old at h)
]

-- One round of the loop that does not panic.
record IsRound (name : String) (field : Field) (fields : Fields) (env : Map String) (read : Fields)
    (env' : Map String) : Type 0 where
  value : Field
  rest : Fields
  here : read_field field (lookup name env) ≡ some value
  below : read_fields fields (insert name (field_text value) env) ≡ some (rest, env')
  whole : read ≡ (name, value) ∷ rest

IsRound-below :
    (name : String) (field value : Field) (fields : Fields) (env : Map String)
    (x : Option (Fields × Map String)) (read : Fields) (env' : Map String)
    → read_field field (lookup name env) ≡ some value
    → read_fields fields (insert name (field_text value) env) ≡ x
    → then_field name value x ≡ some (read, env')
    → IsRound name field fields env read env'
IsRound-below name field value fields env none read env' h b t = cc
IsRound-below name field value fields env (some (rest, env'')) read env' h b t =
    let same : env'' ≡ env' = cc in
    record { value = value; rest = rest; here = h; below = rw (← same) b; whole = cc }

IsRound-of :
    (name : String) (field : Field) (fields : Fields) (env : Map String) (x : Option Field)
    (read : Fields) (env' : Map String)
    → read_field field (lookup name env) ≡ x
    → read_next name (λ value. read_fields fields (insert name (field_text value) env)) x
      ≡ some (read, env')
    → IsRound name field fields env read env'
IsRound-of name field fields env none read env' h t = cc
IsRound-of name field fields env (some value) read env' h t =
    IsRound-below name field value fields env
      (read_fields fields (insert name (field_text value) env)) read env' h refl t

round :
    (name : String) (field : Field) (fields : Fields) (env : Map String) (read : Fields)
    (env' : Map String)
    → read_fields ((name, field) ∷ fields) env ≡ some (read, env')
    → IsRound name field fields env read env'
unfolding read_fields
round name field fields env read env' h =
    IsRound-of name field fields env (read_field field (lookup name env)) read env' refl h

-- A variable that is the name of no field is left alone.
read_fields-others :
    (fields : Fields) (env : Map String) (read : Fields) (env' : Map String) (name : String)
    → All (λ f. (f.0 == name) ≡ false) fields
    → read_fields fields env ≡ some (read, env')
    → lookup name env' ≡ lookup name env
unfolding read_fields
read_fields-others [] env read env' name _ h = cc
read_fields-others ((other, field) ∷ fields) env read env' name (o, os) h =
    let r = round other field fields env read env' h in
    rw
      (
        read_fields-others fields (insert other (field_text r.value) env) r.rest env' name os
            r.below,
        lookup-insert,
        o,
      )
      refl

-- A field that holds a text has, after the reading, the value of the environment without an end of
-- line, if the environment has a variable of its name, and else that of the file; and so has the
-- variable.
pub read_fields-overridden :
    (fields : Fields) (env : Map String) (read : Fields) (env' : Map String) (name v : String)
    → Distinct fields
    → read_fields fields env ≡ some (read, env')
    → lookup name fields ≡ some (text v)
    → (lookup name read ≡ some (text (overridden v (lookup name env))))
      × (lookup name env' ≡ some (overridden v (lookup name env)))
unfolding lookup field_text
read_fields-overridden [] env read env' name v _ h l = cc
read_fields-overridden ((other, field) ∷ fields) env read env' name v (o, os) h l =
    let r = round other field fields env read env' h in
    elim (Bool-cases (other == name)) [
      | inl same ↦
          let e : other ≡ name = ground (arith, eq_iff other name) in
          let held : field ≡ text v = cc (rw same at l) in
          let value : r.value ≡ text (overridden v (lookup name env)) =
            cc (rw (held, e) at r.here) in
          let kept =
            read_fields-others fields (insert other (field_text r.value) env) r.rest env' other o
              r.below in
          (rw (r.whole, same, value) refl, rw (rw e at kept, lookup-insert, eq_refl, value) refl)
      | inr differs ↦
          let (a, b) =
            read_fields-overridden fields (insert other (field_text r.value) env) r.rest env' name v
              os r.below (rw differs at l) in
          let u : lookup name (insert other (field_text r.value) env) ≡ lookup name env =
            rw (lookup-insert, differs) refl in
          (rw (r.whole, differs, ← u) a, rw (← u) b)
    ]

-- The first reading settles the texts: a later one, of any file, leaves a field as it was, unless its
-- value still ends a line.
pub read_fields-settled :
    (fields later : Fields) (env env' env'' : Map String) (read reread : Fields) (name v w : String)
    → Distinct fields
    → Distinct later
    → read_fields fields env ≡ some (read, env')
    → read_fields later env' ≡ some (reread, env'')
    → lookup name fields ≡ some (text v)
    → lookup name later ≡ some (text w)
    → trim_newline (overridden v (lookup name env)) ≡ overridden v (lookup name env)
    → lookup name reread ≡ lookup name read
read_fields-settled fields later env env' env'' read reread name v w df dl h h' l l' t =
    let (a, b) = read_fields-overridden fields env read env' name v df h l in
    rw ((read_fields-overridden later env' reread env'' name w dl h' l').0, b, t, a) refl
