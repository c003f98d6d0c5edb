-- ===== src/AdapterTracing/Visits.antt =====
-- src/adapter_tracing.rs: `JsonVisitor`, against what each recorded value should leave.
use ecapplog_rust.Base.{
  Bool, true, false, not, ◌&&◌, List, [], ◌∷◌, ◌++◌, Option, none, some, or_else, or_else-none,
  or_else_assoc, ◌≡◌, refl, ap, ap₂, ◌∙◌, sym, arith, Option-cases, inl, inr, if◌then◌else◌,
}
use ecapplog_rust.Base.Text.{Text, codes, text_eq, starts_with, decimal}
use ecapplog_rust.Crates.{Json}
use ecapplog_rust.AdapterTracing.{
  Visit, str, debug_rendered, error_text, i64, i128, u64, u128, boolean, f64, JsonVisitor, insert,
  record_text, record_f64, visit, record_all, message_key, integer_to_string,
}

-- The last entry of a list of which `f` makes something.
abbrev pub latest {ℓ κ} : {A : Type ℓ} {B : Type κ} → (A → Option B) → List A → Option B
latest f [] = none
latest f (x ∷ xs) = or_else (latest f xs) (f x)

pub latest-append {ℓ κ} :
    {A : Type ℓ} {B : Type κ} (f : A → Option B) (xs ys : List A)
    → latest f (xs ++ ys) ≡ or_else (latest f ys) (latest f xs)
latest-append f [] ys = sym (or_else-none (latest f ys))
latest-append f (x ∷ xs) ys =
    ap (λ o. or_else o (f x)) (latest-append f xs ys)
    ∙ sym (or_else_assoc (latest f ys) (latest f xs) (f x))

module _ (js : Json) where
  -- The JSON of a recorded value.
  abbrev pub value_of : Visit js → js.Value
  value_of (str s) = js.string s
  value_of (debug_rendered s) = js.string s
  value_of (error_text s) = js.string s
  value_of (i64 n) = js.from_i64 n
  value_of (i128 n) = js.string (integer_to_string n)
  value_of (u64 n) = js.from_u64 n
  value_of (u128 n) = js.string (decimal n)
  value_of (boolean b) = js.bool b
  value_of (f64 x) = elim (js.from_f64 x) [ some v ↦ v | none ↦ js.string (js.float_to_string x) ]

  -- The text of a value that is recorded as a message.
  abbrev pub text_of : Visit js → Option Text
  text_of (str s) = some s
  text_of (debug_rendered s) = some s
  text_of _ = none

  abbrev pub message_of : Text × Visit js → Option Text
  message_of (name, x) = if text_eq name message_key then text_of x else none

  abbrev pub is_some : Option Text → Bool
  is_some none = false
  is_some (some s) = true

  -- What a recorded value leaves under the key `k`: itself under its own name, unless it is the
  -- message or is dropped.
  abbrev pub field_of : Bool → Text → Text × Visit js → Option js.Value
  field_of skip k (name, x) =
      if text_eq name k
        && not (skip && starts_with (codes "log.") name)
        && not (is_some (message_of (name, x)))
      then some (value_of x)
      else none

  -- A visitor after a value with the key's field, the message and the flag as they should be.
  record Left (v u : JsonVisitor js) (k : Text) (field : Option js.Value) (message : Option Text)
      : Type 0 where
    pub field_is : js.get k u.fields ≡ or_else field (js.get k v.fields)
    pub message_is : u.message ≡ or_else message v.message
    pub skip_is : u.skip_log_fields ≡ v.skip_log_fields

  insert-Left :
      (v : JsonVisitor js) (k name : Text) (value : js.Value)
      → Left v
          (insert js v name value)
          k
          (if text_eq name k && not (v.skip_log_fields && starts_with (codes "log.") name)
            then some value
            else none)
          none
  unfolding insert
  insert-Left v k name value = ground (arith, js.get-insert name k value v.fields)

  pub record_f64-insert :
      (v : JsonVisitor js) (name : Text) (x : js.Float)
      → record_f64 js v name x ≡ insert js v name (value_of (f64 x))
  unfolding record_f64
  record_f64-insert v name x = elim (Option-cases (js.from_f64 x)) [
    | inl h ↦ rw (h, record_f64, value_of) refl
    | inr (n, h) ↦ rw (h, record_f64, value_of) refl
  ]

  visit-Left :
      (v : JsonVisitor js) (k name : Text) (x : Visit js)
      → Left v (visit js v name x) k (field_of v.skip_log_fields k (name, x)) (message_of (name, x))
  unfolding visit record_text record_f64
  visit-Left v k name (str s) = ground (arith, insert-Left v k name (js.string s))
  visit-Left v k name (debug_rendered s) = ground (arith, insert-Left v k name (js.string s))
  visit-Left v k name (f64 x) =
      ground (arith, record_f64-insert v name x, insert-Left v k name (value_of (f64 x)))
  visit-Left v k name x = ground (arith, insert-Left v k name (value_of x))

  -- Under each name the fields have the last value recorded under it, or what they had before, and
  -- the message is the last text or rendering recorded under `message`, or the one before. Where the
  -- visitor drops the bridge's fields, values under names that begin with `log.` are passed over.
  pub record_all-latest :
      (v : JsonVisitor js) (xs : List (Text × Visit js)) (k : Text)
      → (js.get k (record_all js v xs).fields
          ≡ or_else (latest (field_of v.skip_log_fields k) xs) (js.get k v.fields))
        × ((record_all js v xs).message ≡ or_else (latest message_of xs) v.message)
  unfolding record_all
  record_all-latest v [] k = (refl, refl)
  record_all-latest v ((name, x) ∷ xs) k =
      let l = visit-Left v k name x in
      let (f, m) = record_all-latest (visit js v name x) xs k in
      (
        f
            ∙ ap₂ or_else (ap (λ b. latest (field_of b k) xs) l.skip_is) l.field_is
            ∙ or_else_assoc (latest (field_of v.skip_log_fields k) xs)
                (field_of v.skip_log_fields k (name, x)) (js.get k v.fields),
        m
            ∙ ap (or_else (latest message_of xs)) l.message_is
            ∙ or_else_assoc (latest message_of xs) (message_of (name, x)) v.message,
      )
