-- ===== src/Proto/Fields.antt =====
-- src/proto.rs and examples/mock_server.rs: the payload, read by key.
use ecapplog_rust.Base.{
  ◌≡◌, refl, true, List, [], ◌∷◌, Option, none, some, arith, is_nil, if◌then◌else◌,
}
use ecapplog_rust.Base.Text.{Text, codes, text_eq}
use ecapplog_rust.Priority.{as_str}
use ecapplog_rust.Record.{Record}
use ecapplog_rust.Timestamp.{format_utc}
use ecapplog_rust.Proto.{Value, string, strings, Object, fields, from_record}

unfoldable pub lookup : Text → Object → Option Value
unfolding text_eq
lookup k [] = none
lookup k ((j, v) ∷ o) = if text_eq j k then some v else lookup k o

-- The mock server's `get`: a text, or the empty text when the key is missing.
abbrev pub text_or_empty : Option Value → Text
text_or_empty none = []
text_or_empty (some (string s)) = s
text_or_empty (some (strings v)) = []

unfoldable pub get : Text → Object → Text
unfolding lookup
get k o = text_or_empty (lookup k o)

abbrev list_or_empty : Option Value → List Text
list_or_empty none = []
list_or_empty (some (string s)) = []
list_or_empty (some (strings v)) = v

unfoldable pub get_list : Text → Object → List Text
unfolding lookup
get_list k o = list_or_empty (lookup k o)

abbrev pub sent : Record → Object
sent r = fields (from_record r)

is_nil→eq {ℓ} : {A : Type ℓ} (xs : List A) → is_nil xs ≡ true → xs ≡ []
is_nil→eq [] h = refl
is_nil→eq (x ∷ xs) h = cc

-- Read by key with a default, the payload of an entry gives each of its fields.
pub get-fields :
    (r : Record)
    → (get (codes "time") (sent r) ≡ format_utc r.time)
      × (get (codes "priority") (sent r) ≡ as_str r.priority)
      × (get (codes "category") (sent r) ≡ r.category)
      × (get (codes "message") (sent r) ≡ r.message)
      × (get (codes "source") (sent r) ≡ r.source)
      × (get (codes "original_category") (sent r) ≡ r.original_category)
      × (get_list (codes "extra_categories") (sent r) ≡ r.extra_categories)
      × (get (codes "color") (sent r) ≡ r.color)
      × (get (codes "bgcolor") (sent r) ≡ r.bg_color)
unfolding get get_list fields from_record
get-fields r = (
  refl,
  refl,
  refl,
  refl,
  ground (arith, is_nil→eq r.source),
  ground (arith, is_nil→eq r.original_category),
  ground (arith, is_nil→eq r.extra_categories),
  ground (arith, is_nil→eq r.color),
  ground (arith, is_nil→eq r.bg_color),
)

-- What the object has under the key of a field that may be left out.
abbrev pub text_there : Text → Option Value
text_there [] = none
text_there (c ∷ s) = some (string (c ∷ s))

abbrev pub list_there : List Text → Option Value
list_there [] = none
list_there (c ∷ cs) = some (strings (c ∷ cs))

text_there-is_nil : (s : Text) → (if is_nil s then none else some (string s)) ≡ text_there s
text_there-is_nil [] = refl
text_there-is_nil (c ∷ s) = refl

list_there-is_nil : (v : List Text) → (if is_nil v then none else some (strings v)) ≡ list_there v
list_there-is_nil [] = refl
list_there-is_nil (c ∷ cs) = refl

-- The payload of an entry has its time as formatted, its priority by its wire name, its category and
-- its message always, and its source, original category, extra categories and two colors just where
-- they are not empty, each under its own key.
pub lookup-sent :
    (r : Record)
    → (lookup (codes "time") (sent r) ≡ some (string (format_utc r.time)))
      × (lookup (codes "priority") (sent r) ≡ some (string (as_str r.priority)))
      × (lookup (codes "category") (sent r) ≡ some (string r.category))
      × (lookup (codes "message") (sent r) ≡ some (string r.message))
      × (lookup (codes "source") (sent r) ≡ text_there r.source)
      × (lookup (codes "original_category") (sent r) ≡ text_there r.original_category)
      × (lookup (codes "extra_categories") (sent r) ≡ list_there r.extra_categories)
      × (lookup (codes "color") (sent r) ≡ text_there r.color)
      × (lookup (codes "bgcolor") (sent r) ≡ text_there r.bg_color)
unfolding lookup fields from_record
lookup-sent r = (
  refl,
  refl,
  refl,
  refl,
  ground (arith, text_there-is_nil r.source),
  ground (arith, text_there-is_nil r.original_category),
  ground (arith, list_there-is_nil r.extra_categories),
  ground (arith, text_there-is_nil r.color),
  ground (arith, text_there-is_nil r.bg_color),
)
