-- ===== src/Server/Printing/Shown.antt =====
-- src/proto.rs against examples/mock_server.rs: the lines that are printed for an entry that was sent.
use ecapplog_rust.Base.{
  true, List, [], ◌∷◌, ◌++◌, Option, none, some, is_nil, if◌then◌else◌, ◌≡◌, refl, ap, ap₂, ◌∙◌,
  subst, arith,
}
use ecapplog_rust.Base.Text.{Text, codes}
use ecapplog_rust.Priority.{as_str}
use ecapplog_rust.Record.{Record}
use ecapplog_rust.Timestamp.{format_utc}
use ecapplog_rust.Timestamp.Layout.{plausible, IsPrintable, read_clock-format_utc}
use ecapplog_rust.Crates.{JsonReader, parsed}
use ecapplog_rust.Proto.{Value, string, strings, Object, fields, from_record}
use ecapplog_rust.Proto.Fields.{lookup, sent, get-fields}
use ecapplog_rust.Proto.Fields
use ecapplog_rust.Server.Printing.{
  unwrap_or_empty, head_line, indent, detail, extra_lines, Printed, lines, get, print_value,
  print_entry,
}

-- A line for a text that is not empty.
abbrev line_of : Text → Text → List Text
line_of key [] = []
line_of key (c ∷ s) = (indent ++ (key ++ (codes ": " ++ c ∷ s))) ∷ []

abbrev line_of_categories : JsonReader → List Text → List Text
line_of_categories jr [] = []
line_of_categories jr (c ∷ cs) =
    (indent ++ (codes "extra_categories: " ++ jr.array_display (c ∷ cs))) ∷ []

-- What should be printed for an entry: its time, priority, category and message in one line, and a
-- line for each of its other parts that is there.
abbrev pub shown : JsonReader → Record → Printed
shown jr r =
    lines
      (format_utc r.time
        ++ (codes " ["
            ++ (as_str r.priority
                ++ (codes "] " ++ (r.category ++ (codes ": " ++ (r.message ++ [])))))))
      (line_of (codes "source") r.source
        ++ (line_of (codes "original_category") r.original_category
            ++ (line_of (codes "color") r.color
                ++ (line_of (codes "bgcolor") r.bg_color
                    ++ line_of_categories jr r.extra_categories))))

abbrev pub str_of : Option Value → Option Text
str_of none = none
str_of (some (string s)) = some s
str_of (some (strings v)) = none

abbrev pub Displays : JsonReader → Option Value → Option Text → Type 0
Displays jr none t = t ≡ none
Displays jr (some (strings v)) t = t ≡ some (jr.array_display v)
Displays jr (some (string s)) t = Unit

-- The reader finds in the payload what the object has under each key.
pub record Reads (jr : JsonReader) (o : Object) (payload : Text) : Type 0 where
  pub value : jr.Value
  pub parsed_is : jr.from_slice payload ≡ parsed value
  pub str_is : (k : Text) → jr.get_str k value ≡ str_of (lookup k o)
  pub display_is : (k : Text) → Displays jr (lookup k o) (jr.get_display k value)

str_of-get : (o : Object) (k : Text) → unwrap_or_empty (str_of (lookup k o)) ≡ Fields.get k o
unfolding Fields.get
str_of-get o k = elim (lookup k o) as (λ v. unwrap_or_empty (str_of v) ≡ Fields.text_or_empty v) [
  | none ↦ refl
  | some (string s) ↦ refl
  | some (strings v) ↦ refl
]

detail-line_of :
    (key value : Text) (rest : List Text) → detail key value rest ≡ line_of key value ++ rest
unfolding detail
detail-line_of key [] rest = refl
detail-line_of key (c ∷ s) rest = refl

detail-eq :
    (key : Text) {v v' : Text}
    → v ≡ v'
    → {rest rest' : List Text} → rest ≡ rest'
    → detail key v rest ≡ line_of key v' ++ rest'
detail-eq key {v} {v'} p {rest} {rest'} q = ap₂ (detail key) p q ∙ detail-line_of key v' rest'

plausible-head :
    (time priority category message : Text)
    → plausible time ≡ true
    → head_line time priority category message
      ≡ time
        ++ (codes " ["
            ++ (priority ++ (codes "] " ++ (category ++ (codes ": " ++ (message ++ []))))))
unfolding head_line
plausible-head time priority category message h = rw h refl

lookup-extra_categories :
    (r : Record)
    → lookup (codes "extra_categories") (sent r)
      ≡ (if is_nil r.extra_categories then none else some (strings r.extra_categories))
unfolding lookup fields from_record
lookup-extra_categories r = ground arith

extra_lines-Displays :
    (jr : JsonReader) (cs : List Text) (t : Option Text)
    → Displays jr (if is_nil cs then none else some (strings cs)) t
    → extra_lines t ≡ line_of_categories jr cs
extra_lines-Displays jr [] t h = rw h refl
extra_lines-Displays jr (c ∷ cs) t h = rw h refl

module _ (jr : JsonReader) (r : Record) (b : Text) (w : Reads jr (sent r) b) where
  get-sent : (k : Text) → get jr w.value k ≡ Fields.get k (sent r)
  get-sent k = ap unwrap_or_empty (w.str_is k) ∙ str_of-get (sent r) k

  extra-sent :
      extra_lines (jr.get_display (codes "extra_categories") w.value)
      ≡ line_of_categories jr r.extra_categories
  extra-sent =
      extra_lines-Displays jr r.extra_categories (jr.get_display (codes "extra_categories") w.value)
        (subst (λ o. Displays jr o (jr.get_display (codes "extra_categories") w.value))
          (lookup-extra_categories r) (w.display_is (codes "extra_categories")))

  head-sent :
      IsPrintable r.time
      → head_line
          (get jr w.value (codes "time"))
          (get jr w.value (codes "priority"))
          (get jr w.value (codes "category"))
          (get jr w.value (codes "message"))
        ≡ format_utc r.time
          ++ (codes " ["
              ++ (as_str r.priority
                  ++ (codes "] " ++ (r.category ++ (codes ": " ++ (r.message ++ []))))))
  head-sent p =
      let g = get-fields r in
      let time = get-sent (codes "time") ∙ g.0 in
      let priority = get-sent (codes "priority") ∙ g.1 in
      let category = get-sent (codes "category") ∙ g.2 in
      let message = get-sent (codes "message") ∙ g.3 in
      (λ i. head_line (time i) (priority i) (category i) (message i))
      ∙ plausible-head (format_utc r.time) (as_str r.priority) r.category r.message
          (read_clock-format_utc r.time p).0

  details-sent :
      detail (codes "source") (get jr w.value (codes "source")) (
        detail (codes "original_category") (get jr w.value (codes "original_category")) (
          detail (codes "color") (get jr w.value (codes "color")) (
            detail
              (codes "bgcolor")
              (get jr w.value (codes "bgcolor"))
              (extra_lines (jr.get_display (codes "extra_categories") w.value)))))
      ≡ line_of (codes "source") r.source
        ++ (line_of (codes "original_category") r.original_category
            ++ (line_of (codes "color") r.color
                ++ (line_of (codes "bgcolor") r.bg_color
                    ++ line_of_categories jr r.extra_categories)))
  details-sent =
      let g = get-fields r in
      detail-eq (codes "source") (get-sent (codes "source") ∙ g.4) (
        detail-eq (codes "original_category") (get-sent (codes "original_category") ∙ g.5) (
          detail-eq (codes "color") (get-sent (codes "color") ∙ g.7)
            (detail-eq (codes "bgcolor") (get-sent (codes "bgcolor") ∙ g.8) extra-sent)))

-- When the server's parser reads back what was written, the server prints the entry's time, priority,
-- category and message in one line with no complaint about the time, and a line for each other part
-- that is there. The time is in the years 0 to 9999, from 0000-03-01 on.
pub print_entry-shown :
    (jr : JsonReader) (r : Record) (b : Text)
    → Reads jr (sent r) b
    → IsPrintable r.time
    → print_entry jr b ≡ shown jr r
unfolding print_entry print_value
print_entry-shown jr r b w p =
    rw (w.parsed_is, print_entry) (ap₂ lines (head-sent jr r b w p) (details-sent jr r b w))
