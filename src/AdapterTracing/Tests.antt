-- ===== src/AdapterTracing/Tests.antt =====
-- Runs that follow the unit tests of src/adapter_tracing.rs and tests/tracing_log_bridge.rs, and the
-- theorems at concrete values. A JSON value is its text here.
use ecapplog_rust.Base.{
  ℕ, suc, Bool, true, false, List, [], ◌∷◌, ◌++◌, Option, none, some, or_else, ◌≡◌, refl, leb, ◌==◌,
  is_nil, if◌then◌else◌, ==_refl, ==_iff,
}
use ecapplog_rust.Base.Int.{ℤ, pos, negsuc}
use ecapplog_rust.Base.Text.{Text, codes, text_eq, decimal, starts_with}
use ecapplog_rust.Priority.{as_str, is_error, is_error_or_warning}
use ecapplog_rust.Crates.{Filters, Json, Registry}
use ecapplog_rust.AdapterLog
use ecapplog_rust.AdapterLog.{LogRecord}
use ecapplog_rust.AdapterTracing.{
  Level, error, warn, info, debug, trace, Metadata, category_for, priority_for, Visit, str,
  debug_rendered, u64, Span, visitor, visit, record_all, span_values,
}
use ecapplog_rust.AdapterTracing.Layer.{
  TracingLayer, build_layer, default_layer, source_of, event_visitor, entry_for,
}
use ecapplog_rust.AdapterTracing.Visits.{latest, field_of, message_of, record_all-latest}
use ecapplog_rust.AdapterTracing.Sources.{at_value, fields_value, spans_value, get-source_of}
use ecapplog_rust.AdapterTracing.Spans.{
  Call, opens, records, run, recorded_on, opening, run-opens-recorded,
}
use ecapplog_rust.AdapterTracing.Bridge.{
  recovered, bridged_event, without_source, as_value, entry_for-Bridged,
}

abbrev pub Members : Type 0
Members = List (Text × Text)

abbrev pub find : Text → Members → Option Text
find j [] = none
find j ((k, v) ∷ m) = if text_eq k j then some v else find j m

abbrev pub quoted : Text → Text
quoted s = b'"' ∷ (s ++ b'"' ∷ [])

abbrev pub members_text : Members → Text
members_text [] = []
members_text ((k, v) ∷ m) = quoted k ++ b':' ∷ (v ++ b',' ∷ members_text m)

abbrev pub array_text : List Text → Text
array_text [] = []
array_text (v ∷ vs) = v ++ b',' ∷ array_text vs

abbrev pub number_text : ℤ → Text
unfolding decimal
number_text (pos n) = decimal n
number_text (negsuc n) = b'-' ∷ decimal (suc n)

-- A newer member hides an older one. A number that is no `f64` is 0 here.
abbrev pub json : Json
json = record {
  Value = Text;
  Map = Members;
  Float = ℕ;
  string = quoted;
  object = λ m. b'{' ∷ (members_text m ++ b'}' ∷ []);
  array = λ vs. b'[' ∷ (array_text vs ++ b']' ∷ []);
  bool = λ b. if b then codes "true" else codes "false";
  from_i64 = number_text;
  from_u64 = λ n. number_text (pos n);
  from_f64 = λ n. if n == 0 then none else some (number_text (pos n));
  float_to_string = λ n. codes "NaN";
  to_string = λ v. some v;
  new = [];
  insert = λ k v m. (k, v) ∷ m;
  get = find;
  is_empty = is_nil;
  get-new = λ k. refl;
  get-insert = λ k j v m. refl;
  is_empty-new = refl;
  is_empty-insert = λ k v m. refl;
}

pub record Memory : Type 0 where
  pub is_known : ℕ → Bool
  pub members : ℕ → Option Members

abbrev pub keep : Memory → ℕ → Members → Memory
keep s i m = record s { members = λ j. if i == j then some m else s.members j }

abbrev pub registry : Registry Members
registry = record {
  Store = Memory;
  SpanId = ℕ;
  same = ◌==◌;
  known = λ s i. s.is_known i;
  extension = λ s i. s.members i;
  set_extension = keep;
  same_refl = ==_refl;
  same→eq = λ i j h. (==_iff i j).0 h;
  known-set_extension = λ s i j m. refl;
  extension-set_extension = λ s i j m h. refl;
}

abbrev pub rank : Level → ℕ
rank error = 1
rank warn = 2
rank info = 3
rank debug = 4
rank trace = 5

pub rank-within : (l : Level) → leb (rank l) 5 ≡ true
rank-within error = refl
rank-within warn = refl
rank-within info = refl
rank-within debug = refl
rank-within trace = refl

abbrev pub ranks : Filters Level
ranks = record {
  LevelFilter = ℕ;
  within = λ l f. leb (rank l) f;
  trace = 5;
  within-trace = rank-within;
}

abbrev layer : TracingLayer ranks
unfolding build_layer
layer = (build_layer ranks (default_layer ranks)).1

level_mapping_uses_the_protocol_spelling :
    (as_str (priority_for trace) ≡ codes "TRACE")
    × (as_str (priority_for info) ≡ codes "INFORMATION")
    × (is_error (priority_for error) ≡ true)
    × (is_error_or_warning (priority_for warn) ≡ true)
    × (is_error_or_warning (priority_for info) ≡ false)
unfolding as_str priority_for is_error is_error_or_warning
level_mapping_uses_the_protocol_spelling = (refl, refl, refl, refl, refl)

abbrev values : List (Text × Visit json)
values = (codes "message", str (codes "hello")) ∷ (codes "count", u64 7) ∷ []

the_visitor_separates_the_message_from_the_fields :
    let v = record_all json (visitor json [] false) values in
    (v.message ≡ some (codes "hello"))
    × (find (codes "count") v.fields ≡ some (codes "7"))
    × (find (codes "message") v.fields ≡ none)
unfolding record_all visit decimal text_eq
the_visitor_separates_the_message_from_the_fields = (refl, refl, refl)

record_all-latest_example :
    let u = record_all json (visitor json [] false) values in
    (find (codes "count") u.fields
      ≡ or_else (latest (field_of json false (codes "count")) values) (find (codes "count") []))
    × (u.message ≡ or_else (latest (message_of json) values) none)
record_all-latest_example = record_all-latest json (visitor json [] false) values (codes "count")

abbrev pub place : Metadata
place = record {
  target = codes "db";
  level = info;
  module_path = some (codes "db::pool");
  file = some (codes "main.rs");
  line = some 12;
}

abbrev pub empty : Memory
empty = record { is_known = λ i. leb i 3; members = λ i. none }

abbrev scope : Option (List (Span json ℕ))
scope = some (record { id = 1; name = codes "request" } ∷ [])

get-source_of_example :
    find (codes "fields") (source_of ranks json registry layer place [] scope empty) ≡ (
      if text_eq (codes "at") (codes "fields")
      then at_value json true (some (codes "main.rs")) (some 12)
      else if text_eq (codes "fields") (codes "fields")
      then fields_value json []
      else if text_eq (codes "spans") (codes "fields")
      then spans_value json (if true then span_values json registry empty scope else [])
      else none)
unfolding layer build_layer
get-source_of_example =
    get-source_of ranks json registry layer place [] scope empty (codes "fields")

abbrev calls : List (Call json ℕ)
calls = records 1 ((codes "count", u64 8) ∷ []) ∷ opens 2 values ∷ records 2 values ∷ []

run-opens-recorded_example :
    (m : Members) × ((run json registry ranks layer (opens 1 values ∷ calls) empty).members 1
      ≡ some m)
    × (find (codes "count") m
        ≡ or_else
            (latest (field_of json false (codes "count")) (recorded_on json registry 1 calls))
            (opening json (codes "count") values))
unfolding layer build_layer
run-opens-recorded_example =
    run-opens-recorded json registry ranks layer 1 values calls empty (codes "count") refl refl
      (tt, (refl, (tt, tt)))

abbrev event : LogRecord
event = record {
  target = codes "db";
  level = AdapterLog.warn;
  args = codes "hello";
  file = some (codes "main.rs");
  line = some 12;
  module_path = some (codes "db::pool");
}

abbrev bridged : List (Text × Visit json)
bridged =
    (codes "message", debug_rendered (codes "hello"))
    ∷ (codes "log.target", str (codes "db"))
    ∷ (codes "log.line", u64 12)
    ∷ []

entry_for-Bridged_example :
    let entry =
      entry_for ranks json registry layer
        (pos 0)
        empty
        (bridged_event json ℕ place event bridged scope) in
    let object =
      source_of ranks json registry layer
        (recovered event)
        (event_visitor ranks json registry (bridged_event json ℕ place event bridged scope)).fields
        scope
        empty in
    (without_source entry ≡ without_source (AdapterLog.entry_for AdapterLog.target (pos 0) event))
    × (find (codes "at") object
        ≡ as_value json true event.file (AdapterLog.entry_for AdapterLog.target (pos 0) event))
    × (find (codes "fields") object ≡ none)
unfolding text_eq starts_with category_for AdapterLog.category_for layer build_layer
entry_for-Bridged_example =
    entry_for-Bridged ranks json registry layer AdapterLog.target (pos 0) event empty place bridged
      scope refl (refl, (refl, (refl, tt))) refl
