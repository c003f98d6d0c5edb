-- ===== src/Crates.antt =====
-- What the adapters use of other crates, as interfaces: operations with the laws that are documented
-- of them.
use ecapplog_rust.Base.{ℕ, Bool, true, false, List, Option, none, some, ◌≡◌, if◌then◌else◌}
use ecapplog_rust.Base.Int.{ℤ}
use ecapplog_rust.Base.Text.{Text, text_eq}

-- The `LevelFilter` of `log` or of `tracing_core`, `level <= filter`, and the filter that lets every
-- level pass.
pub record Filters (Level : Type 0) : Type 1 where
  pub LevelFilter : Type 0
  pub within : Level → LevelFilter → Bool
  pub trace : LevelFilter
  pub within-trace : (l : Level) → within l trace ≡ true

-- The facade of the `log` crate: a logger is installed at most once, and the global filter is a
-- setting beside it. A failed installation leaves the facade as it is.
pub record Facade (Logger LevelFilter : Type 0) : Type 1 where
  pub State : Type 0
  pub installed : State → Option Logger
  pub global_level : State → LevelFilter
  pub set_boxed_logger : Logger → State → Option State
  pub set_max_level : LevelFilter → State → State
  pub first :
      (l : Logger) (s : State)
      → installed s ≡ none
      → (t : State) × (set_boxed_logger l s ≡ some t) × (installed t ≡ some l)
  pub later : (l k : Logger) (s : State) → installed s ≡ some k → set_boxed_logger l s ≡ none
  pub installed-set_max_level :
      (f : LevelFilter) (s : State) → installed (set_max_level f s) ≡ installed s
  pub global_level-set_max_level :
      (f : LevelFilter) (s : State) → global_level (set_max_level f s) ≡ f

-- `serde_json`: its `Value`, its `Map` from texts to values, and its writer, which may fail. An `f64`
-- is a number of the map's values unless it is NaN or infinite.
pub record Json : Type 1 where
  pub Value : Type 0
  pub Map : Type 0
  pub Float : Type 0
  pub string : Text → Value
  pub object : Map → Value
  pub array : List Value → Value
  pub bool : Bool → Value
  pub from_i64 : ℤ → Value
  pub from_u64 : ℕ → Value
  pub from_f64 : Float → Option Value
  pub float_to_string : Float → Text
  pub to_string : Value → Option Text
  pub new : Map
  pub insert : Text → Value → Map → Map
  pub get : Text → Map → Option Value
  pub is_empty : Map → Bool
  pub get-new : (k : Text) → get k new ≡ none
  pub get-insert :
      (k j : Text) (v : Value) (m : Map)
      → get j (insert k v m) ≡ (if text_eq k j then some v else get j m)
  pub is_empty-new : is_empty new ≡ true
  pub is_empty-insert : (k : Text) (v : Value) (m : Map) → is_empty (insert k v m) ≡ false

-- `tracing_subscriber::registry`: the spans that it knows, and the map that the layer keeps in a
-- span's extensions. A span is known by its id.
pub record Registry (Map : Type 0) : Type 1 where
  pub Store : Type 0
  pub SpanId : Type 0
  pub same : SpanId → SpanId → Bool
  pub known : Store → SpanId → Bool
  pub extension : Store → SpanId → Option Map
  pub set_extension : Store → SpanId → Map → Store
  pub same_refl : (i : SpanId) → same i i ≡ true
  pub same→eq : (i j : SpanId) → same i j ≡ true → i ≡ j
  pub known-set_extension :
      (s : Store) (i j : SpanId) (m : Map) → known (set_extension s i m) j ≡ known s j
  pub extension-set_extension :
      (s : Store) (i j : SpanId) (m : Map)
      → known s i ≡ true
      → extension (set_extension s i m) j ≡ (if same i j then some m else extension s j)

-- `serde_json` as the mock server uses it: `from_slice`, `get(k)` with `as_str`, `get(k)` as it is
-- displayed, and the display of an array of texts. The error of `from_slice` is known by its text.
pub data Parsed (Value : Type 0) : Type 0 where
  parsed : Value → Parsed Value
  malformed : Text → Parsed Value

pub record JsonReader : Type 1 where
  pub Value : Type 0
  pub from_slice : Text → Parsed Value
  pub get_str : Text → Value → Option Text
  pub get_display : Text → Value → Option Text
  pub array_display : List Text → Text
