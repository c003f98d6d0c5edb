-- ===== src/Examples/Colors.antt =====
-- examples/colors.rs: its entries. The clock's reading for each entry is an argument.
use ecapplog_rust.Base.{
  ℕ, suc, ◌≡◌, refl, List, [], ◌∷◌, ◌++◌, length, All, if◌then◌else◌, true, arith,
}
use ecapplog_rust.Base.Int.{ℤ}
use ecapplog_rust.Base.Text.{Text, codes}
use ecapplog_rust.Priority.{Priority, all, as_str, is_error_or_warning}
use ecapplog_rust.Record.{Record, new, color, bg_color, source}
use ecapplog_rust.Proto.{Object}
use ecapplog_rust.Client.{ClientBuilder, Serialized}
use ecapplog_rust.Client.Handle.{flush}
use ecapplog_rust.Client.Worker.{Event, run}
use ecapplog_rust.Client.Close.{Sendable}
use ecapplog_rust.Examples.{example_builder, config_of, first_world, IsRunOf, run-written}

abbrev pub builder : ClientBuilder
unfolding example_builder
builder = example_builder (codes "ECALRS-COLORS")

unfoldable in_error_tab : Priority → Text
unfolding is_error_or_warning
in_error_tab p = if is_error_or_warning p then codes " (also in the ERROR tab)" else []

-- The loop over the priorities.
unfoldable pub by_priority : (ℕ → ℤ) → ℕ → List Priority → List Record
unfolding new as_str in_error_tab
by_priority now i [] = []
by_priority now i (p ∷ ps) =
    new (now i) p (codes "priorities") (as_str p ++ in_error_tab p) ∷ by_priority now (suc i) ps

abbrev pub swatches : List (Text × Text × Text)
swatches =
    (codes "#ff5555", [], codes "hex foreground")
    ∷ ([], codes "#f9f9f9", codes "hex background")
    ∷ (codes "#ffffff", codes "#8b0000", codes "both")
    ∷ (codes "steelblue", [], codes "an SVG colour name")
    ∷ (codes "not-a-colour", [], codes "invalid: the server ignores it")
    ∷ []

-- The loop over the swatches.
unfoldable pub by_swatch : (ℕ → ℤ) → ℕ → List (Text × Text × Text) → List Record
unfolding new color bg_color
by_swatch now i [] = []
by_swatch now i ((foreground, background, what) ∷ rest) =
    bg_color background (color foreground (new (now i) Priority.information (codes "colors") what))
    ∷ by_swatch now (suc i) rest

unfoldable pub entries : (ℕ → ℤ) → List Record
unfolding by_priority by_swatch source new
entries now =
    by_priority now 0 all
    ++ (by_swatch now 8 swatches
        ++ source (codes "{\"request_id\":\"abc123\",\"attempt\":2,\"upstream\":\"db-1\"}") (
            new (now 13) Priority.notice (codes "colors")
              (codes "see the Source column and details pane"))
          ∷ [])

-- When the example's flush answers true, its fourteen entries were written in their order.
colors-written :
    (now : ℕ → ℤ) (to_writer : Object → Serialized) (es : List Event)
    → IsRunOf (entries now) es
    → All (Sendable (config_of builder) to_writer) (entries now)
    → flush (run (config_of builder) to_writer (first_world builder) es) ≡ true
    → (length (entries now) ≡ 14)
      × ((run (config_of builder) to_writer (first_world builder) es).written ≡ entries now)
unfolding entries by_priority by_swatch builder example_builder
colors-written now to_writer es r s f =
    (refl, run-written builder to_writer (entries now) es r (omega arith) s f)
