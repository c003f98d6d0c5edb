-- ===== src/Examples/Simple.antt =====
-- examples/simple.rs: its entries and its last line. The clock's reading for each entry is an argument.
use ecapplog_rust.Base.{
  ℕ, zero, suc, ◌+◌, ◌*◌, ◌≡◌, refl, true, List, [], ◌∷◌, ◌++◌, length, All, arith, Bool-cases, inl,
  inr, false, ◌⊎◌,
}
use ecapplog_rust.Base.Int.{ℤ}
use ecapplog_rust.Base.Text.{Text, codes, decimal}
use ecapplog_rust.Priority
use ecapplog_rust.Record.{Record, new, original_category, extra_category}
use ecapplog_rust.Proto.{Object}
use ecapplog_rust.Client.{ClientBuilder, Serialized}
use ecapplog_rust.Client.Handle.{dropped_count, flush}
use ecapplog_rust.Client.Worker.{World, Event, run}
use ecapplog_rust.Client.Close.{Sendable}
use ecapplog_rust.Examples.{
  example_builder, config_of, complaint, flush_lines, IsRunOf, first_world, run-dropped,
  run-written,
}

abbrev pub app : Text
app = codes "app"

-- The entries of one round of the loop.
unfoldable pub round : (ℕ → ℤ) → ℕ → List Record
unfolding new original_category extra_category decimal
round now i =
    original_category (codes "app.internal")
      (new (now (3 * i)) Priority.debug app (codes "First log: " ++ decimal i))
    ∷ new (now (3 * i + 1)) Priority.information app (codes "Second log: " ++ decimal i)
    ∷ extra_category (codes "app_third")
        (new (now (3 * i + 2)) Priority.error app (codes "Third log: " ++ decimal i))
    ∷ []

-- The rounds from `i` on.
unfoldable pub rounds : (ℕ → ℤ) → ℕ → ℕ → List Record
unfolding round
rounds now i zero = []
rounds now i (suc n) = round now i ++ rounds now (suc i) n

unfoldable pub entries : (ℕ → ℤ) → List Record
unfolding rounds
entries now = rounds now 0 30

unfoldable pub last_line : World → Text
unfolding dropped_count decimal
last_line w = codes "sent 90 entries; " ++ (decimal (dropped_count w) ++ codes " dropped")

abbrev pub builder : ClientBuilder
unfolding example_builder
builder = example_builder (codes "ECALRS-SAMPLE")

length-rounds : (now : ℕ → ℤ) (i n : ℕ) → length (rounds now i n) ≡ 3 * n
unfolding rounds round
length-rounds now i zero = refl
length-rounds now i (suc n) = omega (arith, length-rounds now (suc i) n)

last_line-dropped :
    (w : World) → w.queue.dropped ≡ 0 → last_line w ≡ codes "sent 90 entries; 0 dropped"
unfolding last_line dropped_count
last_line-dropped w h = rw (h, decimal) refl

-- The example logs 90 entries, and its last line is the same however the worker fared: 90 sent, none
-- dropped. Either the flush answered true, all 90 were written, in the order of the loop, and nothing
-- is printed about it, or it answered false and the complaint is printed. The entries become JSON
-- within the limit.
pub simple-written :
    (now : ℕ → ℤ) (to_writer : Object → Serialized) (es : List Event)
    → IsRunOf (entries now) es
    → All (Sendable (config_of builder) to_writer) (entries now)
    → let w = run (config_of builder) to_writer (first_world builder) es in
      (length (entries now) ≡ 90)
      × (last_line w ≡ codes "sent 90 entries; 0 dropped")
      × (((flush w ≡ true) × (w.written ≡ entries now) × (flush_lines (flush w) ≡ []))
          ⊎ ((flush w ≡ false) × (flush_lines (flush w) ≡ complaint ∷ [])))
unfolding entries flush_lines builder example_builder
simple-written now to_writer es r s =
    let n = length-rounds now 0 30 in
    let w = run (config_of builder) to_writer (first_world builder) es in
    (
      omega (arith, n),
      last_line-dropped w (run-dropped builder to_writer (entries now) es r (omega (arith, n)) s),
      elim (Bool-cases (flush w)) [
        | inl f ↦
            inl (
              f,
              run-written builder to_writer (entries now) es r (omega (arith, n)) s f,
              rw f refl,
            )
        | inr f ↦ inr (f, rw f refl)
      ],
    )
