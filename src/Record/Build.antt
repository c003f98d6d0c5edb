-- ===== src/Record/Build.antt =====
-- src/record.rs: chains of builder calls.
use ecapplog_rust.Base.{List, [], ◌∷◌, ◌≡◌, append-nil, append_assoc}
use ecapplog_rust.Base.Text.{Text}
use ecapplog_rust.Record.{Record, extra_category, extra_categories}

abbrev add_each : List Text → Record → Record
add_each [] r = r
add_each (c ∷ cs) r = add_each cs (extra_category c r)

-- Adding categories in one call is the same as adding them one at a time, in order.
pub extra_categories-add_each :
    (cs : List Text) (r : Record) → extra_categories cs r ≡ add_each cs r
unfolding extra_category extra_categories
extra_categories-add_each [] r = rw append-nil
extra_categories-add_each (c ∷ cs) r =
    rw (← extra_categories-add_each cs (extra_category c r)) (simp append_assoc)
