-- ===== src/Priority/Tests.antt =====
-- Runs that follow the unit tests of src/priority.rs, and the theorems at such inputs.
use ecapplog_rust.Base.{◌≡◌, ◌↔◌, refl, [], ◌∷◌, map, true, false, not, ◌&&◌}
use ecapplog_rust.Base.Text.{codes, text_eq, to_ascii_uppercase}
use ecapplog_rust.Priority.{
  notice, warning, error, custom, all, as_str, is_error, is_error_or_warning, from_str,
}
use ecapplog_rust.Priority.Wire.{
  Denotes, error_text, warning_text, is_custom, from_str_iff, is_error-on_wire,
}

wire_names_match_the_server_constants :
    map as_str all
    ≡ codes "TRACE"
      ∷ codes "DEBUG"
      ∷ codes "INFORMATION"
      ∷ codes "NOTICE"
      ∷ codes "WARNING"
      ∷ codes "FATAL"
      ∷ codes "CRITICAL"
      ∷ codes "ERROR"
      ∷ []
unfolding as_str
wire_names_match_the_server_constants = refl

classification :
    (is_error_or_warning warning ≡ true)
    × (is_error warning ≡ false)
    × (is_error_or_warning (custom (codes "SEVERE")) ≡ false)
    × (from_str (codes "error") ≡ error)
    × (from_str (codes "Info") ≡ custom (codes "Info"))
unfolding is_error_or_warning from_str text_eq to_ascii_uppercase
classification = (refl, refl, refl, refl, refl)

from_str_iff_example : (from_str (codes "Notice") ≡ notice) ↔ Denotes (codes "Notice") notice
from_str_iff_example = from_str_iff (codes "Notice") notice

is_error-on_wire_example :
    (is_error (custom (codes "ERROR"))
      ≡ (error_text (as_str (custom (codes "ERROR"))) && not (is_custom (custom (codes "ERROR")))))
    × (is_error_or_warning (custom (codes "ERROR")) ≡ (
        warning_text (as_str (custom (codes "ERROR"))) && not (is_custom (custom (codes "ERROR")))))
is_error-on_wire_example = is_error-on_wire (custom (codes "ERROR"))
