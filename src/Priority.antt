-- ===== src/Priority.antt =====
-- src/priority.rs: the priorities, their wire names, their classification and their parser.
pub mod Wire
mod Tests
use ecapplog_rust.Base.{Bool, true, false, ◌||◌, List, [], ◌∷◌, if◌then◌else◌}
use ecapplog_rust.Base.Text.{Text, codes, text_eq, to_ascii_uppercase}

pub data Priority : Type 0 where
  trace debug information notice warning fatal critical error : Priority
  custom : Text → Priority

unfoldable pub as_str : Priority → Text
as_str trace = codes "TRACE"
as_str debug = codes "DEBUG"
as_str information = codes "INFORMATION"
as_str notice = codes "NOTICE"
as_str warning = codes "WARNING"
as_str fatal = codes "FATAL"
as_str critical = codes "CRITICAL"
as_str error = codes "ERROR"
as_str (custom s) = s

unfoldable pub is_error : Priority → Bool
is_error fatal = true
is_error critical = true
is_error error = true
is_error _ = false

is_warning : Priority → Bool
is_warning warning = true
is_warning _ = false

unfoldable pub is_error_or_warning : Priority → Bool
unfolding is_error is_warning
is_error_or_warning p = is_error p || is_warning p

-- `Priority::ALL`.
abbrev pub all : List Priority
all = trace ∷ debug ∷ information ∷ notice ∷ warning ∷ fatal ∷ critical ∷ error ∷ []

-- The `match` on the upper-cased text; `s` is the text as it was given.
abbrev named_or_custom : Text → Text → Priority
named_or_custom u s =
    if text_eq u (codes "TRACE")
    then trace
    else if text_eq u (codes "DEBUG")
    then debug
    else if text_eq u (codes "INFORMATION")
    then information
    else if text_eq u (codes "NOTICE")
    then notice
    else if text_eq u (codes "WARNING")
    then warning
    else if text_eq u (codes "FATAL")
    then fatal
    else if text_eq u (codes "CRITICAL")
    then critical
    else if text_eq u (codes "ERROR")
    then error
    else custom s

unfoldable pub from_str : Text → Priority
from_str s = named_or_custom (to_ascii_uppercase s) s
