-- ===== src/Record.antt =====
-- src/record.rs: a log entry and its builder. `SystemTime` is the signed number of nanoseconds since
-- the epoch, and the clock that `new` reads is an argument.
mod Build
use ecapplog_rust.Base.{List, [], ◌∷◌, ◌++◌}
use ecapplog_rust.Base.Int.{ℤ}
use ecapplog_rust.Base.Text.{Text}
use ecapplog_rust.Priority.{Priority}

pub record Record : Type 0 where
  pub time : ℤ
  pub priority : Priority
  pub category : Text
  pub message : Text
  pub source : Text
  pub original_category : Text
  pub extra_categories : List Text
  pub color : Text
  pub bg_color : Text

unfoldable pub new : ℤ → Priority → Text → Text → Record
new now priority category message = record {
  time = now;
  priority = priority;
  category = category;
  message = message;
  source = [];
  original_category = [];
  extra_categories = [];
  color = [];
  bg_color = [];
}

unfoldable pub at : ℤ → Record → Record
at time r = record r { time = time }

unfoldable pub source : Text → Record → Record
source s r = record r { source = s }

unfoldable pub original_category : Text → Record → Record
original_category c r = record r { original_category = c }

unfoldable pub extra_category : Text → Record → Record
extra_category c r = record r { extra_categories = r.extra_categories ++ c ∷ [] }

unfoldable pub extra_categories : List Text → Record → Record
extra_categories cs r = record r { extra_categories = r.extra_categories ++ cs }

unfoldable pub color : Text → Record → Record
color c r = record r { color = c }

unfoldable pub bg_color : Text → Record → Record
bg_color c r = record r { bg_color = c }
