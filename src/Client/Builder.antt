-- ===== src/Client/Builder.antt =====
-- src/client.rs: the methods of `ClientBuilder`. The callback itself is known by being there.
use ecapplog_rust.Base.{ℕ, Bool, true}
use ecapplog_rust.Base.Text.{Text}
use ecapplog_rust.Client.{ClientBuilder}

unfoldable pub app_name : Text → ClientBuilder → ClientBuilder
app_name s b = record b { app_name = s }

unfoldable address : Text → ClientBuilder → ClientBuilder
address s b = record b { address = s }

unfoldable buffer_size : ℕ → ClientBuilder → ClientBuilder
buffer_size n b = record b { buffer_size = n }

unfoldable flush_on_close : Bool → ClientBuilder → ClientBuilder
flush_on_close set b = record b { flush_on_close = set }

unfoldable flush_timeout : ℕ → ClientBuilder → ClientBuilder
flush_timeout d b = record b { flush_timeout = d }

unfoldable connect_timeout : ℕ → ClientBuilder → ClientBuilder
connect_timeout d b = record b { connect_timeout = d }

unfoldable reconnect_delay : ℕ → ClientBuilder → ClientBuilder
reconnect_delay d b = record b { reconnect_delay = d }

unfoldable pub on_error : ClientBuilder → ClientBuilder
on_error b = record b { on_error = true }
