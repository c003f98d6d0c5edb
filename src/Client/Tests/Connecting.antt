-- ===== src/Client/Tests/Connecting.antt =====
-- src/client.rs: attempts at a name of three addresses, of which the second answers.
use ecapplog_rust.Base.{◌≡◌, ◌↔◌, refl, none}
use ecapplog_rust.Client.{stream, connect, dial_timeout, dial_each, build}
use ecapplog_rust.Client.Connecting.{Comes, connect_iff}
use ecapplog_rust.Client.Tests.{settings, network}

connect_iff_example :
    Comes settings network (dial_timeout settings none 7) (stream 2)
    ↔ (connect settings network none 7 ≡ stream 2)
connect_iff_example = connect_iff settings network none 7 (stream 2)

-- The second address, by a run.
connects : connect settings network none 7 ≡ stream 2
unfolding connect dial_each settings build
connects = refl
