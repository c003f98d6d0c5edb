-- ===== src/Server/Tests/Connections.antt =====
-- examples/mock_server.rs: where the program listens, and the lines for a peer that sends nonsense.
use ecapplog_rust.Base.{[], ◌∷◌, ◌++◌, none, ◌≡◌, refl}
use ecapplog_rust.Base.Text.{codes, decimal}
use ecapplog_rust.Client.{default_builder}
use ecapplog_rust.Server.{read, decode, next_frame, framed, on_frame}
use ecapplog_rust.Server.Connections.{
  listen_address, got, accepted, serve, attend, converse, hung_up, peer_name,
}
use ecapplog_rust.Server.Output.{
  listening_line, output, line_lines, report_lines, connected_line, disconnected_line,
}
use ecapplog_rust.Server.Tests.{reader}

listens_where_clients_connect :
    listening_line (codes "mock_server" ∷ []) ≡ codes "listening on " ++ default_builder.address
unfolding listening_line listen_address
listens_where_clients_connect = refl

-- A frame with no payload and the command 7, and then the end.
unknown_shown :
    output
      (reader [] [])
      (λ s. s)
      (serve (accepted none (got (7 ∷ 0 ∷ 0 ∷ 0 ∷ 0 ∷ []) ∷ got [] ∷ [])))
    ≡ connected_line (codes "<unknown>")
      ∷ codes "!!! unknown command 7"
      ∷ disconnected_line (codes "<unknown>") (codes "0")
      ∷ []
unfolding output line_lines report_lines serve attend converse hung_up peer_name read decode
    next_frame framed on_frame decimal
unknown_shown = refl
