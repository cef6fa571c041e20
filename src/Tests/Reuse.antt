-- ===== src/Tests/Reuse.antt =====
-- The theorems on copying at concrete inputs, with the check of the program itself: a client that sends
-- its next request whole on a connection whose last request was read to its end.
use anyproxy.Base.{
  ℕ, zero, suc, ◌<◌, ◌≡◌, ◌≢◌, refl, true, false, Bytes, codes, List, [], ◌∷◌, Option, none, some,
  arith, pos,
}
use anyproxy.TcpReader.{Reader, Script, new_reader_with_buf}
use anyproxy.TcpReader.Stream.{Inv}
use anyproxy.Request.{is_keep_alive_http}
use anyproxy.Tunnel.Copy.{
  Side, request, server, Write, KeepAlive, CopyError, Transfer, turn, run_turns, start_transfer,
}
use anyproxy.Tunnel.Copy.Rounds.{Undisturbed, returned-Undisturbed}
use anyproxy.Tunnel.Copy.Work.{work}
use anyproxy.Tunnel.Copy.Progress.{turns_of, run_turns-returns}
use anyproxy.Tests.Text.{open_router, tunnel_env}

-- `isKeepAliveHttp`, with no for a panic.
abbrev keep_check : KeepAlive
keep_check got rd = elim (is_keep_alive_http tunnel_env open_router got rd) [
  | none ↦ (false, rd)
  | some r ↦ r
]

abbrev buffered_reader : Bytes → Reader
buffered_reader s = new_reader_with_buf [] s

buffered_reader-Inv : (s : Bytes) → Inv (buffered_reader s)
buffered_reader-Inv s = record { in_order = omega arith; in_buffer = omega arith }

abbrev next_request : Reader
next_request = buffered_reader (codes "GET /b HTTP/1.1\r\n\r\n")

abbrev some_answer : Reader
some_answer = buffered_reader (codes "ok")

abbrev takes_all : Write
takes_all = record { accepts = 10000; error = none }

abbrev rounds : ℕ → List (Side × Write)
rounds zero = []
rounds (suc n) = (server, takes_all) ∷ (request, takes_all) ∷ rounds n

-- The client's next request, and then the two sides in turn.
abbrev some_turns : List (Side × Write)
some_turns = (request, takes_all) ∷ rounds 30

abbrev begun : Transfer
begun = start_transfer (pos 0) next_request some_answer

reused : (turn keep_check (request, takes_all) begun).up.returned ≡ some none
unfolding turn anyproxy.TcpReader.read anyproxy.TcpReader.copy_out is_keep_alive_http
    anyproxy.TcpReader.peek anyproxy.Http.head_method anyproxy.Base.index_byte
    anyproxy.Base.bytes_eq anyproxy.TextReader.read_line_slice anyproxy.TcpReader.read_line
    anyproxy.TcpReader.read_slice_loop anyproxy.Http.first_line_parts
    anyproxy.Http.Request.decode_target anyproxy.TextReader.read_header
    anyproxy.TextReader.header_step anyproxy.Http.Request.read_request
reused = refl

undisturbed : Undisturbed keep_check some_turns begun
unfolding anyproxy.TcpReader.read is_keep_alive_http anyproxy.TcpReader.copy_out
    anyproxy.TcpReader.peek anyproxy.Http.head_method anyproxy.Base.index_byte
    anyproxy.Base.bytes_eq anyproxy.TextReader.read_line_slice anyproxy.TcpReader.read_line
    anyproxy.TcpReader.read_slice_loop anyproxy.Http.first_line_parts
    anyproxy.Http.Request.decode_target anyproxy.TextReader.read_header
    anyproxy.TextReader.header_step anyproxy.Http.Request.read_request anyproxy.Http.read_body
    anyproxy.Base.lookup
undisturbed = (
  (λ _ _. refl),
  returned-Undisturbed keep_check (rounds 30) (turn keep_check (request, takes_all) begun)
      (λ e. ground (arith, e, reused)),
)

run_turns-returns_example :
    let t = run_turns keep_check some_turns begun in
    (work next_request < turns_of request some_turns
      → (e : Option CopyError) × (t.up.returned ≡ some e))
    × (work some_answer < turns_of server some_turns
        → (e : Option CopyError) × (t.down.returned ≡ some e))
run_turns-returns_example =
    run_turns-returns keep_check some_turns (pos 0) next_request some_answer
      (record { inv = buffered_reader-Inv (codes "GET /b HTTP/1.1\r\n\r\n"); room = omega arith })
      (record { inv = buffered_reader-Inv (codes "ok"); room = omega arith }) undisturbed
