-- ===== src/Tests/Wire.antt =====
-- The theorems on readers, headers, requests, hubs and counters at concrete inputs.
use anyproxy.Base.{
  IsHeadOf, ◌+◌, ◌*◌, ◌≤◌, ◌<◌, ◌≡◌, refl, ap, ◌∙◌, arith, true, false, Bytes, codes, List, [], ◌∷◌,
  ◌++◌, Option, none, some, if◌then◌else◌, length, ok, lookup, bytes_key, bytes_eq, pos, Lacks,
  parse_int10, parse_uint10, scan_uint, trim_left, trim_right,
}
use anyproxy.Nat.{Message, method_close}
use anyproxy.Nat.BridgeHub.{BridgeEvent, run_bridges}
use anyproxy.Nat.ClientHub.{ClientEvent, run_clients}
use anyproxy.Nat.Safety.{IsSafe, run_bridges-IsSafe, run_clients-IsSafe}
use anyproxy.TcpReader.{Reader, ReadError, new_reader_with_buf, read, read_slice}
use anyproxy.TcpReader.Stream.{Inv, Hands, read-Reads}
use anyproxy.TcpReader.Lines.{Ends, read_slice-Ends}
use anyproxy.Http.{
  parse_request_line, parse_content_length, first_value, read_body, get_name_ip_port,
}
use anyproxy.Http.Line.{parse_request_line-parts, get_name_ip_port-target}
use anyproxy.Http.Body.{IsBodyOf, read_body-IsBodyOf}
use anyproxy.Socks.{parse_got}
use anyproxy.Socks.Header.{name_request, parse_got-name}
use anyproxy.Header.{
  Header, values_of, get_value, set_value, add_value, del_value, first_or_empty, write_header,
}
use anyproxy.Header.Canonical.{
  canonical_mime_header_key, canonical_slow, common_header, any_key,
  canonical_mime_header_key-canonical_slow, canonical_mime_header_key_fold, valid_header_field_byte,
  title_from, title_byte, all_valid,
}
use anyproxy.Header.Entries.{same_key, get_value_after}
use anyproxy.Header.Wire.{buffer_write, count_byte, value_count, write_header_line_count}
use anyproxy.Stats.{Manager, new_manager, register_counter, unregister_counter}
use anyproxy.Stats.Sharing.{
  swept, register_counter-Inv, new_manager-Inv, unregister_counter-lookup,
  register_counter-unregister_counter,
}

abbrev some_message : Message
some_message = record { id = 1; method = []; body = codes "x" }

abbrev closing : Message
closing = record { id = 1; method = method_close; body = [] }

-- A bridge that is closed by a message and unregisters after that.
abbrev bridge_events : List BridgeEvent
bridge_events =
    BridgeEvent.register 1
    ∷ BridgeEvent.broadcast some_message (0 ∷ [])
    ∷ BridgeEvent.broadcast closing (0 ∷ [])
    ∷ BridgeEvent.unregister 0
    ∷ BridgeEvent.pump 0
    ∷ []

run_bridges-IsSafe_example : IsSafe 100 (run_bridges bridge_events [])
run_bridges-IsSafe_example = run_bridges-IsSafe bridge_events

abbrev client_events : List ClientEvent
client_events =
    ClientEvent.register []
    ∷ ClientEvent.broadcast 0 some_message (0 ∷ [])
    ∷ ClientEvent.unregister 0
    ∷ ClientEvent.unregister 0
    ∷ []

run_clients-IsSafe_example : IsSafe 200 (run_clients client_events [])
run_clients-IsSafe_example = run_clients-IsSafe client_events

abbrev some_reader : Reader
some_reader =
    new_reader_with_buf (record { bytes = codes "c\nd"; error = none } ∷ []) (codes "a\nb")

some_reader-Inv : Inv some_reader
some_reader-Inv = record { in_order = omega arith; in_buffer = omega arith }

read-Reads_example :
    Hands some_reader (read some_reader 2).1 (read some_reader 2).0
    × (length (read some_reader 2).1 ≤ 2)
read-Reads_example = read-Reads some_reader 2 some_reader-Inv

read_slice-Ends_example :
    (res : Reader × Bytes × Option ReadError) × (read_slice some_reader b'\n' ≡ some res)
    × Hands some_reader res.1 res.0
    × Ends b'\n' res.1 res.2
read_slice-Ends_example = read_slice-Ends some_reader b'\n' some_reader-Inv

abbrev length_header : Header
length_header = (codes "Content-Length", codes "5" ∷ []) ∷ []

five : parse_content_length (codes "5") ≡ some (pos 5)
unfolding parse_content_length parse_int10 parse_uint10 scan_uint trim_left trim_right
five = refl

not_connect : bytes_eq (codes "POST") (codes "CONNECT") ≡ false
unfolding bytes_eq
not_connect = refl

no_upgrade : lookup (codes "Connection") length_header ≡ none
unfolding lookup bytes_eq
no_upgrade = refl

not_chunked : lookup (codes "Transfer-Encoding") length_header ≡ none
unfolding lookup bytes_eq
not_chunked = refl

has_length : first_value (codes "Content-Length") length_header ≡ some (codes "5")
unfolding lookup bytes_eq
has_length = refl

read_body-IsBodyOf_example :
    IsBodyOf 5 some_reader (read_body (codes "POST") (codes "HTTP/1.1") length_header some_reader)
read_body-IsBodyOf_example =
    read_body-IsBodyOf (codes "POST") length_header some_reader (codes "5") 5 some_reader-Inv
      not_connect no_upgrade not_chunked has_length five

parse_got-name_example :
    parse_got (λ ip. ip) (name_request (codes "a.com") 31 144)
    ≡ ok (record { name = codes "a.com"; ip = []; port = 31 * 256 + 144 })
parse_got-name_example =
    parse_got-name (λ ip. ip) (codes "a.com") 31 144 (omega arith) (omega arith) (omega arith)
      (omega arith)

get_name_ip_port-target_example :
    IsHeadOf b':' (codes "a.c:0") (get_name_ip_port (codes "a.c:0") [] (codes "https")).0
    × (0 < (get_name_ip_port (codes "a.c:0") [] (codes "https")).1)
get_name_ip_port-target_example = get_name_ip_port-target (codes "a.c:0") [] (codes "https")

parse_request_line-parts_example :
    parse_request_line (codes "GE" ++ b' ' ∷ (codes "/" ++ b' ' ∷ codes "HTTP/1.1"))
    ≡ some (codes "/", codes "HTTP/1.1")
parse_request_line-parts_example =
    parse_request_line-parts (codes "GE") (codes "/") (codes "HTTP/1.1")
      ((λ e. omega (arith, e)), ((λ e. omega (arith, e)), tt)) ((λ e. omega (arith, e)), tt)

get_value_after_example :
    (get_value (set_value length_header (codes "host") (codes "a")) (codes "Host") ≡ (
      if same_key (codes "host") (codes "Host")
      then codes "a"
      else get_value length_header (codes "Host")))
    × (get_value (del_value length_header (codes "host")) (codes "Host") ≡ (
        if same_key (codes "host") (codes "Host")
        then []
        else get_value length_header (codes "Host")))
    × (get_value (add_value length_header (codes "host") (codes "a")) (codes "Host") ≡ (
        if same_key (codes "host") (codes "Host")
        then first_or_empty
            (values_of (canonical_mime_header_key (codes "host")) length_header ++ codes "a" ∷ [])
        else get_value length_header (codes "Host")))
get_value_after_example = get_value_after length_header (codes "host") (codes "Host") (codes "a")

abbrev small_header : Header
small_header = (codes "A", codes "x\ny" ∷ codes "z" ∷ []) ∷ []

write_header_line_count_example :
    count_byte b'\n' (write_header buffer_write [] small_header).0 ≡ value_count small_header
write_header_line_count_example =
    write_header_line_count small_header (((λ e. omega (arith, e)), tt), tt)

canonical_mime_header_key-canonical_slow_example :
    canonical_mime_header_key (codes "content-LENGTH") ≡ canonical_slow (codes "content-LENGTH")
canonical_mime_header_key-canonical_slow_example =
    canonical_mime_header_key-canonical_slow (codes "content-LENGTH")

slow_host : any_key (canonical_slow (codes "host")) common_header ≡ true
unfolding any_key common_header canonical_slow title_from title_byte all_valid
    valid_header_field_byte bytes_eq
slow_host = refl

canonical_host : any_key (canonical_mime_header_key (codes "host")) common_header ≡ true
canonical_host =
    ap (λ k. any_key k common_header) (canonical_mime_header_key-canonical_slow (codes "host"))
    ∙ slow_host

canonical_mime_header_key_fold_example :
    canonical_mime_header_key (codes "HOST") ≡ canonical_mime_header_key (codes "host")
canonical_mime_header_key_fold_example =
    canonical_mime_header_key_fold (codes "host") (codes "HOST") refl canonical_host

-- A counter that was asked for again at 900 seconds, and one that was not.
abbrev two_counters : Manager
two_counters =
    (register_counter
      (register_counter (register_counter new_manager (codes "up") 5).0 (codes "down") 6).0
      (codes "up") 900).0

two_counters-Inv : anyproxy.Stats.Sharing.Inv two_counters
two_counters-Inv = register_counter-Inv _ (codes "up") 900 (
    register_counter-Inv _ (codes "down") 6
      (register_counter-Inv new_manager (codes "up") 5 new_manager-Inv))

unregister_counter-lookup_example :
    lookup (codes "up") (unregister_counter two_counters 1000).counters
    ≡ swept two_counters.heap 1000 (lookup (codes "up") two_counters.counters)
unregister_counter-lookup_example =
    unregister_counter-lookup two_counters 1000 (codes "up") two_counters-Inv

keeps_the_active :
    (swept two_counters.heap 1000 (lookup (codes "up") two_counters.counters) ≡ some 0)
    × (swept two_counters.heap 1000 (lookup (codes "down") two_counters.counters) ≡ none)
unfolding register_counter lookup anyproxy.Base.insert bytes_eq
keeps_the_active = (refl, refl)

no_counter_yet : lookup (codes "up") new_manager.counters ≡ none
unfolding lookup
no_counter_yet = refl

register_counter-unregister_counter_example :
    lookup
      (codes "up")
      (unregister_counter (register_counter new_manager (codes "up") 1000).0 1001).counters
    ≡ none
register_counter-unregister_counter_example =
    register_counter-unregister_counter new_manager (codes "up") 1000 1001 new_manager-Inv
      no_counter_yet (omega arith)
