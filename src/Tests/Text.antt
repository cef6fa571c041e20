-- ===== src/Tests/Text.antt =====
-- The theorems on text readers and on picking a stream, at concrete inputs.
use anyproxy.Base.{
  ◌≡◌, refl, ◌∙◌, true, false, Bytes, codes, [], ◌∷◌, ◌++◌, Option, none, some, arith, bytes_key,
  bytes_eq, append-nil, length-append, lookup, index_byte, has_prefix, contains, split, parse_u16,
  Result, ok, err,
}
use mathlib.Core.List.{map}
use anyproxy.Conf.{Router}
use anyproxy.TcpReader.{
  ReadError, Script, Reader, new_reader_size, new_reader_with_buf, peek, peek_loop, peek_take,
  read_line, read_slice, read_slice_loop, fill, fill_loop, slide, full_line, whole_line,
  drop_break_of, unread_buf,
}
use anyproxy.TcpReader.Stream.{Inv, stream}
use anyproxy.TcpReader.Peers.{Plain}
use anyproxy.Header.{Header, get_value, clean_value, write_header}
use anyproxy.Header.Canonical.{
  canonical_mime_header_key-canonical_slow, canonical_slow, common_header, any_key,
  valid_header_field_byte, title_from, title_byte, all_valid,
}
use anyproxy.Header.Wire.{buffer_write}
use anyproxy.TextReader.{
  TextError, crlf, read_header, read_line_slice, read_slice_parts, upcoming_header_newlines,
  newline_count, read_fields, header_loop, header_step,
}
use anyproxy.TextReader.Ending.{IsHeaderOf, read_header-IsHeaderOf}
use anyproxy.TextReader.Field.{IsKey}
use anyproxy.TextReader.RoundTrip.{Holds}
use anyproxy.TextReader.Values.{IsSendable, read_header-write_header}
use anyproxy.Response.{request_bytes}
use anyproxy.Response.Forwarded.{request_bytes-read_header}
use anyproxy.Request.{
  Stream, pick_stream, ServeEnv, ServeError, Requested, server_handler, read_any, filtered,
  only_connect, try_streams, read_stream, read_http, read_rest, early_error, valid_http_head,
  read_first_line,
}
use anyproxy.Http.{
  head_method, first_line_parts, parse_request_line, read_body, take_all, get_name_ip_port,
  name_and_port, default_port, one_of,
}
use anyproxy.Http.Request.{decode_target, request_host, request_line, read_request}
use anyproxy.Request.Heads.{Names}
use anyproxy.Request.Pick.{IsPicked, pick_stream-IsPicked}
use anyproxy.Request.Serve.{method_of, server_handler-Names}

abbrev arrives : Bytes → Script
arrives s = record { bytes = s; error = none } ∷ []

abbrev reading : Bytes → Reader
reading s = new_reader_size (arrives s) 16

reading-Inv : (s : Bytes) → Inv (reading s)
reading-Inv s = record { in_order = omega arith; in_buffer = omega arith }

reading-Plain : (s : Bytes) → Plain (reading s).rd (reading s).error
reading-Plain s = (((λ e. ground (arith, e)), tt), (λ e. ground (arith, e)))

abbrev sent_lines : Bytes
sent_lines = codes "Host: a\r\n\r\n"

read_header-IsHeaderOf_example :
    (res : Reader × Header × Option TextError) × (read_header (reading sent_lines) ≡ some res)
    × IsHeaderOf (reading sent_lines) res
read_header-IsHeaderOf_example =
    read_header-IsHeaderOf (reading sent_lines) (omega arith) (reading-Inv sent_lines)
      (reading-Plain sent_lines)

abbrev host_header : Header
host_header = (codes "Host", codes "a\nb" ∷ codes " c " ∷ []) ∷ []

host_slow : canonical_slow (codes "Host") ≡ codes "Host"
unfolding any_key common_header canonical_slow title_from title_byte all_valid
    valid_header_field_byte bytes_eq
host_slow = refl

host-IsKey : IsKey (codes "Host")
host-IsKey = record {
  canonical = canonical_mime_header_key-canonical_slow (codes "Host") ∙ host_slow;
  not_empty = λ e. ground (arith, e);
  no_colon = (
    (λ e. omega (arith, e)),
    ((λ e. omega (arith, e)), ((λ e. omega (arith, e)), ((λ e. omega (arith, e)), tt))),
  );
  no_space = (
    (λ e. omega (arith, e)),
    ((λ e. omega (arith, e)), ((λ e. omega (arith, e)), ((λ e. omega (arith, e)), tt))),
  );
  no_tab = (
    (λ e. omega (arith, e)),
    ((λ e. omega (arith, e)), ((λ e. omega (arith, e)), ((λ e. omega (arith, e)), tt))),
  );
  no_break = (
    (λ e. omega (arith, e)),
    ((λ e. omega (arith, e)), ((λ e. omega (arith, e)), ((λ e. omega (arith, e)), tt))),
  );
}

host_header-IsSendable : IsSendable host_header
host_header-IsSendable = record {
  keys = (host-IsKey, tt);
  distinct = (tt, tt);
  valued = ((λ e. ground (arith, e)), tt);
}

abbrev sent_header : Bytes
sent_header = (write_header buffer_write [] host_header).0 ++ (crlf ++ codes "body")

sent_header-Holds : Holds (reading sent_header) sent_header
sent_header-Holds = record {
  two = omega arith;
  inv = reading-Inv sent_header;
  calm = (
    (
      (
        refl,
        omega (
          arith,
          length-append (write_header buffer_write [] host_header).0 (crlf ++ codes "body"),
        ),
      ),
      tt,
    ),
    (λ n. absurd (n refl)),
  );
  holds = append-nil sent_header;
}

read_header-write_header_example :
    (c : Reader) × (m : Header) × (read_header (reading sent_header) ≡ some (c, m, none))
    × Holds c (codes "body")
    × ((j : Bytes)
        → lookup j m
          ≡ (elim (lookup j host_header) [ none ↦ none | some vs ↦ some (map clean_value vs) ]))
read_header-write_header_example =
    read_header-write_header host_header (reading sent_header) (codes "body") host_header-IsSendable
      sent_header-Holds

-- A server without a copied target, and a client that asks it for a tunnel.
abbrev pub open_router : Router
open_router = record {
  token = [];
  tcp_copy = record { enable = false; ip = []; port = 0 };
  default = record { match_kind = []; target = []; dns = []; proxy = []; tcp_target = [] };
  hosts = [];
  allow_ip = [];
  first_line = record { host = []; custom = [] };
  websocket = record {
    listen = [];
    connect = [];
    host = [];
    user = [];
    pass = [];
    email = [];
    subscribe = [];
  };
}

abbrev asks_tunnel : Reader
asks_tunnel = new_reader_with_buf [] (codes "CONNECT a:1 HTTP/1.1\r\n\r\n")

pick_stream-IsPicked_example :
    (r : Reader × Result ReadError Stream) × (pick_stream open_router asks_tunnel ≡ some r)
    × IsPicked asks_tunnel r
pick_stream-IsPicked_example =
    pick_stream-IsPicked open_router asks_tunnel (omega arith)
      (record { in_order = omega arith; in_buffer = omega arith }) (tt, (λ e. ground (arith, e)))

abbrev pub tunnel_env : ServeEnv
tunnel_env = record {
  has_remote = true;
  request = record {
    url = record {
      parse_request_uri =
          λ s. some (record { scheme = codes "http"; host = codes "a:1"; rest = s });
      to_string = λ u. u.rest;
      port_of = λ u. codes "1";
    };
    base64_decode = λ s. some [];
    cipher = record {
      valid_key = λ k. true;
      encrypt_blocks = λ k iv s. s;
      decrypt_blocks = λ k iv s. s;
    };
  };
  ip_string = λ s. s;
  writes = λ s. true;
}

abbrev nothing_read : Reader × Requested
nothing_read = (asks_tunnel, Requested.plain)

abbrev outcome : Option (Reader × Result ServeError Requested) → Reader × Requested
outcome none = nothing_read
outcome (some (b, err e)) = nothing_read
outcome (some (b, ok r)) = (b, r)

abbrev tunnelled : Reader × Requested
tunnelled = outcome (server_handler tunnel_env open_router asks_tunnel)

is_tunnelled :
    server_handler tunnel_env open_router asks_tunnel ≡ some (tunnelled.0, ok tunnelled.1)
unfolding server_handler read_any filtered only_connect pick_stream try_streams read_stream
    read_http read_rest early_error valid_http_head read_first_line peek peek_loop peek_take
    head_method first_line_parts parse_request_line read_line_slice read_slice_parts read_line
    read_slice read_slice_loop fill fill_loop slide full_line whole_line drop_break_of index_byte
    read_header upcoming_header_newlines newline_count read_fields header_loop header_step
    decode_target request_host request_line read_request read_body take_all unread_buf
    get_name_ip_port bytes_eq has_prefix contains get_value one_of name_and_port default_port
    parse_u16 split
is_tunnelled = refl

server_handler-Names_example :
    (method_of tunnelled.1 ≡ some (codes "CONNECT")) × Names (codes "CONNECT") (stream asks_tunnel)
server_handler-Names_example =
    server_handler-Names tunnel_env open_router asks_tunnel tunnelled.0 tunnelled.1 (omega arith)
      (record { in_order = omega arith; in_buffer = omega arith }) (tt, (λ e. ground (arith, e)))
      is_tunnelled

abbrev sent_request : Bytes
sent_request = request_bytes (codes "GET /") host_header (codes "body")

sent_request-Holds : Holds (reading sent_request) sent_request
unfolding request_bytes
sent_request-Holds = record {
  two = omega arith;
  inv = reading-Inv sent_request;
  calm = (
    (
      (
        refl,
        omega (
          arith,
          length-append (write_header buffer_write (codes "GET /" ++ crlf) host_header).0
              (crlf ++ codes "body"),
        ),
      ),
      tt,
    ),
    (λ n. absurd (n refl)),
  );
  holds = append-nil sent_request;
}

request_bytes-read_header_example :
    (c : Reader) × (d : Reader) × (m : Header) × (read_line_slice true (reading sent_request)
      ≡ some (c, codes "GET /", none))
    × (read_header c ≡ some (d, m, none))
    × Holds d (codes "body")
    × ((j : Bytes)
        → lookup j m
          ≡ (elim (lookup j host_header) [ none ↦ none | some vs ↦ some (map clean_value vs) ]))
request_bytes-read_header_example =
    request_bytes-read_header (codes "GET /") host_header (codes "body") (reading sent_request)
      (
        (λ e. omega (arith, e)),
        (
          (λ e. omega (arith, e)),
          ((λ e. omega (arith, e)), ((λ e. omega (arith, e)), ((λ e. omega (arith, e)), tt))),
        ),
      )
      host_header-IsSendable sent_request-Holds
