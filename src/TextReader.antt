-- ===== src/TextReader.antt =====
-- proto/text/reader.go: lines of a text protocol, and the header of a request.
pub mod Slice
pub mod Ending
pub mod Break
pub mod Field
pub mod RoundTrip
pub mod Values
use anyproxy.Base.{
  ℕ, zero, suc, ◌+◌, ◌-◌, Bool, true, false, ◌&&◌, ◌||◌, Bytes, codes, List, [], ◌∷◌, ◌++◌, Option,
  none, some, if◌then◌else◌, ltb, leb, ◌==◌, is_empty, bytes_eq, bytes_key, index_byte, trim_left,
  trim_right, trim_by, get_or, length, take, drop, insert, Result, ok, err,
}
use anyproxy.TcpReader.{ReadError, Reader, LineRead, buffered, read_line, peek, drop_break_of}
use anyproxy.TcpReader.Stream.{stream}
use anyproxy.Header.{Header, values_of}
use anyproxy.Header.Canonical.{canonical_mime_header_key}

pub data TextError : Type 0 where
  read_failed : ReadError → TextError
  malformed_initial malformed_line : Bytes → TextError

abbrev pub is_blank : ℕ → Bool
is_blank c = c == b' ' || c == b'\t'

-- `Trim`
abbrev pub trim_blank : Bytes → Bytes
trim_blank = trim_by is_blank

-- `DropBreak`; its first index panics on an empty line, which is `none`
unfoldable pub drop_break : Bytes → Option Bytes
drop_break [] = none
drop_break (c ∷ s) = some (drop_break_of (c ∷ s))

-- the loop of `readLineSlice`, on fuel, behind the parts of the line read before
unfoldable pub read_slice_parts :
    ℕ → Bool → Bytes → Reader → Option (Reader × Bytes × Option ReadError)
read_slice_parts zero drops line b = none
read_slice_parts (suc fuel) drops line b = elim (read_line drops b) [
  | none ↦ none
  | some lr ↦ elim lr.error [
    | some e ↦ some (lr.reader, [], some e)
    | none ↦ elim lr.is_prefix [
      | true ↦ read_slice_parts fuel drops (line ++ lr.line) lr.reader
      | false ↦ some (lr.reader, line ++ lr.line, none)
    ]
  ]
]

-- `readLineSlice`, which is `ReadLine` and `ReadLineBytes`: each part of a line takes a byte at least
unfoldable pub read_line_slice : Bool → Reader → Option (Reader × Bytes × Option ReadError)
unfolding read_slice_parts
read_line_slice drops b = read_slice_parts (length (stream b) + 1) drops [] b

-- the loop of `upcomingHeaderNewlines`; each round takes a byte at least
unfoldable pub newline_count : ℕ → Bytes → ℕ
newline_count zero s = 0
newline_count (suc fuel) s = elim (index_byte b'\n' s) [
  | none ↦ 0
  | some i ↦ elim (ltb i 3) [ true ↦ 0 | false ↦ suc (newline_count fuel (drop (suc i) s)) ]
]

-- `upcomingHeaderNewlines`
unfoldable pub upcoming_header_newlines : Reader → Option (Reader × ℕ)
unfolding newline_count
upcoming_header_newlines b = elim (peek 1 b) [
  | none ↦ none
  | some (b1, s, e) ↦ elim (buffered b1 == 0) [
    | true ↦ some (b1, 0)
    | false ↦ elim (peek (buffered b1) b1) [
      | none ↦ none
      | some (b2, t, e2) ↦ some (b2, newline_count (length t) t)
    ]
  ]
]

-- a line of the header without its break: the canonical key and the value
unfoldable pub header_field : Bytes → Result TextError (Bytes × Bytes)
header_field kv = elim (index_byte b':' kv) [
  | none ↦ err (malformed_line kv)
  | some i ↦ ok (
    canonical_mime_header_key (trim_right (λ c. c == b' ') (take i kv)),
    trim_left is_blank (drop (suc i) kv),
  )
]

-- the value is put behind those of its key; while there are, one of the `hint` strings is used
unfoldable pub add_field : Header → ℕ → Bytes → Bytes → Header × ℕ
add_field m hint key value =
    let vv = values_of key m in
    if is_empty vv && ltb 0 hint
    then (insert key (value ∷ []) m, hint - 1)
    else (insert key (vv ++ value ∷ []) m, hint)

-- What a line does to the loop of `ReadHeader`: it panics, it stops, or it goes on with the header, the
-- strings left and the end of the line.
pub data HeaderStep : Type 0 where
  crash : HeaderStep
  stop : Header → Option TextError → HeaderStep
  next : Header → ℕ → Bytes → HeaderStep

-- the line's field is kept, and an error that came with the line ends the loop
unfoldable pub keep_field : Header → ℕ → Bytes → Option ReadError → Bytes × Bytes → HeaderStep
unfolding add_field
keep_field m hint last e (key, value) =
    if is_empty key
    then next m hint last
    else (let (m', hint') = add_field m hint key value in
        elim e [ none ↦ next m' hint' last | some x ↦ stop m' (some (read_failed x)) ])

-- a line that is not the end of the header, without its break
unfoldable pub field_step : Header → ℕ → Bytes → Option ReadError → Bytes → HeaderStep
unfolding keep_field
field_step m hint last e kv = if is_empty kv then stop m none else (elim (header_field kv) [
  | err x ↦ stop m (some x)
  | ok field ↦ keep_field m hint last e field
])

abbrev pub crlf : Bytes
crlf = codes "\r\n"

-- the body of the loop of `ReadHeader`
unfoldable pub header_step : Header → ℕ → Bytes → Bytes → Option ReadError → HeaderStep
unfolding drop_break field_step
header_step m hint last_end kv e =
    if is_empty kv
    then stop m (elim e [ none ↦ none | some x ↦ some (read_failed x) ])
    else if bytes_eq kv crlf && bytes_eq last_end crlf
    then stop m none
    else (let last = if leb 2 (length kv) then drop (length kv - 2) kv else last_end in
        elim (drop_break kv) [ none ↦ crash | some line ↦ field_step m hint last e line ])

-- the loop of `ReadHeader`, on fuel
unfoldable pub header_loop :
    ℕ → Header → ℕ → Bytes → Reader → Option (Reader × Header × Option TextError)
header_loop zero m hint last_end b = none
header_loop (suc fuel) m hint last_end b = elim (read_line_slice false b) [
  | none ↦ none
  | some (b', kv, e) ↦ elim (header_step m hint last_end kv e) [
    | crash ↦ none
    | stop m' x ↦ some (b', m', x)
    | next m' hint' last ↦ header_loop fuel m' hint' last b'
  ]
]

abbrev pub starts_blank : Bytes → Option ReadError → Bool
starts_blank buf none = is_blank (get_or buf 0 0)
starts_blank buf (some e) = false

-- `ReadHeader` behind the hint; each line takes a byte at least
unfoldable pub read_fields : Reader → ℕ → Option (Reader × Header × Option TextError)
unfolding header_loop
read_fields b hint = elim (peek 1 b) [
  | none ↦ none
  | some (b1, buf, e) ↦ elim (starts_blank buf e) [
    | true ↦ elim (read_line_slice false b1) [
      | none ↦ none
      | some (b2, line, none) ↦ some (b2, [], some (malformed_initial line))
      | some (b2, line, some x) ↦ some (b2, [], some (read_failed x))
    ]
    | false ↦ header_loop (length (stream b1) + 1) [] hint (0 ∷ 0 ∷ []) b1
  ]
]

-- `ReadHeader`
unfoldable pub read_header : Reader → Option (Reader × Header × Option TextError)
unfolding upcoming_header_newlines read_fields
read_header b = elim (upcoming_header_newlines b) [
  | none ↦ none
  | some (b1, hint) ↦ read_fields b1 hint
]
