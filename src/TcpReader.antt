-- ===== src/TcpReader.antt =====
-- proto/tcp/reader.go: the buffered reader of a connection. The buffer is a list of fixed length
-- with positions `r` and `w`, slices are values, and `none` is a Go panic, or the end of a loop's fuel.
pub mod Stream
pub mod Lines
pub mod Steady
pub mod Whole
pub mod Peeks
pub mod Peers
use Prim.Native.Nat.{min}
use anyproxy.Base.{
  ℕ, zero, suc, ◌+◌, ◌-◌, Bool, true, false, ◌&&◌, not, Bytes, List, [], ◌∷◌, ◌++◌, Option, none,
  some, ltb, leb, ◌==◌, if◌then◌else◌, length, take, drop, get_or, replicate, index_byte, slice,
  write_at, ℤ, pos, negsuc,
}

pub data ReadError : Type 0 where
  eof no_progress buffer_full negative_count empty_read : ReadError
  net_error : ℕ → ReadError

-- What one `Read` of the connection can give: bytes, and an error that comes with them.
pub record Arrival : Type 0 where
  pub bytes : Bytes
  pub error : Option ReadError

-- What the peer is going to send. Behind its end every read gives EOF.
abbrev pub Script : Type 0
Script = List Arrival

-- One `Read` into `size` bytes: what came, its error, and what is still to come.
unfoldable pub net_read : ℕ → Script → Bytes × Option ReadError × Script
net_read size [] = ([], some eof, [])
net_read size (a ∷ rest) =
    if leb (length a.bytes) size
    then (a.bytes, a.error, rest)
    else (take size a.bytes, none, record a { bytes = drop size a.bytes } ∷ rest)

-- `Reader`; the last byte is `none` where the code has -1
pub record Reader : Type 0 where
  pub buf : Bytes
  pub rd : Script
  pub r : ℕ
  pub w : ℕ
  pub error : Option ReadError
  pub last_byte : Option ℕ

abbrev pub default_buf_size : ℕ
default_buf_size = 4096

abbrev pub min_read_buffer_size : ℕ
min_read_buffer_size = 16

abbrev pub max_consecutive_empty_reads : ℕ
max_consecutive_empty_reads = 100

-- `reset`
abbrev pub reset : Bytes → Script → Reader
reset buf rd = record { buf = buf; rd = rd; r = 0; w = 0; error = none; last_byte = none }

-- `NewReaderSize` over a connection, which is no `Reader`
abbrev pub new_reader_size : Script → ℕ → Reader
new_reader_size rd size =
    reset (replicate (if ltb size min_read_buffer_size then min_read_buffer_size else size) 0) rd

-- `NewReader`
abbrev pub new_reader : Script → Reader
new_reader rd = new_reader_size rd default_buf_size

-- `NewReaderWithBuf`
abbrev pub new_reader_with_buf : Script → Bytes → Reader
new_reader_with_buf rd buf = record (reset buf rd) { w = length buf }

-- `Buffered`
abbrev pub buffered : Reader → ℕ
buffered b = b.w - b.r

-- the unread bytes `b.buf[b.r:b.w]`
abbrev pub pending : Reader → Bytes
pending b = slice b.r b.w b.buf

-- the last byte of a slice that was handed out, or the old one
abbrev last_of : Bytes → Option ℕ → Option ℕ
last_of [] old = old
last_of (c ∷ s) old = some (get_or (c ∷ s) (length s) 0)

-- the end of `Read`: copy what is buffered
unfoldable pub copy_out : Reader → ℕ → Reader × Bytes × Option ReadError
copy_out b n =
    let m = min n (b.w - b.r) in
    let r' = b.r + m in
    (record b { r = r'; last_byte = some (get_or b.buf (r' - 1) 0) }, slice b.r r' b.buf, none)

-- A read straight into the caller's slice.
unfoldable pub read_direct : Reader → ℕ → Reader × Bytes × Option ReadError
unfolding net_read
read_direct b n =
    let (got, e, rd') = net_read n b.rd in
    (record b { rd = rd'; last_byte = last_of got b.last_byte }, got, e)

-- One read into the empty buffer, and a copy out of it.
unfoldable pub read_through : Reader → ℕ → Reader × Bytes × Option ReadError
unfolding net_read
read_through b n =
    let (got, e, rd') = net_read (length b.buf) b.rd in
    let loaded = record b {
      buf = write_at b.buf 0 got;
      rd = rd';
      r = 0;
      w = 0 + length got;
      error = e;
    } in
    if length got == 0 then (record loaded { error = none }, [], e) else copy_out loaded n

-- `Read` where nothing is buffered: a pending error comes first.
unfoldable pub read_empty : Reader → ℕ → Option ReadError → Reader × Bytes × Option ReadError
read_empty b n (some e) = (record b { error = none }, [], some e)
read_empty b n none = if leb (length b.buf) n then read_direct b n else read_through b n

-- `Read` into `n` bytes
unfoldable pub read : Reader → ℕ → Reader × Bytes × Option ReadError
read b n =
    if n == 0
    then (b, [], some empty_read)
    else if b.r == b.w
    then read_empty b n b.error
    else copy_out b n

-- the loop of `fill`, with the rounds that are left
unfoldable pub fill_loop : ℕ → Reader → Reader
unfolding net_read
fill_loop zero b = record b { error = some no_progress }
fill_loop (suc i) b =
    let (got, e, rd') = net_read (length b.buf - b.w) b.rd in
    let b' = record b { buf = write_at b.buf b.w got; rd = rd'; w = b.w + length got } in
    elim e [
      | some x ↦ record b' { error = some x }
      | none ↦ elim (ltb 0 (length got)) [ true ↦ b' | false ↦ fill_loop i b' ]
    ]

-- the data slides to the front of the buffer
unfoldable pub slide : Reader → Reader
slide b =
    if ltb 0 b.r then record b { buf = write_at b.buf 0 (pending b); w = b.w - b.r; r = 0 } else b

-- `fill`
unfoldable pub fill : Reader → Option Reader
unfolding fill_loop slide
fill b =
    let s = slide b in
    if leb (length s.buf) s.w then none else some (fill_loop max_consecutive_empty_reads s)

-- the loop of `ReadSlice`, on fuel; the search starts at `s`
unfoldable pub read_slice_loop : ℕ → Reader → ℕ → ℕ → Option (Reader × Bytes × Option ReadError)
unfolding fill
read_slice_loop zero b s delim = none
read_slice_loop (suc fuel) b s delim = elim (index_byte delim (slice (b.r + s) b.w b.buf)) [
  | some i ↦ (let r' = b.r + (i + s) + 1 in some (record b { r = r' }, slice b.r r' b.buf, none))
  | none ↦ elim b.error [
    | some e ↦ some (record b { r = b.w; error = none }, pending b, some e)
    | none ↦ elim (leb (length b.buf) (buffered b)) [
      | true ↦ some (record b { r = b.w }, b.buf, some buffer_full)
      | false ↦ elim (fill b) [ none ↦ none | some b' ↦ read_slice_loop fuel b' (b.w - b.r) delim ]
    ]
  ]
]

abbrev pub with_last : Reader × Bytes × Option ReadError → Reader × Bytes × Option ReadError
with_last (b, line, e) = (record b { last_byte = last_of line b.last_byte }, line, e)

-- `ReadSlice`; each round that goes on reads a byte or meets an error, so this fuel is enough
unfoldable pub read_slice : Reader → ℕ → Option (Reader × Bytes × Option ReadError)
read_slice b delim = elim (read_slice_loop (length b.buf + 2) b 0 delim) [
  | none ↦ none
  | some res ↦ some (with_last res)
]

-- `line[:len(line)-1]` with the last byte
abbrev drop_last : Bytes → Bytes
drop_last s = take (length s - 1) s

-- the line without its break, `\n` or `\r\n`
unfoldable pub drop_break_of : Bytes → Bytes
drop_break_of line =
    let n = length line in
    if get_or line (n - 1) 0 == b'\n'
    then (if ltb 1 n && get_or line (n - 2) 0 == b'\r'
        then take (n - 2) line
        else take (n - 1) line)
    else line

-- The outcome of `ReadLine`: the line, whether it is a prefix, and the error.
pub record LineRead : Type 0 where
  pub reader : Reader
  pub line : Bytes
  pub is_prefix : Bool
  pub error : Option ReadError

-- `ReadLine` where the buffer is full: a `\r` at its end goes back.
unfoldable pub full_line : Reader → Bytes → Option LineRead
full_line b line =
    if ltb 0 (length line) && get_or line (length line - 1) 0 == b'\r'
    then (if b.r == 0
        then none
        else some (record {
          reader = record b { r = b.r - 1 };
          line = drop_last line;
          is_prefix = true;
          error = none;
        }))
    else some (record { reader = b; line = line; is_prefix = true; error = none })

unfoldable pub whole_line : Bool → Reader → Bytes → Option ReadError → LineRead
unfolding drop_break_of
whole_line drop_break b [] e = record { reader = b; line = []; is_prefix = false; error = e }
whole_line drop_break b (c ∷ s) e = record {
  reader = b;
  line = if drop_break then drop_break_of (c ∷ s) else c ∷ s;
  is_prefix = false;
  error = none;
}

abbrev pub is_buffer_full : Option ReadError → Bool
is_buffer_full (some buffer_full) = true
is_buffer_full _ = false

-- `ReadLine`
unfoldable pub read_line : Bool → Reader → Option LineRead
unfolding read_slice full_line whole_line
read_line drop_break b = elim (read_slice b b'\n') [
  | none ↦ none
  | some (b', line, e) ↦
      (if is_buffer_full e then full_line b' line else some (whole_line drop_break b' line e))
]

-- the loop of `Peek`, on fuel
unfoldable pub peek_loop : ℕ → ℕ → Reader → Option Reader
unfolding fill
peek_loop zero n b = none
peek_loop (suc fuel) n b = elim (ltb (buffered b) n && ltb (buffered b) (length b.buf)) [
  | false ↦ some b
  | true ↦ elim b.error [
    | some e ↦ some b
    | none ↦ elim (fill b) [ none ↦ none | some b' ↦ peek_loop fuel n b' ]
  ]
]

-- the end of `Peek`
unfoldable pub peek_take : ℕ → Reader → Reader × Bytes × Option ReadError
peek_take n b =
    if ltb (length b.buf) n
    then (b, pending b, some buffer_full)
    else if ltb (buffered b) n
    then (
      record b { error = none },
      slice b.r (b.r + buffered b) b.buf,
      elim b.error [ none ↦ some buffer_full | some e ↦ some e ],
    )
    else (b, slice b.r (b.r + n) b.buf, none)

-- `Peek` of a count that is not negative; the fuel is enough as for `ReadSlice`
unfoldable pub peek : ℕ → Reader → Option (Reader × Bytes × Option ReadError)
unfolding peek_loop peek_take
peek n b = elim (peek_loop (length b.buf + 2) n (record b { last_byte = none })) [
  | none ↦ none
  | some b' ↦ some (peek_take n b')
]

-- `UnreadBuf`
unfoldable pub unread_buf : ℤ → Reader → Reader × Bytes
unread_buf (pos n) b =
    let r' = if ltb n (buffered b) then b.r + n else b.w in
    let got = slice b.r r' b.buf in
    if n == 0 then (b, []) else (record b { r = r'; last_byte = last_of got b.last_byte }, got)
unread_buf (negsuc n) b =
    (record b { r = b.w; last_byte = last_of (pending b) b.last_byte }, pending b)
