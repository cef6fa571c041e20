-- ===== src/Nat/Pump/Delivery.antt =====
-- nat/: the bytes of a request over a websocket arrive at its client.
use anyproxy.Base.{
  ℕ, zero, suc, ◌≤◌, ◌<◌, ◌≡◌, ◌≢◌, ◌⊎◌, inl, inr, refl, sym, ap, ◌∙◌, subst, Bool, true, false,
  Bytes, List, [], ◌∷◌, ◌++◌, append_assoc, append-nil, length-append, Option, none, some, ltb,
  bytes_eq, length, arith, All, Bool-cases,
}
use mathlib.Core.List.{map}
use anyproxy.TcpReader.{ReadError, Reader, read}
use anyproxy.TcpReader.Stream.{Inv, Hands, Hands-trans, read-Reads}
use anyproxy.Tunnel.Copy.{copy_size}
use anyproxy.Tunnel.Copy.Work.{work, read-work}
use anyproxy.Tunnel.Copy.Progress.{IsReadable}
use anyproxy.Nat.{Message, method_create}
use anyproxy.Nat.Pump.{
  open_message, write_message, close_message, Copied, then_copied, copied_end, copy_loop,
  bridge_copy, ws_request, LocalEvent, opens, passes, local_read_pump,
}

-- The bytes of some messages.
abbrev pub bodies : List Message → Bytes
bodies [] = []
bodies (m ∷ ms) = m.body ++ bodies ms

bodies-append : (xs ys : List Message) → bodies (xs ++ ys) ≡ bodies xs ++ bodies ys
bodies-append [] ys = refl
bodies-append (m ∷ xs) ys =
    ap (◌++◌ m.body) (bodies-append xs ys) ∙ sym (append_assoc m.body (bodies xs) (bodies ys))

-- A message of a request with bytes: no method, and some bytes, which fit the buffer.
pub record IsChunk (id : ℕ) (m : Message) : Type 0 where
  pub same_id : m.id ≡ id
  pub no_method : m.method ≡ []
  pub fits : (0 < length m.body) × (length m.body ≤ 4096)

-- What `CopyBuffer` does: it sends the bytes that it was handed out, in messages with bytes.
pub record IsCopy (id : ℕ) (b : Reader) (k : Copied) : Type 0 where
  pub hands : Hands b (bodies k.messages) k.src
  pub chunks : All (IsChunk id) k.messages
  pub written : k.written ≡ length (bodies k.messages)

empty_bytes : (s : Bytes) → ltb 0 (length s) ≡ false → s ≡ []
empty_bytes [] e = refl
empty_bytes (x ∷ s) e = absurd (ground (arith, e))

then_copied-IsCopy :
    (id : ℕ) (b c : Reader) (got : Bytes) (k : Copied)
    → Hands b got c
    → length got ≤ 4096
    → IsCopy id c k
    → (q : Copied) × (then_copied id got (some k) ≡ some q) × IsCopy id b q
then_copied-IsCopy id b c got k h l g = elim (Bool-cases (ltb 0 (length got))) [
  | inl e ↦ rw e (
    _,
    refl,
    record {
      hands = Hands-trans h g.hands;
      chunks =
          (record { same_id = refl; no_method = refl; fits = (ground (arith, e), l) }, g.chunks);
      written = omega (arith, g.written, length-append got (bodies k.messages));
    },
  )
  | inr e ↦ rw e (
    k,
    refl,
    record {
      hands =
          subst (λ s. Hands b (s ++ bodies k.messages) k.src) (empty_bytes got e)
            (Hands-trans h g.hands);
      chunks = g.chunks;
      written = g.written;
    },
  )
]

copied_end-IsCopy : (id : ℕ) (x : ReadError) (b : Reader) → Inv b → IsCopy id b (copied_end x b)
copied_end-IsCopy id x b v = record {
  hands = record { handed = refl; inv = v; same_size = refl };
  chunks = tt;
  written = refl;
}

copy_loop-IsCopy :
    (fuel id : ℕ) (b : Reader)
    → IsReadable b
    → work b < fuel
    → (k : Copied) × (copy_loop fuel id b ≡ some k) × IsCopy id b k
unfolding copy_loop
copy_loop-IsCopy zero id b v f = elim f [ ]
copy_loop-IsCopy (suc fuel) id b v f =
    let res = read b copy_size in
    let (h, l) = read-Reads b copy_size v.inv in
    ended res.2 refl (read-work b copy_size v.inv (omega arith) v.room) (
      copy_loop-IsCopy fuel id res.0
        (record { inv = h.inv; room = omega (arith, v.room, h.same_size) }))
  where
    ended :
        (e : Option ReadError)
        → (read b copy_size).2 ≡ e
        → ((read b copy_size).2 ≢ none) ⊎ (work (read b copy_size).0 < work b)
        → (work (read b copy_size).0 < fuel
            → (k : Copied) × (copy_loop fuel id (read b copy_size).0 ≡ some k)
              × IsCopy id (read b copy_size).0 k)
        → (k : Copied) × ((elim e as (λ _. Option Copied) [
          | some x ↦ then_copied id (read b copy_size).1 (some (copied_end x (read b copy_size).0))
          | none ↦ then_copied id (read b copy_size).1 (copy_loop fuel id (read b copy_size).0)
        ])
            ≡ some k)
          × IsCopy id b k
    ended (some x) e near ih =
        let (h, l) = read-Reads b copy_size v.inv in
        then_copied-IsCopy id b (read b copy_size).0 (read b copy_size).1 _ h l
          (copied_end-IsCopy id x (read b copy_size).0 h.inv)
    ended none e near ih =
        let (h, l) = read-Reads b copy_size v.inv in
        let less : work (read b copy_size).0 < work b = elim near [
          | inl n ↦ absurd (n e)
          | inr x ↦ x
        ] in
        let (k, g, c) = ih (omega (arith, less, f)) in
        rw g (then_copied-IsCopy id b (read b copy_size).0 (read b copy_size).1 k h l c)

-- Messages with bytes are passed on, one by one.
local_read_pump-chunks :
    (dials : ℕ → Bool) (id : ℕ) (chunks ys : List Message) (es : List LocalEvent)
    → All (IsChunk id) chunks
    → local_read_pump dials (map some ys) ≡ some es
    → local_read_pump dials (map some (chunks ++ ys)) ≡ some (map passes chunks ++ es)
unfolding local_read_pump bytes_eq
local_read_pump-chunks dials id [] ys es h e = e
local_read_pump-chunks dials id (m ∷ chunks) ys es (h, hs) e =
    let test : bytes_eq m.method method_create ≡ false =
      ap (λ x. bytes_eq x method_create) h.no_method in
    rw (test, local_read_pump-chunks dials id chunks ys es hs e) refl

pump_close :
    (dials : ℕ → Bool) (id : ℕ)
    → local_read_pump dials (map some (close_message id ∷ []))
      ≡ some (passes (close_message id) ∷ [])
unfolding local_read_pump bytes_eq
pump_close dials id = refl

-- The messages that stand behind the first of a request.
abbrev pub behind_open : ℕ → Bytes → List Message → List Message
behind_open id buffer chunks = write_message id buffer ∷ (chunks ++ close_message id ∷ [])

map-passes : (xs ys : List Message) → map passes xs ++ map passes ys ≡ map passes (xs ++ ys)
map-passes [] ys = refl
map-passes (x ∷ xs) ys = ap (◌∷◌ (passes x)) (map-passes xs ys)

pump_request :
    (dials : ℕ → Bool) (id : ℕ) (buffer : Bytes) (chunks : List Message)
    → All (IsChunk id) chunks
    → (dials id ≡ true
        → local_read_pump dials (map some (open_message id ∷ behind_open id buffer chunks))
          ≡ some (opens id ∷ map passes (behind_open id buffer chunks)))
      × (dials id ≡ false
          → local_read_pump dials (map some (open_message id ∷ behind_open id buffer chunks))
            ≡ none)
unfolding local_read_pump bytes_eq
pump_request dials id buffer chunks h =
    let tail =
      local_read_pump-chunks dials id chunks (close_message id ∷ [])
        (passes (close_message id) ∷ []) h (pump_close dials id) in
    (
      (λ e.
          rw (e, tail)
            (ap (λ t. some (opens id ∷ passes (write_message id buffer) ∷ t))
              (map-passes chunks (close_message id ∷ [])))),
      (λ e. rw e refl),
    )

ids :
    (id : ℕ) (chunks : List Message)
    → All (IsChunk id) chunks
    → All (λ m. m.id ≡ id) (chunks ++ close_message id ∷ [])
ids id [] h = (refl, tt)
ids id (m ∷ chunks) (h, hs) = (h.same_id, ids id chunks hs)

ws_request-copied :
    (id : ℕ) (buffer : Bytes) (b : Reader) (k : Copied)
    → bridge_copy id b ≡ some k
    → ws_request id buffer b
      ≡ some (record k { messages = open_message id ∷ behind_open id buffer k.messages })
unfolding ws_request
ws_request-copied id buffer b k e = rw (e, ws_request) refl

-- On a reader with a buffer and indices in order, whatever its connection sends, the messages of a
-- request over a websocket end, and count the bytes that they carry besides `buffer`. A client that can
-- dial its local proxy opens one bridge for them, and passes on messages of the same id whose bytes are
-- `buffer` and then those that the reader handed out, once and in order. One that cannot dial panics.
pub ws_request-local_read_pump :
    (dials : ℕ → Bool) (id : ℕ) (buffer : Bytes) (b : Reader)
    → IsReadable b
    → (k : Copied) × (taken : Bytes) × (ws_request id buffer b ≡ some k)
      × Hands b taken k.src
      × (k.written ≡ length taken)
      × (dials id ≡ true
          → (ms : List Message) × (local_read_pump dials (map some k.messages)
              ≡ some (opens id ∷ map passes ms))
            × (bodies ms ≡ buffer ++ taken)
            × All (λ m. m.id ≡ id) ms)
      × (dials id ≡ false → local_read_pump dials (map some k.messages) ≡ none)
unfolding bridge_copy
ws_request-local_read_pump dials id buffer b v =
    let (k, e, c) = copy_loop-IsCopy (suc (work b)) id b v (omega arith) in
    let (good, bad) = pump_request dials id buffer k.messages c.chunks in
    let carried : bodies (behind_open id buffer k.messages) ≡ buffer ++ bodies k.messages =
      ap (◌++◌ buffer)
        (bodies-append k.messages (close_message id ∷ []) ∙ append-nil (bodies k.messages)) in
    (
      record k { messages = open_message id ∷ behind_open id buffer k.messages },
      bodies k.messages,
      ws_request-copied id buffer b k e,
      c.hands,
      c.written,
      (λ d.
          (behind_open id buffer k.messages, good d, carried, (refl, ids id k.messages c.chunks))),
      bad,
    )
