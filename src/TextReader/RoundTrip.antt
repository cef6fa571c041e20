-- ===== src/TextReader/RoundTrip.antt =====
-- proto/text/reader.go and proto/http/header.go: a header that was written is read again, however
-- the network cuts it.
use anyproxy.Base.{
  ℕ, zero, suc, ◌+◌, ◌≤◌, ◌<◌, ◌≡◌, refl, sym, ap, subst, ◌∙◌, false, Bytes, codes, List, [], ◌∷◌,
  ◌++◌, append_assoc, append-nil, length-append, Option, none, some, insert, bytes_key, bytes_eq,
  Lacks, All, All-append, length, arith, slice_empty, slice,
}
use anyproxy.TcpReader.{drop_break_of, ReadError, Reader}
use anyproxy.TcpReader.Stream.{arriving, stream, Inv}
use anyproxy.TcpReader.Peeks.{peek-Looks}
use anyproxy.TcpReader.Peers.{Calm, Calm-IsSteady}
use anyproxy.Header.{Header, values_of, clean_value}
use anyproxy.Header.Wire.{field_line, value_lines, lines, clean_value-Lacks}
use anyproxy.TextReader.{
  drop_break, is_blank, read_line_slice, stop, field_step, crlf, header_step, header_loop,
  starts_blank, read_fields, read_header,
}
use anyproxy.TextReader.Slice.{
  SliceEnd, whole_slice, cut_slice, GoodSlice, read_line_slice-GoodSlice,
}
use anyproxy.TextReader.Ending.{upcoming_header_newlines-Hands}
use anyproxy.TextReader.Field.{IsKey, field_text, header_step-next}

-- The first delimiter of a text is in one place.
cut_once :
    (d : ℕ) (p q s t : Bytes) → Lacks d p → Lacks d q → p ++ d ∷ s ≡ q ++ d ∷ t → (p ≡ q) × (s ≡ t)
cut_once d [] [] s t hp hq e = ground (arith, e)
cut_once d [] (c ∷ q) s t hp hq e = absurd (ground (arith, e, hq.0))
cut_once d (c ∷ p) [] s t hp hq e = absurd (ground (arith, e, hp.0))
cut_once d (c ∷ p) (c' ∷ q) s t hp hq e =
    let (e1, e2) = cut_once d p q s t hp.1 hq.1 (ground (arith, e)) in ground (arith, e1, e2, e)

not_cut : (d : ℕ) (p s t : Bytes) → Lacks d t → p ++ d ∷ s ≡ t → ⊥
not_cut d [] s [] h e = ground (arith, e)
not_cut d [] s (c ∷ t) h e = ground (arith, e, h.0)
not_cut d (c ∷ p) s [] h e = ground (arith, e)
not_cut d (c ∷ p) s (c' ∷ t) h e = not_cut d p s t h.1 (ground (arith, e))

-- A reader of a calm connection, with room for two bytes, that has `s` still to hand out.
pub record Holds (b : Reader) (s : Bytes) : Type 0 where
  pub two : 2 ≤ length b.buf
  pub inv : Inv b
  pub calm : Calm b.rd b.error
  pub holds : stream b ≡ s

abbrev SliceOf : Bytes → Bytes → Reader → Type 0
SliceOf p rest b =
    (c : Reader) × (read_line_slice false b ≡ some (c, p ++ b'\n' ∷ [], none)) × Holds c rest

-- The next line of such a reader is read whole.
pub line-Holds :
    (b : Reader) (p rest : Bytes) → Lacks b'\n' p → Holds b (p ++ b'\n' ∷ rest) → SliceOf p rest b
line-Holds b p rest lacks o =
    let (res, e, g) = read_line_slice-GoodSlice Calm Calm-IsSteady b o.two o.inv o.calm in
    ended res e g g.ending
  where
    ended :
        (res : Reader × Bytes × Option ReadError)
        → read_line_slice false b ≡ some res
        → (g : GoodSlice Calm Calm-IsSteady [] b res) → SliceEnd Calm Calm-IsSteady [] g.got res
        → SliceOf p rest b
    ended (c, line, x) e g (whole_slice ok_read before eq l r) =
        let same : p ++ b'\n' ∷ rest ≡ before ++ b'\n' ∷ stream c =
          sym o.holds
          ∙ g.hands.handed
          ∙ ap (λ t. t ++ stream c) eq
          ∙ append_assoc before (b'\n' ∷ []) (stream c) in
        let (e1, e2) = cut_once b'\n' p before rest (stream c) lacks l same in
        let whole_line : line ≡ p ++ b'\n' ∷ [] = r ∙ eq ∙ ap (λ t. t ++ b'\n' ∷ []) (sym e1) in
        (
          c,
          e ∙ ap (λ t. some (c, line, t)) ok_read ∙ ap (λ t. some (c, t, none)) whole_line,
          record {
            two = omega (arith, o.two, g.hands.same_size);
            inv = g.hands.inv;
            calm = g.keeps;
            holds = sym e2;
          },
        )
    ended (c, line, x) e g (cut_slice y l q at_end k) =
        let over : c.rd ≡ [] = (q.1 (λ h. ground (arith, h))).0 in
        let nothing : stream c ≡ [] =
          ap (λ t. slice c.r t c.buf ++ arriving c.rd) (sym at_end)
          ∙ ap (λ t. t ++ arriving c.rd) (slice_empty c.r c.buf)
          ∙ ap arriving over in
        absurd (
          not_cut b'\n' p rest g.got l
            (sym o.holds ∙ g.hands.handed ∙ ap (◌++◌ g.got) nothing ∙ append-nil g.got))

-- What the reader makes of the written lines: each value goes behind those of its key.
unfoldable pub received_values : Header → Bytes → List Bytes → Header
received_values m key [] = m
received_values m key (v ∷ vs) =
    received_values (insert key (values_of key m ++ clean_value v ∷ []) m) key vs

unfoldable pub received : Header → Header → Header
unfolding received_values
received m [] = m
received m ((key, vs) ∷ kvs) = received (received_values m key vs) kvs

abbrev pub Keys : Header → Type 0
Keys = All (λ kv. IsKey kv.0)

header_step_end :
    (m : Header) (hint : ℕ) (last : Bytes) → header_step m hint last crlf none ≡ stop m none
unfolding header_step field_step bytes_eq drop_break drop_break_of
header_step_end m hint last = ground arith

field_line-break :
    (key v : Bytes) (t : Bytes)
    → field_line key v ++ t ≡ (field_text key v ++ b'\r' ∷ []) ++ b'\n' ∷ t
field_line-break key v t = simp append_assoc

plain_line : (key v : Bytes) → IsKey key → Lacks b'\n' (field_text key v ++ b'\r' ∷ [])
plain_line key v k =
    All-append _ (field_text key v) (b'\r' ∷ [])
      (All-append _ key (codes ": " ++ clean_value v) k.no_break
        ((λ e. omega (arith, e)), ((λ e. omega (arith, e)), (clean_value-Lacks v).0)))
      ((λ e. omega (arith, e)), tt)

-- From `b` the loop gets to a reader that holds `s`, with the header `m'`.
Arrives : ℕ → Header → ℕ → Bytes → Reader → Header → Bytes → Type 0
Arrives fuel m hint last b m' s =
    (fuel' : ℕ) × (hint' : ℕ) × (last' : Bytes) × (c : Reader) × (header_loop fuel m hint last b
      ≡ header_loop fuel' m' hint' last' c)
    × Holds c s
    × (length s < fuel')

value-Arrives :
    (fuel : ℕ) (m : Header) (hint : ℕ) (last : Bytes) (b : Reader) (key v s : Bytes)
    → IsKey key
    → Holds b (field_line key v ++ s)
    → length (field_line key v ++ s) < fuel
    → Arrives fuel m hint last b (insert key (values_of key m ++ clean_value v ∷ []) m) s
unfolding Arrives header_loop
value-Arrives zero m hint last b key v s k o f = elim f [ ]
value-Arrives (suc fuel) m hint last b key v s k o f =
    let p = field_text key v ++ b'\r' ∷ [] in
    let broken = field_line-break key v s in
    let (c, e, h) = line-Holds b p s (plain_line key v k) (subst (Holds b) broken o) in
    let (hint', last', step) = header_step-next m hint last key v k in
    let kv : p ++ b'\n' ∷ [] ≡ field_text key v ++ crlf =
      append_assoc (field_text key v) (b'\r' ∷ []) (b'\n' ∷ []) in
    (
      fuel,
      hint',
      last',
      c,
      rw (e, kv, step, header_loop) refl,
      h,
      omega (arith, f, ap length broken, length-append p (b'\n' ∷ s)),
    )

values_arrive :
    (vs : List Bytes) (fuel : ℕ) (m : Header) (hint : ℕ) (last : Bytes) (b : Reader) (key s : Bytes)
    → IsKey key
    → Holds b (value_lines key vs ++ s)
    → length (value_lines key vs ++ s) < fuel
    → Arrives fuel m hint last b (received_values m key vs) s
unfolding Arrives received_values
values_arrive [] fuel m hint last b key s k o f = (fuel, hint, last, b, refl, o, f)
values_arrive (v ∷ vs) fuel m hint last b key s k o f =
    let apart = append_assoc (field_line key v) (value_lines key vs) s in
    let (f1, h1, l1, c1, e1, o1, s1) =
      value-Arrives fuel m hint last b key v (value_lines key vs ++ s) k (subst (Holds b) apart o)
        (omega (arith, f, ap length apart)) in
    let (f2, h2, l2, c2, e2, o2, s2) = values_arrive vs f1 _ h1 l1 c1 key s k o1 s1 in
    (f2, h2, l2, c2, e1 ∙ e2, o2, s2)

lines_arrive :
    (kvs : Header) (fuel : ℕ) (m : Header) (hint : ℕ) (last : Bytes) (b : Reader) (s : Bytes)
    → Keys kvs
    → Holds b (lines kvs ++ s)
    → length (lines kvs ++ s) < fuel
    → Arrives fuel m hint last b (received m kvs) s
unfolding Arrives received
lines_arrive [] fuel m hint last b s k o f = (fuel, hint, last, b, refl, o, f)
lines_arrive ((key, vs) ∷ kvs) fuel m hint last b s k o f =
    let apart = append_assoc (value_lines key vs) (lines kvs) s in
    let (f1, h1, l1, c1, e1, o1, s1) =
      values_arrive vs fuel m hint last b key (lines kvs ++ s) k.0 (subst (Holds b) apart o)
        (omega (arith, f, ap length apart)) in
    let (f2, h2, l2, c2, e2, o2, s2) =
      lines_arrive kvs f1 (received_values m key vs) h1 l1 c1 s k.1 o1 s1 in
    (f2, h2, l2, c2, e1 ∙ e2, o2, s2)

last_line :
    (fuel : ℕ) (m : Header) (hint : ℕ) (last : Bytes) (b : Reader) (s : Bytes)
    → Holds b (crlf ++ s)
    → length (crlf ++ s) < fuel
    → (c : Reader) × (header_loop fuel m hint last b ≡ some (c, m, none)) × Holds c s
unfolding header_loop
last_line zero m hint last b s o f = elim f [ ]
last_line (suc fuel) m hint last b s o f =
    let (c, e, h) = line-Holds b (b'\r' ∷ []) s ((λ x. omega (arith, x)), tt) o in
    (c, rw (e, header_step_end m hint last, header_loop) refl, h)

header_loop-received :
    (kvs : Header) (fuel hint : ℕ) (last : Bytes) (b : Reader) (s : Bytes)
    → Keys kvs
    → Holds b (lines kvs ++ (crlf ++ s))
    → length (lines kvs ++ (crlf ++ s)) < fuel
    → (c : Reader) × (header_loop fuel [] hint last b ≡ some (c, received [] kvs, none)) × Holds c s
unfolding Arrives
header_loop-received kvs fuel hint last b s k o f =
    let (f1, h1, l1, c1, e1, o1, s1) = lines_arrive kvs fuel [] hint last b (crlf ++ s) k o f in
    let (c, e, o2) = last_line f1 (received [] kvs) h1 l1 c1 s o1 s1 in (c, e1 ∙ e, o2)

values_not_blank :
    (vs : List Bytes) (key t : Bytes)
    → IsKey key
    → ((x : ℕ) (r : Bytes) → t ≡ x ∷ r → is_blank x ≡ false)
    → (x : ℕ) (r : Bytes) → value_lines key vs ++ t ≡ x ∷ r
    → is_blank x ≡ false
values_not_blank [] key t k after x r e = after x r e
values_not_blank (v ∷ vs) [] t k after x r e = absurd (k.not_empty refl)
values_not_blank (v ∷ vs) (c ∷ key) t k after x r e = ground (arith, e, k.no_space.0, k.no_tab.0)

lines_not_blank :
    (kvs : Header) (t : Bytes)
    → Keys kvs
    → ((x : ℕ) (r : Bytes) → t ≡ x ∷ r → is_blank x ≡ false)
    → (x : ℕ) (r : Bytes) → lines kvs ++ t ≡ x ∷ r
    → is_blank x ≡ false
lines_not_blank [] t k after x r e = after x r e
lines_not_blank ((key, vs) ∷ kvs) t k after x r e =
    values_not_blank vs key (lines kvs ++ t) k.0 (lines_not_blank kvs t k.1 after) x r
      (sym (append_assoc (value_lines key vs) (lines kvs) t) ∙ e)

crlf_not_blank : (s : Bytes) (x : ℕ) (r : Bytes) → crlf ++ s ≡ x ∷ r → is_blank x ≡ false
crlf_not_blank s x r e = ground (arith, e)

not_blank :
    (b : Reader) (buf : Bytes) (e : Option ReadError)
    → (e ≡ none → (length buf ≡ 1) × (rest : Bytes) × (stream b ≡ buf ++ rest))
    → ((x : ℕ) (r : Bytes) → stream b ≡ x ∷ r → is_blank x ≡ false)
    → starts_blank buf e ≡ false
not_blank b buf (some x) shows first = refl
not_blank b [] none shows first = absurd (omega (arith, (shows refl).0))
not_blank b (x ∷ buf) none shows first = let (long, rest, e) = shows refl in first x (buf ++ rest) e

-- A reader with room for two bytes, on a connection that sends without failing, however it cuts its
-- bytes, holds the lines of a header of good keys, an empty line and more. `ReadHeader` reads the
-- values of those lines, each behind those of its key, and leaves what follows the empty line.
pub read_header-received :
    (kvs : Header) (b : Reader) (s : Bytes)
    → Keys kvs
    → Holds b (lines kvs ++ (crlf ++ s))
    → (c : Reader) × (read_header b ≡ some (c, received [] kvs, none)) × Holds c s
unfolding read_header read_fields
read_header-received kvs b s k o =
    let (c, n, e, h, q) = upcoming_header_newlines-Hands Calm Calm-IsSteady b o.inv o.calm in
    let (r, e2, l) = peek-Looks Calm Calm-IsSteady 1 c h.inv q in
    let holds_c : stream c ≡ lines kvs ++ (crlf ++ s) = sym h.handed ∙ o.holds in
    let plain : starts_blank r.1 r.2 ≡ false =
      not_blank c r.1 r.2 l.shows
        (λ x t e3. lines_not_blank kvs (crlf ++ s) k (crlf_not_blank s) x t (sym holds_c ∙ e3)) in
    let o2 : Holds r.0 (lines kvs ++ (crlf ++ s)) = record {
      two = omega (arith, o.two, h.same_size, l.hands.same_size);
      inv = l.hands.inv;
      calm = l.keeps;
      holds = sym l.hands.handed ∙ holds_c;
    } in
    let (d, e4, rest) =
      header_loop-received kvs (length (stream r.0) + 1) n (0 ∷ 0 ∷ []) r.0 s k o2
        (omega (arith, ap length o2.holds)) in
    (d, rw (e, e2, plain, read_header, read_fields) e4, rest)
