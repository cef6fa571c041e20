-- ===== src/Request/Heads.antt =====
-- proto/http.go, proto/socks5.go: what the checks of the first bytes take.
use anyproxy.Base.{
  List, codes, subst, Lacks, to_upper, take, bytes_eq, bytes_eq_iff, index_byte, index_byte-split,
  Option-cases, ℕ, ◌≤◌, ◌≡◌, ◌⊎◌, inl, inr, refl, sym, ap, ◌∙◌, Bool, true, false, ◌&&◌, Bytes, [],
  ◌∷◌, ◌++◌, Option, none, some, ltb, leb, ◌==◌, length, get_or, if◌then◌else◌, arith, Bool-cases,
  negsuc,
}
use anyproxy.TcpReader.{ReadError, Reader, buffered, unread_buf}
use anyproxy.TcpReader.Stream.{stream, Inv, Hands, Hands-trans, unread_buf-Hands}
use anyproxy.TcpReader.Peeks.{Looks, peek-Looks}
use anyproxy.TcpReader.Peers.{Plain, Plain-IsSteady}
use anyproxy.Http.{one_of, http_methods, head_method, first_line_parts}
use anyproxy.Socks.{valid_head}
use anyproxy.Request.{read_first_line, valid_http_head}
use anyproxy.Request.Lines.{some_inj, read_line_slice-IsLine}

-- A text is one of those in the list.
abbrev pub Among : Bytes → List Bytes → Type 0
Among s [] = ⊥
Among s (t ∷ ts) = (t ≡ s) ⊎ Among s ts

-- A method of HTTP.
abbrev pub IsMethod : Bytes → Type 0
IsMethod m = Among m (
    codes "CONNECT"
    ∷ codes "OPTIONS"
    ∷ codes "DELETE"
    ∷ codes "TRACE"
    ∷ codes "POST"
    ∷ codes "HEAD"
    ∷ codes "GET"
    ∷ codes "PUT"
    ∷ [])

-- The first eight bytes of a stream have a space, and what stands before the first one is, in upper
-- case, a method of HTTP.
pub record Names (method s : Bytes) : Type 0 where
  pub first : Bytes
  pub rest : Bytes
  pub begins : (s ≡ first ++ rest) × (length first ≡ 8)
  pub word : Bytes
  pub after : Bytes
  pub spaced : (first ≡ word ++ b' ' ∷ after) × Lacks b' ' word
  pub named : to_upper word ≡ method
  pub known : IsMethod method

one_of-Among : (s : Bytes) (ts : List Bytes) → one_of s ts ≡ true → Among s ts
unfolding one_of
one_of-Among s [] h = absurd (ground (arith, h))
one_of-Among s (t ∷ ts) h = elim (Bool-cases (bytes_eq t s)) [
  | inl e ↦ inl ((bytes_eq_iff t s).0 e)
  | inr e ↦ inr (one_of-Among s ts (rw (e, one_of) at h))
]

-- The eight bytes that the check takes for a method, as they stand in the stream.
head_method-Names :
    (tmp rest s m : Bytes)
    → head_method tmp ≡ some m
    → (s ≡ tmp ++ rest) × (length tmp ≡ 8)
    → Names m s
unfolding head_method
head_method-Names tmp rest s m h begins = elim (Option-cases (index_byte b' ' tmp)) [
  | inl e ↦ absurd (ground (arith, rw (e, head_method) at h))
  | inr (i, e) ↦ elim (Bool-cases (one_of (to_upper (take i tmp)) http_methods)) [
    | inr f ↦ absurd (ground (arith, rw (e, f, head_method) at h))
    | inl f ↦
        let (after, eq, lacks) = index_byte-split b' ' tmp i e in
        let same : to_upper (take i tmp) ≡ m = some_inj _ m (rw (e, f, head_method) at h) in
        record {
          first = tmp;
          rest = rest;
          begins = begins;
          word = take i tmp;
          after = after;
          spaced = (eq, lacks);
          named = same;
          known = subst IsMethod same (one_of-Among (to_upper (take i tmp)) http_methods f);
        }
  ]
]

-- What the check for HTTP takes: nothing where it fails, or a line behind the name of a method.
abbrev pub HeadShape : Bytes → Bytes → Option (Bytes × Bytes × Bytes) → Type 0
HeadShape s taken r =
    ((taken ≡ []) × (r ≡ none))
    ⊎ ((m : Bytes) × Names m s × ((x : Bytes × Bytes × Bytes) → r ≡ some x → x.0 ≡ m))

pub record IsHead (b : Reader) (r : Reader × Option (Bytes × Bytes × Bytes)) : Type 0 where
  pub taken : Bytes
  pub hands : Hands b taken r.0
  pub keeps : Plain r.0.rd r.0.error
  pub shape : HeadShape (stream b) taken r.1

read_first_line-IsLine :
    (m : Bytes) (b : Reader)
    → 2 ≤ length b.buf
    → Inv b
    → Plain b.rd b.error
    → (r : Reader × Option (Bytes × Bytes × Bytes)) × (read_first_line m b ≡ some r)
      × ((taken : Bytes) × Hands b taken r.0
          × Plain r.0.rd r.0.error
          × ((x : Bytes × Bytes × Bytes) → r.1 ≡ some x → x.0 ≡ m))
unfolding read_first_line
read_first_line-IsLine m b two v p =
    let ((c, line, e), k, l) = read_line_slice-IsLine b two v p in
    rw (k, read_first_line) (of_line c line e l.taken l.hands l.keeps (first_line_parts line))
  where
    of_line :
        (c : Reader) (line : Bytes) (e : Option ReadError) (taken : Bytes)
        → Hands b taken c
        → Plain c.rd c.error
        → (parts : Option (Bytes × Bytes))
        → (r : Reader × Option (Bytes × Bytes × Bytes)) × ((elim e
              as (λ _. Option (Reader × Option (Bytes × Bytes × Bytes))) [
                | some x ↦ some (c, none)
                | none ↦ elim parts [
                  | none ↦ some (c, none)
                  | some parts ↦ some (c, some (m, parts.0, parts.1))
                ]
              ])
            ≡ some r)
          × ((taken : Bytes) × Hands b taken r.0
              × Plain r.0.rd r.0.error
              × ((x : Bytes × Bytes × Bytes) → r.1 ≡ some x → x.0 ≡ m))
    of_line c line (some e) taken h k parts =
        ((c, none), refl, (taken, h, k, (λ x f. absurd (ground (arith, f)))))
    of_line c line none taken h k none =
        ((c, none), refl, (taken, h, k, (λ x f. absurd (ground (arith, f)))))
    of_line c line none taken h k (some parts) = (
      (c, some (m, parts.0, parts.1)),
      refl,
      (taken, h, k, (λ x f. ap (λ y. y.0) (sym (some_inj {A = Bytes × Bytes × Bytes} _ x f)))),
    )

pub valid_http_head-IsHead :
    (b : Reader)
    → 2 ≤ length b.buf
    → Inv b
    → Plain b.rd b.error
    → (r : Reader × Option (Bytes × Bytes × Bytes)) × (valid_http_head b ≡ some r) × IsHead b r
unfolding valid_http_head
valid_http_head-IsHead b two v p = elim (Bool-cases (ltb (buffered b) 8)) [
  | inl few ↦
      rw (few, valid_http_head)
        (
          (b, none),
          refl,
          record {
            taken = [];
            hands = record { handed = refl; inv = v; same_size = refl };
            keeps = p;
            shape = inl (refl, refl);
          },
        )
  | inr many ↦
      let (r, e, l) = peek-Looks Plain Plain-IsSteady 8 b v p in
      rw (many, e, valid_http_head) (looked r l r.2 refl)
]
  where
    rest : Reader → Bytes → Option ReadError → Option (Reader × Option (Bytes × Bytes × Bytes))
    rest c tmp e = elim e as (λ _. Option (Reader × Option (Bytes × Bytes × Bytes))) [
      | some x ↦ some (c, none)
      | none ↦ elim (head_method tmp) [
        | none ↦ some (c, none)
        | some method ↦ read_first_line method c
      ]
    ]

    nothing : (c : Reader) → Hands b [] c → Plain c.rd c.error → IsHead b (c, none)
    nothing c h k = record { taken = []; hands = h; keeps = k; shape = inl (refl, refl) }

    of_method :
        (r : Reader × Bytes × Option ReadError)
        → Looks Plain Plain-IsSteady 8 b r
        → r.2 ≡ none
        → (n : Option Bytes) → head_method r.1 ≡ n
        → (o : Reader × Option (Bytes × Bytes × Bytes)) × ((elim n
              as (λ _. Option (Reader × Option (Bytes × Bytes × Bytes))) [
                | none ↦ some (r.0, none)
                | some method ↦ read_first_line method r.0
              ])
            ≡ some o)
          × IsHead b o
    of_method r l h none f = ((r.0, none), refl, nothing r.0 l.hands l.keeps)
    of_method r l h (some m) f =
        let (size, after, begins) = l.shows h in
        let (o, g, line) =
          read_first_line-IsLine m r.0 (omega (arith, two, l.hands.same_size)) l.hands.inv
            l.keeps in
        (
          o,
          g,
          record {
            taken = line.0;
            hands = Hands-trans l.hands line.1;
            keeps = line.2;
            shape = inr (m, head_method-Names r.1 after (stream b) m f (begins, size), line.3);
          },
        )

    looked :
        (r : Reader × Bytes × Option ReadError)
        → Looks Plain Plain-IsSteady 8 b r
        → (e : Option ReadError) → r.2 ≡ e
        → (o : Reader × Option (Bytes × Bytes × Bytes)) × (rest r.0 r.1 e ≡ some o) × IsHead b o
    looked r l (some x) h = ((r.0, none), refl, nothing r.0 l.hands l.keeps)
    looked r l none h = of_method r l h (head_method r.1) refl

-- The SOCKS5 check: nothing is taken where it fails, and where it succeeds the first byte is 5.
pub record IsSocksHead (b : Reader) (r : Reader × Bool) : Type 0 where
  pub taken : Bytes
  pub hands : Hands b taken r.0
  pub refused : r.1 ≡ false → taken ≡ []
  pub begins : r.1 ≡ true → (second : ℕ) × (rest : Bytes) × (stream b ≡ 5 ∷ second ∷ rest)

two_bytes :
    (s rest : Bytes)
    → length s ≡ 2
    → get_or s 0 0 == 5 ≡ true
    → (second : ℕ) × (s ++ rest ≡ 5 ∷ second ∷ rest)
two_bytes [] rest l e = absurd (omega (arith, l))
two_bytes (x ∷ []) rest l e = absurd (omega (arith, l))
two_bytes (x ∷ y ∷ []) rest l e = (y, ap (λ t. t ∷ y ∷ rest) (ground (arith, e)))
two_bytes (x ∷ y ∷ z ∷ s) rest l e = absurd (omega (arith, l))

pub valid_head-IsSocksHead :
    (b : Reader)
    → Inv b
    → Plain b.rd b.error
    → (r : Reader × Bool) × (valid_head b ≡ some r) × IsSocksHead b r
unfolding valid_head
valid_head-IsSocksHead b v p = elim (Bool-cases (ltb (buffered b) 2)) [
  | inl few ↦
      rw (few, valid_head)
        (
          (b, false),
          refl,
          record {
            taken = [];
            hands = record { handed = refl; inv = v; same_size = refl };
            refused = λ _. refl;
            begins = λ x. absurd (ground (arith, x));
          },
        )
  | inr many ↦
      let (r, e, l) = peek-Looks Plain Plain-IsSteady 2 b v p in
      rw (many, e, valid_head) (looked r l r.2 refl)
]
  where
    no : (c : Reader) → Hands b [] c → IsSocksHead b (c, false)
    no c h = record {
      taken = [];
      hands = h;
      refused = λ _. refl;
      begins = λ x. absurd (ground (arith, x));
    }

    looked :
        (r : Reader × Bytes × Option ReadError)
        → Looks Plain Plain-IsSteady 2 b r
        → (e : Option ReadError) → r.2 ≡ e
        → (o : Reader × Bool) × ((elim e as (λ _. Option (Reader × Bool)) [
          | some x ↦ some (r.0, false)
          | none ↦
              (if leb 2 (length r.1) && get_or r.1 0 0 == 5
                then some ((unread_buf (negsuc 0) r.0).0, true)
                else some (r.0, false))
        ])
            ≡ some o)
          × IsSocksHead b o
    looked r l (some x) h = ((r.0, false), refl, no r.0 l.hands)
    looked r l none h = elim (Bool-cases (leb 2 (length r.1) && get_or r.1 0 0 == 5)) [
      | inr f ↦ rw f ((r.0, false), refl, no r.0 l.hands)
      | inl f ↦
          let (size, after, begins) = l.shows h in
          let (u, same_rd) = unread_buf-Hands r.0 (negsuc 0) l.hands.inv in
          let (second, eq) = two_bytes r.1 after size (ground (arith, f)) in
          rw f (
            ((unread_buf (negsuc 0) r.0).0, true),
            refl,
            record {
              taken = (unread_buf (negsuc 0) r.0).1;
              hands = Hands-trans l.hands u;
              refused = λ x. absurd (ground (arith, x));
              begins = λ _. (second, after, begins ∙ eq);
            },
          )
    ]
