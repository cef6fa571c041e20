-- ===== src/Tools/Address.antt =====
-- utils/tools/string.go: `host:port` is taken apart at its last colon.
use anyproxy.Base.{
  ℕ, zero, suc, ◌+◌, ◌<◌, ◌≤◌, ◌≡◌, refl, ap, ◌∙◌, ◌≢◌, false, Bytes, codes, [], ◌∷◌, ◌++◌, ◌==◌,
  get_or, length, arith, Lacks, All, length-append, get_or-append_right, drop-append_cons,
  take-append_eq, IsDigit, itoa, itoa-IsDigit, atoi-itoa, bytes_eq_self, contains, min_i64,
  itoa_int,
}
use anyproxy.Tools.{get_port_from, get_port, get_remote_ip_from, get_remote_ip, fill_port}

get_or-Lacks : (b : ℕ) (s : Bytes) (i : ℕ) → Lacks b s → i < length s → (get_or s i 0 == b) ≡ false
get_or-Lacks b [] i h l = elim l [ ]
get_or-Lacks b (c ∷ s) zero h l = ground arith
get_or-Lacks b (c ∷ s) (suc i) h l = get_or-Lacks b s i h.1 (omega arith)

-- The loop passes the bytes of the port, from the end to the colon.
get_port_from-port :
    (host port : Bytes) (i n : ℕ)
    → n ≡ length host + i
    → Lacks b':' port
    → i ≤ length port
    → get_port_from (suc n) (host ++ b':' ∷ port) ≡ port
unfolding get_port_from
get_port_from-port host port zero n e h l = ground (
  arith,
  get_or-append_right host (b':' ∷ port) 0 n 0 e,
  drop-append_cons host port b':' n (omega arith),
)
get_port_from-port host port (suc i) zero e h l = absurd (omega arith)
get_port_from-port host port (suc i) (suc n) e h l = ground (
  arith,
  get_or-append_right host (b':' ∷ port) (suc i) (suc n) 0 e,
  get_or-Lacks b':' port i h (omega arith),
  get_port_from-port host port i n (omega arith) h (omega arith),
)

get_remote_ip_from-host :
    (host port : Bytes) (i n : ℕ)
    → n ≡ length host + i
    → host ≢ []
    → Lacks b':' port
    → i ≤ length port
    → get_remote_ip_from (suc n) (host ++ b':' ∷ port) ≡ host
unfolding get_remote_ip_from
get_remote_ip_from-host [] port i n e ne h l = absurd (ne refl)
get_remote_ip_from-host (x ∷ host) port i zero e ne h l = absurd (omega arith)
get_remote_ip_from-host (x ∷ host) port zero (suc n) e ne h l = ground (
  arith,
  get_or-append_right (x ∷ host) (b':' ∷ port) 0 (suc n) 0 e,
  take-append_eq (x ∷ host) (b':' ∷ port) (suc n) (omega arith),
)
get_remote_ip_from-host (x ∷ host) port (suc i) (suc n) e ne h l = ground (
  arith,
  get_or-append_right (x ∷ host) (b':' ∷ port) (suc i) (suc n) 0 e,
  get_or-Lacks b':' port i h (omega arith),
  get_remote_ip_from-host (x ∷ host) port i n (omega arith) ne h (omega arith),
)

-- For every address whose last colon is not its first byte, `GetPort` gives what stands behind
-- that colon and `GetRemoteIp` what stands before it.
pub get_port-get_remote_ip :
    (host port : Bytes)
    → host ≢ []
    → Lacks b':' port
    → (get_port (host ++ b':' ∷ port) ≡ port) × (get_remote_ip (host ++ b':' ∷ port) ≡ host)
unfolding get_port get_remote_ip
get_port-get_remote_ip host port ne h =
    let long = length-append host (b':' ∷ port) in
    let n = length host + length port in
    let e : length (host ++ b':' ∷ port) ≡ suc n = omega (arith, long) in
    (
      ap (λ k. get_port_from k (host ++ b':' ∷ port)) e
          ∙ get_port_from-port host port (length port) n refl h (omega arith),
      ap (λ k. get_remote_ip_from k (host ++ b':' ∷ port)) e
          ∙ get_remote_ip_from-host host port (length port) n refl ne h (omega arith),
    )

contains_colon-Lacks : (s : Bytes) → All IsDigit s → contains (codes ":") s ≡ false
unfolding contains
contains_colon-Lacks [] h = refl
contains_colon-Lacks (c ∷ s) (hc, hs) = ground (arith, contains_colon-Lacks s hs)

IsDigit-Lacks : (s : Bytes) → All IsDigit s → Lacks b':' s
IsDigit-Lacks [] h = tt
IsDigit-Lacks (c ∷ s) (hc, hs) = ((λ e. omega arith), IsDigit-Lacks s hs)

fill_port-itoa_lem : (n : ℕ) → n < min_i64 → fill_port (itoa n) ≡ b':' ∷ itoa n
unfolding fill_port itoa_int
fill_port-itoa_lem n b =
    ground
      (arith, contains_colon-Lacks (itoa n) (itoa-IsDigit n), atoi-itoa n b, bytes_eq_self (itoa n))

-- A text with a colon in front is left alone.
fill_port_colon : (s : Bytes) → fill_port (b':' ∷ s) ≡ b':' ∷ s
unfolding fill_port contains
fill_port_colon s = refl

get_port_bare : (s : Bytes) → Lacks b':' s → get_port (b':' ∷ s) ≡ s
unfolding get_port
get_port_bare s h = get_port_from-port [] s (length s) (length s) (omega arith) h (omega arith)

-- A bare port number is given its colon, `GetPort` gives the number back, and a second
-- `FillPort` changes nothing.
pub get_port-fill_port :
    (n : ℕ)
    → n < min_i64
    → (get_port (fill_port (itoa n)) ≡ itoa n)
      × (fill_port (fill_port (itoa n)) ≡ fill_port (itoa n))
get_port-fill_port n b =
    rw (fill_port-itoa_lem n b)
      (get_port_bare (itoa n) (IsDigit-Lacks (itoa n) (itoa-IsDigit n)), fill_port_colon (itoa n))
