-- ===== src/Http/Body.antt =====
-- proto/http.go: `readBody` and the bytes of the body that are still to come.
use anyproxy.Base.{
  ℕ, ◌-◌, false, Bytes, codes, none, some, bytes_eq, bytes_key, bytes_eq_self, lookup, length, ℤ,
  pos, ◌≡◌, ◌≤◌, arith,
}
use anyproxy.Header.{Header}
use anyproxy.TcpReader.{Reader}
use anyproxy.TcpReader.Stream.{Inv, Hands, unread_buf-Hands, unread_buf-le}
use anyproxy.Http.{first_value, parse_content_length, take_body, read_body}

-- What `readBody` took: the body is the next bytes of the stream, at most `n` of them, and the count
-- kept is that of the bytes of the `n` that are left.
pub record IsBodyOf (n : ℕ) (b : Reader) (r : Reader × Bytes × ℤ) : Type 0 where
  pub taken : Hands b r.1 r.0
  pub bounded : length r.1 ≤ n
  pub left : r.2 ≡ pos (n - length r.1)

take_body-IsBodyOf : (n : ℕ) (b : Reader) → Inv b → IsBodyOf n b (take_body (pos n) b)
unfolding take_body
take_body-IsBodyOf n b v =
    let short = unread_buf-le n b v in
    record {
      taken = (unread_buf-Hands b (pos n) v).0;
      bounded = short;
      left = ground (arith, short);
    }

-- For an HTTP/1.1 request that is no `CONNECT`, has no `Connection` and no `Transfer-Encoding`, and has
-- a content length of `n`, on a reader whose indices are in order and in its buffer: the body taken
-- is the next bytes of the stream, at most `n`, and the count kept is that of the `n` bytes left.
pub read_body-IsBodyOf :
    (method : Bytes) (h : Header) (b : Reader) (cl : Bytes) (n : ℕ)
    → Inv b
    → bytes_eq method (codes "CONNECT") ≡ false
    → lookup (codes "Connection") h ≡ none
    → lookup (codes "Transfer-Encoding") h ≡ none
    → first_value (codes "Content-Length") h ≡ some cl
    → parse_content_length cl ≡ some (pos n)
    → IsBodyOf n b (read_body method (codes "HTTP/1.1") h b)
unfolding read_body
read_body-IsBodyOf method h b cl n v m up te first len =
    rw (m, up, te, first, len, bytes_eq_self (codes "HTTP/1.1")) (take_body-IsBodyOf n b v)
