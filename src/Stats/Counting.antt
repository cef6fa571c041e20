-- ===== src/Stats/Counting.antt =====
-- proto/stats/counter.go: what the printed lines lose of the bytes that were added.
use anyproxy.Base.{ℕ, ◌+◌, ◌*◌, ◌≤◌, ◌<◌, List, [], ◌∷◌, Option, none, some, arith}
use anyproxy.Stats.{Counter, Line, megabytes, kilobytes, plain_bytes, add, print_line}

-- One call of `Add`: the bytes, the minute of the hour, and the time.
pub record Delta : Type 0 where
  pub bytes : ℕ
  pub minute : ℕ
  pub now : ℕ

-- The bytes that a printed line stands for, at least and at most.
abbrev pub least : Line → ℕ
least (megabytes n) = n * 1000000
least (kilobytes n) = n * 1000
least (plain_bytes n) = n

abbrev pub most : Line → ℕ
most (megabytes n) = n * 1000000 + 999999
most (kilobytes n) = n * 1000 + 999
most (plain_bytes n) = n

abbrev sum_of : (Line → ℕ) → Option Line → ℕ
sum_of f none = 0
sum_of f (some line) = f line

-- The counter after the calls, and what the lines printed stand for at least and at most.
pub record Printed : Type 0 where
  pub counter : Counter
  pub at_least : ℕ
  pub at_most : ℕ

abbrev pub add_all : Counter → List Delta → Printed
add_all c [] = record { counter = c; at_least = 0; at_most = 0 }
add_all c (d ∷ ds) =
    let a = add c d.bytes d.minute d.now in
    let rest = add_all a.counter ds in
    record {
      counter = rest.counter;
      at_least = sum_of least a.printed + rest.at_least;
      at_most = sum_of most a.printed + rest.at_most;
    }

abbrev pub total : List Delta → ℕ
total [] = 0
total (d ∷ ds) = d.bytes + total ds

print_line-bounds :
    (tmp : ℕ)
    → tmp < 9223372036854775808
    → (least (print_line tmp) ≤ tmp) × (tmp ≤ most (print_line tmp))
unfolding print_line
print_line-bounds tmp h = ground (arith, h)

add-balance :
    (c : Counter) (d : Delta)
    → c.value + d.bytes < 9223372036854775808
    → let a = add c d.bytes d.minute d.now in
      (a.counter.value + sum_of least a.printed ≤ c.value + d.bytes)
      × (c.value + d.bytes ≤ a.counter.value + sum_of most a.printed)
unfolding add
add-balance c d h = ground (arith, h, print_line-bounds (c.value + d.bytes) h)

-- Where the value and the bytes added fit in an int64 together, no byte is counted twice between the
-- value and the printed lines, and none is lost but by the rounding of the lines: those below the
-- megabyte, or the kilobyte, of a line printed in that unit.
pub add_all-balance :
    (c : Counter) (ds : List Delta)
    → c.value + total ds < 9223372036854775808
    → let r = add_all c ds in
      (r.counter.value + r.at_least ≤ c.value + total ds)
      × (c.value + total ds ≤ r.counter.value + r.at_most)
add_all-balance c [] h = (omega arith, omega arith)
add_all-balance c (d ∷ ds) h =
    let (low, high) = add-balance c d (omega (arith, h)) in
    let (rest_low, rest_high) =
      add_all-balance (add c d.bytes d.minute d.now).counter ds (omega (arith, h, low)) in
    (omega (arith, low, rest_low), omega (arith, high, rest_high))
