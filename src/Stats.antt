-- ===== src/Stats.antt =====
-- proto/stats: byte counters, and the manager that shares them by name. The manager's map holds
-- pointers: a counter is a place in `heap`, and the map gives its place. The mutexes make each call
-- one step.
pub mod Counting
pub mod Sharing
use anyproxy.Base.{
  ℕ, ◌+◌, ◌/◌, ◌%◌, ◌^◌, Bool, true, false, ◌&&◌, not, Bytes, List, [], ◌∷◌, ◌++◌, Option, none,
  some, ltb, ◌==◌, if◌then◌else◌, get_or, set, length, Map, lookup, insert, erase, bytes_key,
}

-- `Counter`; `value` is an int64 as its bit pattern
pub record Counter : Type 0 where
  pub name : Bytes
  pub active : ℕ
  pub minute : ℕ
  pub value : ℕ

-- What `Add` prints: a number of megabytes, kilobytes or bytes.
pub data Line : Type 0 where
  megabytes kilobytes plain_bytes : ℕ → Line

abbrev pub i64_mod : ℕ
i64_mod = 18446744073709551616

-- `tmp > k` on int64
abbrev over : ℕ → ℕ → Bool
over tmp k = ltb k tmp && ltb tmp 9223372036854775808

unfoldable pub print_line : ℕ → Line
print_line tmp =
    if over tmp 1000000
    then megabytes (tmp / 1000000)
    else if over tmp 1000
    then kilobytes (tmp / 1000)
    else plain_bytes tmp

-- The outcome of `Add`: the counter, the result, and the line printed.
pub record Added : Type 0 where
  pub counter : Counter
  pub result : ℕ
  pub printed : Option Line

-- `Add`, in the minute `minute` of the hour and at `now` seconds. The swap returns the old total.
unfoldable pub add : Counter → ℕ → ℕ → ℕ → Added
unfolding print_line
add c delta minute now =
    let tmp = (c.value + delta) % i64_mod in
    if not (minute == c.minute)
    then record {
      counter = record c { minute = minute; active = now; value = 0 };
      result = tmp;
      printed = some (print_line tmp);
    }
    else record { counter = record c { value = tmp }; result = tmp; printed = none }

pub record Manager : Type 0 where
  pub heap : List Counter
  pub counters : Map Bytes ℕ

-- `NewManager`
abbrev pub new_manager : Manager
new_manager = record { heap = []; counters = [] }

abbrev pub no_counter : Counter
no_counter = record { name = []; active = 0; minute = 0; value = 0 }

abbrev pub counter_at : List Counter → ℕ → Counter
counter_at heap i = get_or heap i no_counter

-- `RegisterCounter` at `now`: the manager afterwards, and the place of the counter
unfoldable pub register_counter : Manager → Bytes → ℕ → Manager × ℕ
register_counter m name now = elim (lookup name m.counters) [
  | some i ↦ (record m { heap = set m.heap i (record (counter_at m.heap i) { active = now }) }, i)
  | none ↦ (
    record {
      heap = m.heap ++ (record no_counter { name = name } ∷ []);
      counters = insert name (length m.heap) m.counters;
    },
    length m.heap,
  )
]

-- the loop of `UnregisterCounter` over the entries of the map
sweep : List Counter → ℕ → Map Bytes ℕ → Map Bytes ℕ → Map Bytes ℕ
sweep heap now [] counters = counters
sweep heap now ((k, i) ∷ entries) counters =
    let c = counter_at heap i in
    sweep heap now entries (if ltb (c.active + 300) now then erase c.name counters else counters)

-- `UnregisterCounter` at `now`
unfoldable pub unregister_counter : Manager → ℕ → Manager
unfolding sweep
unregister_counter m now = record m { counters = sweep m.heap now m.counters m.counters }
