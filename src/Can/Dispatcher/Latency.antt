-- ===== src/Can/Dispatcher/Latency.antt =====
-- The latency statistics that src/Interface/Dispatcher.cpp keeps in a test build: in `reap_process` and
-- `get_latency_stats`. A frame of eight bytes carries the time at which it was sent, in nanoseconds.
use hy_can.Base.{
  Bool-cases, ap, ◌∙◌, inl, inr, refl, true, false, arith, All, leb, ◌==◌, if◌then◌else◌, ℕ, ◌+◌,
  ◌-◌, ◌*◌, ◌%◌, ◌^◌, ◌≤◌, ◌<◌, ◌≡◌, ◌&&◌, Option, none, some, List, [], ◌∷◌,
}
use hy_can.Can.Network.{CanFrame}

-- `accumulated_latency_ns` and `latency_message_count`, of 64 bits.
pub record Latency : Type 0 where
  pub accumulated_latency_ns : ℕ
  pub latency_message_count : ℕ

unfoldable pub no_latency : Latency
no_latency = record { accumulated_latency_ns = 0; latency_message_count = 0 }

-- `memcpy` of the bytes to a `uint64_t`, the lowest byte first.
unfoldable pub load_bytes : List ℕ → ℕ
load_bytes [] = 0
load_bytes (b ∷ bytes) = b + 256 * load_bytes bytes

-- `fetch_add` on an atomic of 64 bits.
abbrev pub add_64 : ℕ → ℕ → ℕ
add_64 a b = (a + b) % 2 ^ 64

-- What is received: the time of the clock, and the frame.
pub record Receipt : Type 0 where
  pub receive_time : ℕ
  pub frame : CanFrame

-- With the time that the frame carries. As a signed number a time of 2^63 or more is negative, and
-- the difference is too large for one: `none` is the overflow, where the behaviour is undefined.
record_latency : ℕ → ℕ → Latency → Option Latency
record_latency receive_time sent l =
    if leb (2 ^ 63) sent && leb (2 ^ 63) (receive_time + (2 ^ 64 - sent))
    then none
    else if leb (2 ^ 63) sent
    then some (record {
      accumulated_latency_ns = add_64 l.accumulated_latency_ns (receive_time + (2 ^ 64 - sent));
      latency_message_count = add_64 l.latency_message_count 1;
    })
    else if leb sent receive_time
    then some (record {
      accumulated_latency_ns = add_64 l.accumulated_latency_ns (receive_time - sent);
      latency_message_count = add_64 l.latency_message_count 1;
    })
    else some l

-- The part of the reaper's round between the `read` and the lock.
unfoldable pub measure : Receipt → Latency → Option Latency
unfolding record_latency
measure r l =
    if r.frame.len == 8 then record_latency r.receive_time (load_bytes r.frame.bytes) l else some l

unfoldable pub measures : List Receipt → Latency → Option Latency
measures [] l = some l
measures (r ∷ rs) l = elim (measure r l) [ none ↦ none | some l' ↦ measures rs l' ]

-- `LatencyStats`, with the division of the average left to the argument.
pub record LatencyStats (R : Type 0) : Type 0 where
  pub total_latency_ns : ℕ
  pub message_count : ℕ
  pub average_latency_us : R

-- `get_latency_stats`
unfoldable pub get_latency_stats : {R : Type 0} → R → (ℕ → ℕ → R) → Latency → LatencyStats R
get_latency_stats zero_us average l = record {
  total_latency_ns = l.accumulated_latency_ns;
  message_count = l.latency_message_count;
  average_latency_us =
      if leb 1 l.latency_message_count
      then average l.accumulated_latency_ns l.latency_message_count
      else zero_us;
}

-- A frame of eight bytes was sent before it was received, and the clock is far from its end.
abbrev pub IsTimed : Receipt → Type 0
IsTimed r =
    (r.receive_time < 2 ^ 63)
    × ((r.frame.len == 8) ≡ true → load_bytes r.frame.bytes ≤ r.receive_time)

-- The number of frames of eight bytes, and the time that they took altogether.
unfoldable pub timed_count : List Receipt → ℕ
timed_count [] = 0
timed_count (r ∷ rs) = (if r.frame.len == 8 then 1 else 0) + timed_count rs

unfoldable pub timed_total : List Receipt → ℕ
timed_total [] = 0
timed_total (r ∷ rs) =
    (if r.frame.len == 8 then r.receive_time - load_bytes r.frame.bytes else 0) + timed_total rs

add_64_small : (a b : ℕ) → a + b < 2 ^ 64 → add_64 a b ≡ a + b
add_64_small a b h = omega arith

record_latency_lem :
    (receive_time sent : ℕ) (l : Latency)
    → receive_time < 2 ^ 63
    → sent ≤ receive_time
    → record_latency receive_time sent l
      ≡ some (record {
        accumulated_latency_ns = add_64 l.accumulated_latency_ns (receive_time - sent);
        latency_message_count = add_64 l.latency_message_count 1;
      })
unfolding record_latency
record_latency_lem receive_time sent l clock le =
    let small : leb (2 ^ 63) sent ≡ false = grind arith in
    let ordered : leb sent receive_time ≡ true = grind arith in rw small (rw ordered refl)

abbrev latency : ℕ → ℕ → Latency
latency a n = record { accumulated_latency_ns = a; latency_message_count = n }

-- What one receipt adds.
abbrev time_of : Receipt → ℕ
time_of r = if r.frame.len == 8 then r.receive_time - load_bytes r.frame.bytes else 0

abbrev count_of : Receipt → ℕ
count_of r = if r.frame.len == 8 then 1 else 0

measure_lem :
    (r : Receipt) (l : Latency)
    → IsTimed r
    → l.accumulated_latency_ns + time_of r < 2 ^ 64
    → l.latency_message_count + count_of r < 2 ^ 64
    → measure r l
      ≡ some (latency (l.accumulated_latency_ns + time_of r) (l.latency_message_count + count_of r))
unfolding measure
measure_lem r l timed total count = elim (Bool-cases (r.frame.len == 8)) [
  | inl eight ↦
      let sent = load_bytes r.frame.bytes in
      let a : l.accumulated_latency_ns + (r.receive_time - sent) < 2 ^ 64 =
        ground (arith, total, eight) in
      let n : l.latency_message_count + 1 < 2 ^ 64 = ground (arith, count, eight) in
      rw eight (
        record_latency_lem r.receive_time sent l timed.0 (timed.1 eight)
        ∙ ap some (λ k.
          latency (add_64_small l.accumulated_latency_ns (r.receive_time - sent) a k)
            (add_64_small l.latency_message_count 1 n k)))
  | inr other ↦
      let a : l.accumulated_latency_ns ≡ l.accumulated_latency_ns + 0 = omega arith in
      let n : l.latency_message_count ≡ l.latency_message_count + 0 = omega arith in
      rw other (ap some (λ k. latency (a k) (n k)))
]

measures_lem :
    (rs : List Receipt) (l : Latency)
    → All IsTimed rs
    → l.accumulated_latency_ns + timed_total rs < 2 ^ 64
    → l.latency_message_count + timed_count rs < 2 ^ 64
    → measures rs l
      ≡ some (record {
        accumulated_latency_ns = l.accumulated_latency_ns + timed_total rs;
        latency_message_count = l.latency_message_count + timed_count rs;
      })
unfolding measures timed_count timed_total
measures_lem [] l h total count =
    let a : l.accumulated_latency_ns ≡ l.accumulated_latency_ns + 0 = omega arith in
    let n : l.latency_message_count ≡ l.latency_message_count + 0 = omega arith in
    ap some (λ k. latency (a k) (n k))
measures_lem (r ∷ rs) l h total count =
    let l' =
      latency (l.accumulated_latency_ns + time_of r) (l.latency_message_count + count_of r) in
    let a : l'.accumulated_latency_ns + timed_total rs
        ≡ l.accumulated_latency_ns + (time_of r + timed_total rs) =
      omega arith in
    let n : l'.latency_message_count + timed_count rs
        ≡ l.latency_message_count + (count_of r + timed_count rs) =
      omega arith in
    rw (measure_lem r l h.0 (omega (arith, total)) (omega (arith, count)), measures)
      (measures_lem rs l' h.1 (omega (arith, total, a)) (omega (arith, count, n))
        ∙ ap some (λ k. latency (a k) (n k)))

-- When the clock is below 2^63 nanoseconds and each frame of eight bytes carries a time that is not
-- after the one at which it is received,
-- the statistics are the number of these frames and the sum of the times that they took, as long as
-- both fit in 64 bits; frames of another length do not count.
pub get_latency_stats_lem :
    {R : Type 0} (zero_us : R) (average : ℕ → ℕ → R) (rs : List Receipt)
    → All IsTimed rs
    → timed_total rs < 2 ^ 64
    → timed_count rs < 2 ^ 64
    → (l : Latency) × (measures rs no_latency ≡ some l)
      × let stats = get_latency_stats zero_us average l in
        (stats.total_latency_ns ≡ timed_total rs)
        × (stats.message_count ≡ timed_count rs)
        × (stats.average_latency_us ≡ (
            if leb 1 (timed_count rs) then average (timed_total rs) (timed_count rs) else zero_us))
unfolding get_latency_stats no_latency
get_latency_stats_lem zero_us average rs h total count =
    let e = measures_lem rs (latency 0 0) h (omega (arith, total)) (omega (arith, count)) in
    let a : 0 + timed_total rs ≡ timed_total rs = omega arith in
    let n : 0 + timed_count rs ≡ timed_count rs = omega arith in
    (
      latency (timed_total rs) (timed_count rs),
      e ∙ ap some (λ k. latency (a k) (n k)),
      (refl, refl, refl),
    )
