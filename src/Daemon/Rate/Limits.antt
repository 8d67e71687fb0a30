-- ===== src/Daemon/Rate/Limits.antt =====
-- How many pairing attempts get through in a minute.
use lanclip.Base.{
  ℕ, ◌+◌, ◌≤◌, ◌<◌, ◌≡◌, refl, ap, ◌⊎◌, true, false, not, ◌&&◌, List, [], ◌∷◌, Text, leb, ◌==◌,
  length, arith, Bool-cases, Option-cases, inl, inr,
}
use lanclip.Base.Dict.{
  lookup, insert, NodupKeys, Every, insert-NodupKeys, keep_values-NodupKeys, length-insert,
  length-keep_values-le,
}
use lanclip.Base.Entries.{insert-Every, keep_values-Every}
use lanclip.Daemon.Rate.{
  Rate, Limiter, minute, max_pair_attempts_per_minute, max_global_pair_attempts,
  max_pair_rate_entries, is_over, renewed, or_zero, counted, refreshed, admit, allow_pair_attempt,
  attempts,
}

abbrev pub WithinHost : Text → Rate → Type 0
WithinHost host r = (r.count ≤ max_pair_attempts_per_minute) × (0 < r.window)

pub record IsBounded (l : Limiter) : Type 0 where
  pub global_count : l.global.count ≤ max_global_pair_attempts
  pub host_counts : Every WithinHost l.rates
  pub entries : length l.rates ≤ max_pair_rate_entries
  pub nodup : NodupKeys l.rates

refreshed-IsBounded : (now : ℕ) (l : Limiter) → IsBounded l → IsBounded (refreshed now l)
unfolding refreshed
refreshed-IsBounded now l b = record {
  global_count = ground (arith, b.global_count);
  host_counts = keep_values-Every WithinHost _ l.rates b.host_counts;
  entries = omega (arith, b.entries, length-keep_values-le (λ r. not (is_over now r)) l.rates);
  nodup = keep_values-NodupKeys _ l.rates b.nodup;
}

-- The entry that is counted was among the entries, or there was room for it.
room :
    (now : ℕ) (host : Text) (l : Limiter) (r : Rate)
    → IsBounded l
    → ((or_zero (lookup host l.rates)).window == 0 && leb max_pair_rate_entries (length l.rates))
      ≡ false
    → length (insert host r l.rates) ≤ max_pair_rate_entries
room now host l r b h = elim (Option-cases (lookup host l.rates)) [
  | inl e ↦ ground (arith, length-insert host r l.rates, e, h)
  | inr (q, e) ↦ ground (arith, length-insert host r l.rates, e, b.entries)
]

admit-IsBounded :
    (now : ℕ) (host : Text) (l : Limiter) → 0 < now → IsBounded l → IsBounded (admit now host l).0
unfolding admit
admit-IsBounded now host l p b =
    let found = or_zero (lookup host l.rates) in
    let rate = renewed now found in
    elim (Bool-cases (found.window == 0 && leb max_pair_rate_entries (length l.rates))) [
      | inl full ↦ rw full b
      | inr free ↦ elim (Bool-cases (leb max_pair_attempts_per_minute rate.count)) [
        | inl many ↦ rw (free, many) b
        | inr few ↦ elim (Bool-cases (leb max_global_pair_attempts l.global.count)) [
          | inl busy ↦ rw (free, few, busy) b
          | inr calm ↦
              rw (free, few, calm)
                (record {
                  global_count = ground (arith, calm);
                  host_counts =
                      insert-Every WithinHost host (counted rate) l.rates
                        (ground arith, ground arith) b.host_counts;
                  entries = room now host l (counted rate) b free;
                  nodup = insert-NodupKeys host (counted rate) l.rates b.nodup;
                })
        ]
      ]
    ]

-- At any time after Go's zero time an attempt, allowed or not, leaves at most 64 attempts counted in
-- all, at most 10 for each host, and at most 256 hosts.
pub allow_pair_attempt-IsBounded :
    (now : ℕ) (host : Text) (l : Limiter)
    → 0 < now
    → IsBounded l
    → IsBounded (allow_pair_attempt now host l).0
unfolding allow_pair_attempt
allow_pair_attempt-IsBounded now host l p b =
    admit-IsBounded now host (refreshed now l) p (refreshed-IsBounded now l b)

-- Inside the current window an attempt is counted if it is allowed, and then there was room.
counts_once :
    (now : ℕ) (host : Text) (l : Limiter)
    → 0 < l.global.window
    → now < l.global.window + minute
    → let r = allow_pair_attempt now host l in
      ((r.1 ≡ true) × (r.0.global ≡ counted l.global) × (l.global.count < max_global_pair_attempts))
      ⊎ ((r.1 ≡ false) × (r.0.global ≡ l.global))
unfolding allow_pair_attempt admit refreshed
counts_once now host l p h =
    let same : renewed now l.global ≡ l.global = ground arith in
    let rates = (refreshed now l).rates in
    let found = or_zero (lookup host rates) in
    let rate = renewed now found in
    elim (Bool-cases (found.window == 0 && leb max_pair_rate_entries (length rates))) [
      | inl full ↦ rw full (inr (refl, same))
      | inr free ↦ elim (Bool-cases (leb max_pair_attempts_per_minute rate.count)) [
        | inl many ↦ rw (free, many) (inr (refl, same))
        | inr few ↦ elim (Bool-cases (leb max_global_pair_attempts (renewed now l.global).count)) [
          | inl busy ↦ rw (free, few, busy) (inr (refl, same))
          | inr calm ↦
              rw (free, few, calm) (inl (refl, ap counted same, ground (arith, calm, same)))
        ]
      ]
    ]

-- Every time of the history lies before the end of the window.
abbrev pub Before : ℕ → List (ℕ × Text) → Type 0
Before end [] = Unit
Before end ((now, host) ∷ more) = (now < end) × Before end more

-- Of all attempts inside one window, from whatever hosts, no more are allowed than bring the count
-- of the window to 64.
pub attempts_in_window :
    (history : List (ℕ × Text)) (l : Limiter)
    → 0 < l.global.window
    → l.global.count ≤ max_global_pair_attempts
    → Before (l.global.window + minute) history
    → l.global.count + (attempts history l).1 ≤ max_global_pair_attempts
unfolding attempts
attempts_in_window [] l p c b = omega arith
attempts_in_window ((now, host) ∷ more) l p c b =
    let l' = (allow_pair_attempt now host l).0 in
    elim (counts_once now host l p b.0) [
      | inl (e, g, room) ↦
          let w : l'.global.window ≡ l.global.window = ap (λ r. r.window) g in
          let k : l'.global.count ≡ l.global.count + 1 = ap (λ r. r.count) g in
          rw e (
            omega (
              arith,
              k,
              attempts_in_window more l' (omega (arith, w, p)) (omega (arith, k, room)) (rw w b.1),
            ))
      | inr (e, g) ↦
          let w : l'.global.window ≡ l.global.window = ap (λ r. r.window) g in
          let k : l'.global.count ≡ l.global.count = ap (λ r. r.count) g in
          rw e (
            omega (
              arith,
              k,
              attempts_in_window more l' (omega (arith, w, p)) (omega (arith, k, c)) (rw w b.1),
            ))
    ]
