-- ===== src/Daemon/Rate.antt =====
-- internal/daemon/daemon.go: `allowPairAttempt` and `pairRateKey`. A time is in nanoseconds since
-- Go's zero time, so that 0 is `IsZero`.
pub mod Limits
use lanclip.Base.{
  ℕ, ◌+◌, ◌-◌, ◌≤◌, ◌≡◌, Bool, true, false, not, ◌||◌, ◌&&◌, Option, none, some, List, [], ◌∷◌,
  ◌++◌, Text, codes, text_eq, ltb, leb, ◌==◌, if◌then◌else◌, length, take, drop, all,
}
use lanclip.Base.Dict.{Dict, lookup, insert, keep_values}

pub record Rate : Type 0 where
  pub window : ℕ
  pub count : ℕ

pub record Limiter : Type 0 where
  pub global : Rate
  pub rates : Dict Rate

abbrev pub minute : ℕ
minute = 60_000_000_000

abbrev pub max_pair_attempts_per_minute : ℕ
max_pair_attempts_per_minute = 10

abbrev pub max_global_pair_attempts : ℕ
max_global_pair_attempts = 64

abbrev pub max_pair_rate_entries : ℕ
max_pair_rate_entries = 256

-- now.Sub(window) >= time.Minute
abbrev pub is_over : ℕ → Rate → Bool
is_over now r = leb minute (now - r.window)

-- `if rate.window.IsZero() || now.Sub(rate.window) >= time.Minute { rate = pairRate{window: now} }`
abbrev pub renewed : ℕ → Rate → Rate
renewed now r = if r.window == 0 || is_over now r then record { window = now; count = 0 } else r

-- Go's map read: the zero value where the key is missing.
abbrev pub or_zero : Option Rate → Rate
or_zero none = record { window = 0; count = 0 }
or_zero (some r) = r

abbrev pub counted : Rate → Rate
counted r = record r { count = r.count + 1 }

-- The state once the windows that are over are renewed or dropped.
unfoldable pub refreshed : ℕ → Limiter → Limiter
refreshed now l = record {
  global = renewed now l.global;
  rates = keep_values (λ r. not (is_over now r)) l.rates;
}

-- The tests of allowPairAttempt on that state.
unfoldable pub admit : ℕ → Text → Limiter → Limiter × Bool
admit now host l =
    let found = or_zero (lookup host l.rates) in
    let rate = renewed now found in
    if found.window == 0 && leb max_pair_rate_entries (length l.rates)
    then (l, false)
    else if leb max_pair_attempts_per_minute rate.count
    then (l, false)
    else if leb max_global_pair_attempts l.global.count
    then (l, false)
    else (record { global = counted l.global; rates = insert host (counted rate) l.rates }, true)

-- allowPairAttempt, at the key of the host
unfoldable pub allow_pair_attempt : ℕ → Text → Limiter → Limiter × Bool
unfolding refreshed admit
allow_pair_attempt now host l = admit now host (refreshed now l)

-- net.ParseIP, as 16 bytes, and IP.String
pub record IpText : Type 0 where
  pub parse_ip : Text → Option Text
  pub show_ip : Text → Text
  pub trim : Text → Text

-- IP.To4: the last four bytes of an IPv4 address in its 16-byte form.
abbrev pub v4_prefix : Text
v4_prefix = 0 ∷ 0 ∷ 0 ∷ 0 ∷ 0 ∷ 0 ∷ 0 ∷ 0 ∷ 0 ∷ 0 ∷ 0xff ∷ 0xff ∷ []

abbrev pub is_v4 : Text → Bool
is_v4 ip = text_eq (take 12 ip) v4_prefix

-- ip.Mask(net.CIDRMask(64, 128))
abbrev pub mask_64 : Text → Text
mask_64 ip = take 8 ip ++ (0 ∷ 0 ∷ 0 ∷ 0 ∷ 0 ∷ 0 ∷ 0 ∷ 0 ∷ [])

unfoldable pub pair_rate_key : IpText → Text → Text
unfolding text_eq
pair_rate_key t host = elim (t.parse_ip (t.trim host)) [
  | none ↦ host
  | some ip ↦ if is_v4 ip then t.show_ip (drop 12 ip) else t.show_ip (mask_64 ip) ++ codes "/64"
]

-- A history of attempts, each with its time and the key of its host: the state after them, and how
-- many were allowed.
unfoldable pub attempts : List (ℕ × Text) → Limiter → Limiter × ℕ
attempts [] l = (l, 0)
attempts ((now, host) ∷ more) l =
    let (l', allowed) = allow_pair_attempt now host l in
    let (l'', n) = attempts more l' in (l'', if allowed then n + 1 else n)
