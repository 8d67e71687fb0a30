-- ===== src/Transport/Backoff.antt =====
-- internal/transport/backoff.go. A duration is an int64 of nanoseconds. `rand` is rand.Int63n.
use native.Mathlib.Nat.{pow-suc}
use lanclip.Base.{
  ℕ, zero, suc, ◌+◌, ◌-◌, ◌*◌, ◌/◌, ◌^◌, ◌≤◌, ◌<◌, ◌≡◌, refl, ap, ◌∙◌, true, false, Option, none,
  some, arith, ◌==◌, leb, if◌then◌else◌, min, Bool-cases, inl, inr,
}
use lanclip.Base.Int64.{modulus, slt, wrap, sdiv}

pub record Backoff : Type 0 where
  pub attempt : ℕ
  pub min_delay : ℕ
  pub max_delay : ℕ

-- 250 * time.Millisecond and 10 * time.Second
abbrev pub default_min : ℕ
default_min = 250_000_000

abbrev pub default_max : ℕ
default_max = 10_000_000_000

abbrev pub or_default : ℕ → ℕ → ℕ
or_default d default = if d == 0 then default else d

-- The turns of `i < b.Attempt`, which compares signed numbers: none for a negative attempt.
abbrev pub turns : ℕ → ℕ
turns attempt = if slt 0 attempt then attempt else 0

-- for i := 0; i < b.Attempt && d < max; i++ { d *= 2 }, with the turns that are left
unfoldable pub grow : ℕ → ℕ → ℕ → ℕ
grow zero max d = d
grow (suc n) max d = elim (slt d max) [ true ↦ grow n max (wrap (d * 2)) | false ↦ d ]

abbrev pub capped : ℕ → ℕ → ℕ
capped max d = if slt max d then max else d

-- Next. `none` is the panic of rand.Int63n at an argument that is not positive.
unfoldable pub next : (ℕ → ℕ) → Backoff → Option (ℕ × Backoff)
unfolding grow
next rand b =
    let max = or_default b.max_delay default_max in
    let d = capped max (grow (turns b.attempt) max (or_default b.min_delay default_min)) in
    let n = wrap (sdiv d 4 + 1) in
    if slt 0 n
    then some
        (wrap (d + (modulus - sdiv d 8) + rand n), record b { attempt = wrap (b.attempt + 1) })
    else none

unfoldable pub reset : Backoff → Backoff
reset b = record b { attempt = 0 }

-- Doubling k times, up to the maximum.
abbrev pub doubled : ℕ → ℕ → ℕ → ℕ
doubled max d k = min max (d * 2 ^ k)

two_pow_pos : (k : ℕ) → 1 ≤ 2 ^ k
two_pow_pos zero = omega arith
two_pow_pos (suc k) = rw pow-suc (omega (arith, two_pow_pos k))

double_again : (d k : ℕ) → (d * 2) * 2 ^ k ≡ d * 2 ^ suc k
double_again d k = rw pow-suc (grind arith)

-- Below 2 ^ 62 the doubling does not wrap.
capped-grow :
    (k max d : ℕ) → max < 2 ^ 62 → d < 2 ^ 63 → capped max (grow k max d) ≡ doubled max d k
unfolding grow
capped-grow zero max d m h = ground arith
capped-grow (suc k) max d m h = elim (Bool-cases (slt d max)) [
  | inl e ↦
      let below : d < max = ground arith in
      let same : wrap (d * 2) ≡ d * 2 = omega arith in
      rw (e, grow)
        (capped-grow k max (wrap (d * 2)) m (omega arith)
          ∙ ap (λ x. min max (x * 2 ^ k)) same
          ∙ ap (min max) (double_again d k))
  | inr e ↦
      let above : max ≤ d = ground arith in
      let more : d ≤ d * 2 ^ suc k = grind (arith, two_pow_pos (suc k)) in
      rw (e, grow) (ground arith)
]

sdiv_small : (a k : ℕ) → a < 2 ^ 62 → sdiv a k ≡ a / k
sdiv_small a k h = ground arith

jitter :
    {A : Type 0} (rand : ℕ → ℕ) (base : ℕ) (j : A) (n e f : ℕ)
    → base < 2 ^ 62
    → e ≡ base / 4
    → f ≡ base / 8
    → n ≡ base / 4 + 1
    → rand (base / 4 + 1) < base / 4 + 1
    → if◌then◌else◌ {A = Option (ℕ × A)}
        (slt 0 (wrap (e + 1)))
        (some (wrap (base + (modulus - f) + rand (wrap (e + 1))), j))
        none
      ≡ some (base - base / 8 + rand (base / 4 + 1), j)
jitter rand base j n e f h p q s r =
    let arg : wrap (e + 1) ≡ base / 4 + 1 = omega arith in
    let value : wrap (base + (modulus - f) + rand (base / 4 + 1))
        ≡ base - base / 8 + rand (base / 4 + 1) =
      omega arith in
    rw arg (ground (arith, value))

turns_signed : (a : ℕ) → a < 2 ^ 64 → turns a ≡ (if leb (2 ^ 63) a then 0 else a)
turns_signed a h = ground (arith, h)

-- With delays below 2 ^ 62 nanoseconds Next does not panic, whatever the 64-bit count of attempts. The delay lies
-- between 7/8 and 9/8 of the shortest delay doubled once for each attempt, or not at all where the count
-- is negative, and capped by the longest; and the attempt is counted.
pub next_range :
    (rand : ℕ → ℕ)
    → ((n : ℕ) → 0 < n → rand n < n)
    → (b : Backoff) → b.attempt < 2 ^ 64
    → b.min_delay < 2 ^ 62
    → b.max_delay < 2 ^ 62
    → let base =
        doubled
          (or_default b.max_delay default_max)
          (or_default b.min_delay default_min)
          (if leb (2 ^ 63) b.attempt then 0 else b.attempt) in
      (v : ℕ) × (next rand b ≡ some (v, record b { attempt = wrap (b.attempt + 1) }))
      × (base - base / 8 ≤ v)
      × (v ≤ base - base / 8 + base / 4)
unfolding next
next_range rand r b a m n =
    let max = or_default b.max_delay default_max in
    let min' = or_default b.min_delay default_min in
    let base = doubled max min' (if leb (2 ^ 63) b.attempt then 0 else b.attempt) in
    let e : capped max (grow (turns b.attempt) max min') ≡ base =
      capped-grow (turns b.attempt) max min' (ground arith) (ground arith)
      ∙ ap (doubled max min') (turns_signed b.attempt a) in
    let small : base < 2 ^ 62 = (let longest : max < 2 ^ 62 = ground arith in omega arith) in
    let n' : ℕ = base / 4 + 1 in
    let drawn : rand n' < n' = r n' (omega arith) in
    (
      base - base / 8 + rand (base / 4 + 1),
      rw e (
          jitter rand base _ n' (sdiv base 4) (sdiv base 8) small (sdiv_small base 4 small)
            (sdiv_small base 8 small) refl drawn),
      omega arith,
      omega arith,
    )
