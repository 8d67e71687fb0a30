-- ===== src/Tests/Links.antt =====
-- internal/sync/suppression.go and internal/transport/backoff.go.
use lanclip.Base.{
  ℕ, ◌^◌, leb, if◌then◌else◌, ◌≡◌, refl, ◌-◌, ◌+◌, ◌/◌, ◌≤◌, ◌<◌, false, some, [], ◌∷◌, Text, codes,
  arith,
}
use lanclip.Base.Int64.{wrap}
use lanclip.Sync.{Suppressor, add, consume}
use lanclip.Sync.Echo.{Added, add-Added}
use lanclip.Transport.Backoff.{
  Backoff, next, doubled, or_default, default_min, default_max, next_range,
}

abbrev text_sum : Text → Text
text_sum t = t

abbrev waiting : Suppressor
waiting = record {
  ttl = 100;
  entries = record { event_id = []; hash = codes "old"; expires = 50 } ∷ [];
}

add-Added_example :
    Added text_sum 10 11
      (codes "new")
      waiting
      (add text_sum 10 11 (codes "e") (codes "new") waiting)
add-Added_example = add-Added text_sum 10 11 (codes "e") (codes "new") waiting

-- Once the entry has expired the text counts as new.
too_late :
    (consume text_sum 111 (codes "new") (add text_sum 10 11 (codes "e") (codes "new") waiting)).1
    ≡ false
unfolding consume add
too_late = refl

abbrev third : Backoff
third = record { attempt = 2; min_delay = 0; max_delay = 0 }

abbrev no_jitter : ℕ → ℕ
no_jitter n = 0

zero-below : (n : ℕ) → 0 < n → no_jitter n < n
zero-below n h = h

next_range_example :
    let base =
      doubled
        (or_default third.max_delay default_max)
        (or_default third.min_delay default_min)
        (if leb (2 ^ 63) third.attempt then 0 else third.attempt) in
    (v : ℕ) × (next no_jitter third ≡ some (v, record third { attempt = wrap (third.attempt + 1) }))
    × (base - base / 8 ≤ v)
    × (v ≤ base - base / 8 + base / 4)
next_range_example = next_range no_jitter zero-below third (omega arith) (omega arith) (omega arith)

-- The third delay: a second, less the eighth that no jitter gives back.
third_delay : next no_jitter third ≡ some (875_000_000, record third { attempt = 3 })
unfolding next
third_delay = refl
