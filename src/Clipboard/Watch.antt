-- ===== src/Clipboard/Watch.antt =====
-- A text that a watch event sends is the text that the service receives.
use mathlib.Core.Path.{subst}
use mathlib.Core.List.{append-nil}
use lanclip.Base.{
  ℕ, zero, suc, ◌*◌, ◌%◌, ◌^◌, ◌≤◌, ◌<◌, ◌≡◌, refl, ap, ◌∙◌, false, not, ◌||◌, none, some, List, [],
  ◌∷◌, Text, ltb, ◌==◌, length, take, ok, arith, Bool-cases, Option-cases, inl, inr, ◌⊎◌,
  length-take,
}
use lanclip.Protocol.{put_uint32, read_full, decode_length}
use lanclip.Protocol.Frames.{frame, read_full-append, header_read, decode_length-put_uint32}
use lanclip.Clipboard.{WatchIo, send_watch_event, accept_event, body_of, watch_wait, one_second}

-- The waits that there are, in seconds.
abbrev IsWait : ℕ → Type 0
IsWait d =
    (d ≡ one_second)
    ⊎ (d ≡ 2 * one_second)
    ⊎ (d ≡ 4 * one_second)
    ⊎ (d ≡ 8 * one_second)
    ⊎ (d ≡ 16 * one_second)

watch_wait-IsWait : (k : ℕ) → IsWait (watch_wait k)
unfolding watch_wait
watch_wait-IsWait zero = inl refl
watch_wait-IsWait (suc k) = ground (arith, watch_wait-IsWait k)

-- However often the watcher exits, the wait is between a second and 16 seconds.
pub watch_wait_bounds : (k : ℕ) → (one_second ≤ watch_wait k) × (watch_wait k ≤ 16 * one_second)
watch_wait_bounds k = ground (arith, watch_wait-IsWait k)

take_all : {A : Type 0} (n : ℕ) (b : List A) → length b ≤ n → take n b ≡ b
take_all zero [] h = refl
take_all zero (x ∷ b) h = absurd (omega arith)
take_all (suc n) [] h = refl
take_all (suc n) (x ∷ b) h = ap (λ l. x ∷ l) (take_all n b (omega arith))

body_of-length : (b : Text) → body_of (length b) b ≡ some b
unfolding body_of
body_of-length b =
    let whole : read_full (length b) b ≡ ok (b, []) =
      subst (λ s. read_full (length b) s ≡ ok (b, [])) (append-nil b) (read_full-append b []) in
    rw (whole, body_of)

-- A frame within the limit is received whole.
accept_event-frame :
    (max : ℕ) (b : Text)
    → 0 < length b
    → length b ≤ max
    → max < 2 ^ 32
    → accept_event max (frame b) ≡ some b
unfolding accept_event
accept_event-frame max b p q r =
    let n : decode_length (put_uint32 (length b)) ≡ length b =
      decode_length-put_uint32 (length b) (omega arith) in
    let good : (length b == 0 || ltb (max % 2 ^ 32) (length b)) ≡ false = ground arith in
    rw (header_read (length b) b, accept_event) (rw (n, good) (body_of-length b))

empty_input : (max : ℕ) (input : Text) → length (take (suc max) input) ≡ 0 → input ≡ []
empty_input max [] h = refl
empty_input max (x ∷ input) h = absurd (omega arith)

-- The bytes that a SendWatchEvent without an error has sent.
sent_frame :
    (io : WatchIo) (max : ℕ) (input : Text)
    → (send_watch_event io max input).1 ≡ ok tt
    → let b = take (suc max) input in
      ((length b ≡ 0) × ((send_watch_event io max input).0 ≡ none))
      ⊎ ((0 < length b) × (length b ≤ max) × ((send_watch_event io max input).0 ≡ some (frame b)))
unfolding send_watch_event
sent_frame io max input h =
    let b = take (suc max) input in
    elim (Bool-cases io.readable) [
      | inr r ↦ absurd (ground (arith, r))
      | inl r ↦ elim (Bool-cases (length b == 0)) [
        | inl z ↦ inl (ground (arith, z), ground (arith, r, z))
        | inr z ↦ elim (Bool-cases (ltb max (length b) || not io.dial)) [
          | inl x ↦ absurd (ground (arith, r, z, x))
          | inr x ↦ elim (Option-cases io.header_stops) [
            | inr (n, f) ↦ absurd (ground (arith, r, z, x, f))
            | inl f ↦ elim (Option-cases io.body_stops) [
              | inr (n, g) ↦ absurd (ground (arith, r, z, x, f, g))
              | inl g ↦ inr (ground (arith, z), ground (arith, x), ground (arith, r, z, x, f, g))
            ]
          ]
        ]
      ]
    ]

-- What SendWatchEvent puts on the socket without an error is received as its input; for an empty input
-- it makes no connection. The limit is the same on both sides, and below 2 ^ 32.
pub watch_event_arrives :
    (io : WatchIo) (max : ℕ) (input : Text)
    → max < 2 ^ 32
    → (send_watch_event io max input).1 ≡ ok tt
    → ((input ≡ []) × ((send_watch_event io max input).0 ≡ none))
      ⊎ ((sent : Text) × ((send_watch_event io max input).0 ≡ some sent)
          × (length input ≤ max)
          × (accept_event max sent ≡ some input))
watch_event_arrives io max input small h =
    let b = take (suc max) input in
    elim (sent_frame io max input h) [
      | inl (z, e) ↦ inl (empty_input max input z, e)
      | inr (p, q, e) ↦
          let short : length input ≤ max = omega (arith, q, length-take (suc max) input) in
          let same : b ≡ input = take_all (suc max) input (omega (arith, short)) in
          inr (frame b, e, short, accept_event-frame max b p q small ∙ ap some same)
    ]
