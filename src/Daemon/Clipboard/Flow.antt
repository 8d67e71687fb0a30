-- ===== src/Daemon/Clipboard/Flow.antt =====
-- What the reader of a connection lets through.
use lanclip.Base.{
  ℕ, ◌+◌, ◌-◌, ◌≤◌, ◌<◌, ◌≡◌, refl, ap, Bool, true, false, not, ◌&&◌, List, [], ◌∷◌, ◌++◌, Text,
  codes, text_eq, ltb, leb, if◌then◌else◌, length, arith, Bool-cases, inl, inr, length-append, all,
  all-append, ◌*◌, ◌⊎◌,
}
use lanclip.Protocol.{Message}
use lanclip.Daemon.Clipboard.{
  InboundClipboard, Window, Action, is_usable, counted, receive, receive_all, accepted_of, goes_on,
  second, max_clipboard_frames_per_second,
}

-- The times of the messages do not run backwards, and lie between the two given ones.
abbrev pub Timed : ℕ → ℕ → List (ℕ × Message) → Type 0
Timed start end [] = Unit
Timed start end ((now, m) ∷ ms) = (start ≤ now) × (now < end) × Timed now end ms

-- A text that the reader may hand on.
abbrev pub is_fit : ℕ → InboundClipboard → Bool
is_fit max c = not (text_eq c.text []) && leb (length c.text) max

receive-is_fit :
    (max : ℕ) (peer : Text) (now : ℕ) (m : Message) (w : Window)
    → all (is_fit max) (accepted_of (receive max peer now m w).1) ≡ true
unfolding receive all
receive-is_fit max peer now m w = ground arith

receive_all-is_fit :
    (max : ℕ) (peer : Text) (ms : List (ℕ × Message)) (w : Window)
    → all (is_fit max) (receive_all max peer ms w) ≡ true
unfolding receive_all all
receive_all-is_fit max peer [] w = refl
receive_all-is_fit max peer ((now, m) ∷ ms) w =
    let (w', a) = receive max peer now m w in
    let rest = receive_all max peer ms w' in
    all-append (is_fit max) (accepted_of a) (if goes_on a then rest else [])
      (receive-is_fit max peer now m w) (ground (arith, receive_all-is_fit max peer ms w'))

receive_count :
    (max : ℕ) (peer : Text) (now : ℕ) (m : Message) (w : Window)
    → w.count ≤ max_clipboard_frames_per_second
    → w.since ≤ now
    → let r = receive max peer now m w in
      ((r.0 ≡ w) × (accepted_of r.1 ≡ []))
      ⊎ ((r.1 ≡ Action.stops) × (goes_on r.1 ≡ false))
      ⊎ ((length (accepted_of r.1) ≡ 1)
          × (r.0.count ≤ max_clipboard_frames_per_second)
          × (((r.0.since ≡ w.since) × (r.0.count ≡ w.count + 1))
              ⊎ ((w.since + second ≤ now) × (r.0.since ≡ now) × (r.0.count ≡ 1))))
unfolding receive
receive_count max peer now m w c l =
    elim (Bool-cases (text_eq m.kind (codes "clipboard") && is_usable max m)) [
      | inr u ↦ inl (ground (arith, u), ground (arith, u))
      | inl u ↦ elim (Bool-cases (ltb max_clipboard_frames_per_second (counted now w).count)) [
        | inl many ↦ inr (inl (ground (arith, u, many), ground (arith, u, many)))
        | inr few ↦ inr (
            inr (
              ground (arith, u, few),
              ground (arith, u, few),
              elim (Bool-cases (leb second (now - w.since))) [
                | inl over ↦ inr (
                  ground (arith, over),
                  ground (arith, u, few, over),
                  ground (arith, u, few, over),
                )
                | inr within ↦ inl (ground (arith, u, few, within), ground (arith, u, few, within))
              ],
            ))
      ]
    ]

earlier : (a b end : ℕ) (ms : List (ℕ × Message)) → a ≤ b → Timed b end ms → Timed a end ms
earlier a b end [] h t = tt
earlier a b end ((now, m) ∷ ms) h t = (omega (arith, t.0), t.1, t.2)

later_end :
    (a end end' : ℕ) (ms : List (ℕ × Message)) → end ≤ end' → Timed a end ms → Timed a end' ms
later_end a end end' [] h t = tt
later_end a end end' ((now, m) ∷ ms) h t =
    (t.0, omega (arith, t.1), later_end now end end' ms h t.2)

handed_on :
    {A : Type 0} (xs ys : List A) (more : Bool)
    → length (xs ++ (if more then ys else [])) ≤ length xs + length ys
handed_on xs ys true = omega (arith, length-append xs ys)
handed_on xs ys false = omega (arith, length-append xs [])

receive_all_bounded :
    (max : ℕ) (peer : Text) (ms : List (ℕ × Message)) (w : Window) (seconds : ℕ)
    → w.count ≤ max_clipboard_frames_per_second
    → 1 ≤ seconds
    → Timed w.since (w.since + seconds * second) ms
    → w.count + length (receive_all max peer ms w) ≤ max_clipboard_frames_per_second * seconds
unfolding receive_all
receive_all_bounded max peer [] w seconds c p b = omega arith
receive_all_bounded max peer ((now, m) ∷ ms) w seconds c p b =
    let r = receive max peer now m w in
    let rest = receive_all max peer ms r.0 in
    let total = handed_on (accepted_of r.1) rest (goes_on r.1) in
    elim (receive_count max peer now m w c b.0) [
      | inl (same, none_accepted) ↦
          let on = earlier w.since now (w.since + seconds * second) ms b.0 b.2 in
          let ih = receive_all_bounded max peer ms w seconds c p on in
          let zero_now : length (accepted_of r.1) ≡ 0 = ap length none_accepted in
          let same_rest : length rest ≡ length (receive_all max peer ms w) =
            ap (λ v. length (receive_all max peer ms v)) same in
          omega (arith, ih, total, zero_now, same_rest)
      | inr (inl (ends, over)) ↦ rw ends (omega (arith, c, p))
      | inr (inr (one, small, inl (since, count))) ↦
          let on = earlier w.since now (w.since + seconds * second) ms b.0 b.2 in
          let ih = receive_all_bounded max peer ms r.0 seconds small p (rw since on) in
          omega (arith, ih, total, one, count)
      | inr (inr (one, small, inr (past, since, count))) ↦
          let fewer : w.since + seconds * second ≤ now + (seconds - 1) * second =
            omega (arith, past, p) in
          let on =
            later_end now (w.since + seconds * second) (now + (seconds - 1) * second) ms fewer
              b.2 in
          let ih =
            receive_all_bounded max peer ms r.0 (seconds - 1) small (omega (arith, past, b.1))
              (rw since on) in
          omega (arith, ih, total, one, count, c)
    ]

-- However the messages of a connection are spaced, the reader hands on no more than 30 texts for each
-- second since its window began, those of the window included; and each text that it hands on is not
-- empty and not longer than the limit.
pub reader_bounds :
    (max : ℕ) (peer : Text) (ms : List (ℕ × Message)) (w : Window) (seconds : ℕ)
    → w.count ≤ max_clipboard_frames_per_second
    → 1 ≤ seconds
    → Timed w.since (w.since + seconds * second) ms
    → (w.count + length (receive_all max peer ms w) ≤ max_clipboard_frames_per_second * seconds)
      × (all (is_fit max) (receive_all max peer ms w) ≡ true)
reader_bounds max peer ms w seconds c p b =
    (receive_all_bounded max peer ms w seconds c p b, receive_all-is_fit max peer ms w)
