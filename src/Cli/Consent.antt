-- ===== src/Cli/Consent.antt =====
-- cmd/lanclip/cli.go: a request names a device that fits the command, and was agreed to.
use lanclip.Base.{
  ℕ, zero, suc, ◌-◌, ◌≡◌, refl, Bool, true, false, not, ◌&&◌, ◌||◌, Option, none, some, List, [],
  ◌∷◌, Text, text_eq, leb, length, get_elem?, retain, all, any, arith, ok, Result-cases,
  Option-cases, Bool-cases, inl, inr,
}
use lanclip.Base.Unicode.{Unicode, trim_space}
use lanclip.Base.Sorting.{all-sort_by}
use lanclip.Control.{Request}
use lanclip.Daemon.Status.{PeerStatus}
use lanclip.Cli.{
  is_eligible, has_lower_name, eligible_peers, the_one, find_peer, Read, line, last, broken, picked,
  choose_loop, choose_peer, answer_of, confirm, sends, request_of, asks, ask_then_send, interact,
}

abbrev is_yes : Option Bool → Bool
is_yes none = false
is_yes (some b) = b

-- The lines on which the user agrees.
abbrev pub agrees : Unicode → Read → Bool
agrees u (line s) = is_yes (answer_of false (u.to_lower (trim_space u s)))
agrees u (last s) = is_yes (answer_of false (u.to_lower (trim_space u s)))
agrees u broken = false

module _ (u : Unicode) (g : PeerStatus → Bool) where
  all-get_elem? :
      (ps : List PeerStatus) (i : ℕ) (p : PeerStatus)
      → all g ps ≡ true
      → get_elem? ps i ≡ some p
      → g p ≡ true
  unfolding all
  all-get_elem? [] i p k h = ground arith
  all-get_elem? (q ∷ qs) zero p k h = ground arith
  all-get_elem? (q ∷ qs) (suc i) p k h = all-get_elem? qs i p (ground arith) h

  all-keep :
      (f : PeerStatus → Bool) (ps : List PeerStatus) → all g ps ≡ true → all g (retain f ps) ≡ true
  unfolding all retain
  all-keep f [] k = refl
  all-keep f (p ∷ ps) k = ground (arith, all-keep f ps)

  all-the_one :
      (ps : List PeerStatus) (p : PeerStatus) → all g ps ≡ true → the_one ps ≡ some p → g p ≡ true
  unfolding all
  all-the_one [] p k h = ground arith
  all-the_one (q ∷ []) p k h = ground arith
  all-the_one (q ∷ r ∷ ps) p k h = ground arith

  all-picked :
      (atoi : Text → Option ℕ) (ps : List PeerStatus) (s : Text) (p : PeerStatus)
      → all g ps ≡ true
      → picked atoi ps s ≡ some p
      → g p ≡ true
  unfolding all
  all-picked atoi [] s p k h = ground arith
  all-picked atoi (q ∷ qs) s p k h = elim (Bool-cases (text_eq s [] && leb (length qs) 0)) [
    | inl e ↦ ground (arith, e)
    | inr e ↦ elim (Option-cases (atoi s)) [
      | inl f ↦ absurd (ground (arith, e, f))
      | inr (n, f) ↦ all-get_elem? (q ∷ qs) (n - 1) p k (ground (arith, e, f))
    ]
  ]

  -- A peer that was chosen is one of the list, and what agrees in the input left agrees in the input.
  choose_loop_sound :
      (atoi : Text → Option ℕ) (ps : List PeerStatus) (rs : List Read) (p : PeerStatus)
      → all g ps ≡ true
      → (choose_loop u atoi ps rs).1 ≡ ok p
      → (g p ≡ true)
        × (any (agrees u) (choose_loop u atoi ps rs).0 ≡ true → any (agrees u) rs ≡ true)
  unfolding choose_loop any
  choose_loop_sound atoi ps [] p k h = elim (Option-cases (picked atoi ps [])) [
    | inl e ↦ absurd (ground (arith, e))
    | inr (q, e) ↦ (all-picked atoi ps [] p k (ground (arith, e)), λ y. ground (arith, e, y))
  ]
  choose_loop_sound atoi ps (broken ∷ rs) p k h = absurd (cc h)
  choose_loop_sound atoi ps (last s ∷ rs) p k h =
      elim (Option-cases (picked atoi ps (trim_space u s))) [
        | inl e ↦ absurd (ground (arith, e))
        | inr (q, e) ↦
            (all-picked atoi ps (trim_space u s) p k (ground (arith, e)), λ y. ground (arith, e, y))
      ]
  choose_loop_sound atoi ps (line s ∷ rs) p k h =
      elim (Option-cases (picked atoi ps (trim_space u s))) [
        | inl e ↦
            let (good, more) = choose_loop_sound atoi ps rs p k (ground (arith, e)) in
            (good, λ y. ground (arith, e, y, more))
        | inr (q, e) ↦
            (all-picked atoi ps (trim_space u s) p k (ground (arith, e)), λ y. ground (arith, e, y))
      ]

  choose_peer_sound :
      (atoi : Text → Option ℕ) (ps : List PeerStatus) (rs : List Read) (p : PeerStatus)
      → all g ps ≡ true
      → (choose_peer u atoi ps rs).1 ≡ ok p
      → (g p ≡ true)
        × (any (agrees u) (choose_peer u atoi ps rs).0 ≡ true → any (agrees u) rs ≡ true)
  unfolding choose_peer
  choose_peer_sound atoi [] rs p k h = absurd (cc h)
  choose_peer_sound atoi (q ∷ qs) rs p k h = choose_loop_sound atoi (q ∷ qs) rs p k h

confirm-agrees :
    (u : Unicode) (rs : List Read) → (confirm u false rs).1 ≡ ok true → any (agrees u) rs ≡ true
unfolding confirm any
confirm-agrees u [] h = absurd (cc h)
confirm-agrees u (broken ∷ rs) h = absurd (cc h)
confirm-agrees u (last s ∷ rs) h =
    elim (Option-cases (answer_of false (u.to_lower (trim_space u s)))) [
      | inl e ↦ absurd (ground (arith, e))
      | inr (b, e) ↦ ground (arith, e)
    ]
confirm-agrees u (line s ∷ rs) h =
    elim (Option-cases (answer_of false (u.to_lower (trim_space u s)))) [
      | inl e ↦ ground (arith, e, confirm-agrees u rs)
      | inr (b, e) ↦ ground (arith, e)
    ]

-- The device that a request is about.
pub record Agreed (u : Unicode) (g : PeerStatus → Bool) (command : Text) (rs : List Read)
    (req : Request) : Type 0 where
  pub device : PeerStatus
  pub listed : g device ≡ true
  pub eligible : is_eligible command device ≡ true
  pub built : req ≡ request_of command device
  pub agreed : (not (asks command) || any (agrees u) rs) ≡ true

ask_then_send_sound :
    (u : Unicode) (command : Text) (p : PeerStatus) (rs : List Read) (req : Request)
    → ask_then_send u command p rs ≡ sends req
    → (req ≡ request_of command p) × ((not (asks command) || any (agrees u) rs) ≡ true)
unfolding ask_then_send
ask_then_send_sound u command p rs req h = elim (Bool-cases (asks command)) [
  | inr e ↦ (ground (arith, e), ground (arith, e))
  | inl e ↦ elim (Result-cases (confirm u false rs).1) [
    | inr (x, f) ↦ absurd (ground (arith, e, f))
    | inl (true, f) ↦ (ground (arith, e, f), ground (arith, e, confirm-agrees u rs f))
    | inl (false, f) ↦ absurd (ground (arith, e, f))
  ]
]

module _ (u : Unicode) (g : PeerStatus → Bool) (command : Text) where
  all_both :
      (ps : List PeerStatus)
      → all g ps ≡ true
      → all (λ p. g p && is_eligible command p) (retain (is_eligible command) ps) ≡ true
  unfolding all retain
  all_both [] k = refl
  all_both (p ∷ ps) k = ground (arith, all_both ps)

  all-eligible_peers :
      (peers : List PeerStatus)
      → all g peers ≡ true
      → all (λ p. g p && is_eligible command p) (eligible_peers u command peers) ≡ true
  unfolding eligible_peers
  all-eligible_peers peers k =
      all-sort_by (has_lower_name u) (λ p. g p && is_eligible command p) _ (all_both peers k)

  interact_sound :
      (atoi : Text → Option ℕ) (argument : Option Text) (rs : List Read) (peers : List PeerStatus)
      (req : Request)
      → all g (eligible_peers u command peers) ≡ true
      → interact u atoi command argument rs peers ≡ sends req
      → (p : PeerStatus) × (g p ≡ true)
        × (req ≡ request_of command p)
        × ((not (asks command) || any (agrees u) rs) ≡ true)
  unfolding interact find_peer choose_peer
  interact_sound atoi (some query) rs peers req k h =
      elim (Option-cases (find_peer u (eligible_peers u command peers) query)) [
        | inl e ↦ absurd (ground (arith, e))
        | inr (p, e) ↦
            let (built, said) = ask_then_send_sound u command p rs req (ground (arith, e)) in
            (p, all-the_one u g _ p (all-keep u g _ _ k) e, built, said)
      ]
  interact_sound atoi none rs peers req k h =
      let ps = eligible_peers u command peers in
      elim (Result-cases (choose_peer u atoi ps rs).1) [
        | inr (x, e) ↦ absurd (ground (arith, e))
        | inl (p, e) ↦
            let rs' = (choose_peer u atoi ps rs).0 in
            let (good, back) = choose_peer_sound u g atoi ps rs p k e in
            let (built, said) = ask_then_send_sound u command p rs' req (ground (arith, e)) in
            (p, good, built, ground (arith, said, back))
      ]

module _ (u : Unicode) (g : PeerStatus → Bool) (command : Text) where
  -- Whatever is typed, a request that concerns one device names a device that the service listed (it
  -- satisfies every test that all the listed ones do) and whose state fits the command; the request
  -- carries that device's own ID and, for an approval, its own token, fingerprint and code; and for
  -- approve, reject and unpair one of the lines of input said yes.
  pub interact-Agreed :
      (atoi : Text → Option ℕ) (argument : Option Text) (rs : List Read) (peers : List PeerStatus)
      (req : Request)
      → all g peers ≡ true
      → interact u atoi command argument rs peers ≡ sends req
      → Agreed u g command rs req
  interact-Agreed atoi argument rs peers req k h =
      let (p, both, built, said) =
        interact_sound u (λ p. g p && is_eligible command p) command atoi argument rs peers req
          (all-eligible_peers u g command peers k) h in
      record {
        device = p;
        listed = ground (arith, both);
        eligible = ground (arith, both);
        built = built;
        agreed = said;
      }
