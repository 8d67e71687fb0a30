-- ===== src/Discovery/Browse.antt =====
-- internal/discovery/discovery.go: the loop of `Run`, where no Close comes between its steps.
use lanclip.Base.{
  ℕ, ◌≡◌, Bool, true, false, Option, none, some, List, [], ◌∷◌, Text, if◌then◌else◌, Result, ok,
  err, Bool-cases, Result-cases, inl, inr, not, ◌&&◌, ◌||◌,
}
use lanclip.Discovery.Direct.{Interface}
use lanclip.Discovery.Registration.{
  Announcer, Error, set_error, end_browse, browse_failed, is_in, new_announcer,
}
use lanclip.Discovery.Registration.Single.{
  IsSingle, is_held, set_error-IsSingle, refresh-IsSingle, new_announcer-IsSingle,
}

-- A turn: the interfaces as the turn begins and, if there are none, whether the context ends in the wait;
-- the time at which Browse begins and its error; the expired deadline; the context at the two tests of
-- it; the interfaces and the registration of the refresh.
pub record Turn : Type 0 where
  pub interfaces : Result Error (List Interface)
  pub ends_waiting : Bool
  pub now : ℕ
  pub browsed : Option Text
  pub expired : Bool
  pub cancelled : Bool
  pub cancelled_then : Bool
  pub next_interfaces : Result Error (List Interface)
  pub registered : Result Text (Unit {0})

-- lastBrowse and the announcement.
abbrev pub State : Type 0
State = ℕ × Announcer

-- The state after the turn, and whether `wait` lets the loop go on.
unfoldable pub browse_turn : (Error → Text) → Turn → State → State × Bool
unfolding set_error end_browse
browse_turn say t (last, a) = elim t.interfaces [
  | err e ↦ ((last, set_error (some (say e)) a), not t.ends_waiting)
  | ok is ↦ (
    (
      t.now,
      end_browse say t.browsed t.expired t.cancelled t.cancelled_then t.next_interfaces t.registered
          a,
    ),
    true,
  )
]

-- Run until its context is over, which is when the turns end.
unfoldable pub run : (Error → Text) → List Turn → State → State
unfolding browse_turn
run say [] s = s
run say (t ∷ ts) s =
    let (s', more) = browse_turn say t s in let rest = run say ts s' in if more then rest else s'

module _ (say : Error → Text) where
  noted-IsSingle :
      (browsed : Option Text) (expired cancelled : Bool) (a : Announcer)
      → IsSingle a
      → IsSingle (elim browsed [
        | none ↦ set_error none a
        | some e ↦
            if not cancelled && not expired
            then set_error (some (say (browse_failed e))) a
            else set_error none a
      ])
  noted-IsSingle none expired cancelled a v = set_error-IsSingle none a v
  noted-IsSingle (some e) expired cancelled a v = elim (Bool-cases (not cancelled && not expired)) [
    | inl x ↦ rw x (set_error-IsSingle (some (say (browse_failed e))) a v)
    | inr x ↦ rw x (set_error-IsSingle none a v)
  ]

  end_browse-IsSingle :
      (browsed : Option Text) (expired cancelled then_cancelled : Bool)
      (is : Result Error (List Interface)) (r : Result Text (Unit {0})) (a : Announcer)
      → IsSingle a
      → IsSingle (end_browse say browsed expired cancelled then_cancelled is r a)
  unfolding end_browse
  end_browse-IsSingle browsed expired cancelled true is r a v =
      noted-IsSingle browsed expired cancelled a v
  end_browse-IsSingle browsed expired cancelled false is r a v =
      refresh-IsSingle say is r _ (noted-IsSingle browsed expired cancelled a v)

  browse_turn-IsSingle : (t : Turn) (s : State) → IsSingle s.1 → IsSingle (browse_turn say t s).0.1
  unfolding browse_turn
  browse_turn-IsSingle t (last, a) v = elim (Result-cases t.interfaces) [
    | inr (e, x) ↦ rw (x, browse_turn) (set_error-IsSingle (some (say e)) a v)
    | inl (is, x) ↦
        rw (x, browse_turn)
          (end_browse-IsSingle t.browsed t.expired t.cancelled t.cancelled_then t.next_interfaces
            t.registered a v)
  ]

  run-IsSingle : (ts : List Turn) (s : State) → IsSingle s.1 → IsSingle (run say ts s).1
  unfolding run
  run-IsSingle [] s v = v
  run-IsSingle (t ∷ ts) s v =
      let first = browse_turn-IsSingle t s v in
      elim (Bool-cases (browse_turn say t s).1) [
        | inl x ↦ rw (x, run) (run-IsSingle ts (browse_turn say t s).0 first)
        | inr x ↦ rw (x, run) first
      ]

  -- However the turns of Run go, from New on each announcement that is running is the one that the service
  -- holds, or waits to be taken over.
  run_announces_once :
      (is : Result Error (List Interface)) (r : Result Text (Unit {0})) (a : Announcer)
      (ts : List Turn) (j : ℕ)
      → new_announcer is r ≡ ok a
      → is_in j (run say ts (0, a)).1.running
        ≡ (is_held j (run say ts (0, a)).1.server || is_in j (run say ts (0, a)).1.waiting)
  run_announces_once is r a ts j h =
      (run-IsSingle ts (0, a) (new_announcer-IsSingle is r a h)).runs j
