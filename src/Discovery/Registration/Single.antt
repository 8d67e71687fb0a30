-- ===== src/Discovery/Registration/Single.antt =====
-- Which announcements are running.
use mathlib.Core.Path.{subst}
use lanclip.Base.{
  ℕ, ◌+◌, ◌<◌, ◌≡◌, refl, ap, ◌∙◌, true, false, not, ◌&&◌, ◌||◌, Bool, Option, none, some, List, [],
  ◌∷◌, Text, any, retain, arith, ◌==◌, Result, ok, err, Bool-cases, inl, inr,
}
use lanclip.Discovery.Direct.{Interface}
use lanclip.Discovery.Registration.{
  Error, register_failed, Announcer, without, shut_down_old, new_announcer, set_error,
  begin_refresh, take_over, refresh_registration, close, is_in, Event, begins, takes, closes, notes,
  apply, apply_all,
}

abbrev pub is_held : ℕ → Option ℕ → Bool
is_held j none = false
is_held j (some k) = k == j

-- The servers that are running are the one that the service holds and those that wait to be taken over.
pub record IsSingle (a : Announcer) : Type 0 where
  pub runs : (j : ℕ) → is_in j a.running ≡ (is_held j a.server || is_in j a.waiting)
  pub older : (j : ℕ) → is_in j a.running ≡ true → j < a.count
  pub apart : (j : ℕ) → is_held j a.server ≡ true → is_in j a.waiting ≡ false
  pub none_left : a.closed ≡ true → a.server ≡ none

is_in-without : (j k : ℕ) (xs : List ℕ) → is_in j (without k xs) ≡ (is_in j xs && not (j == k))
unfolding without retain any
is_in-without j k [] = refl
is_in-without j k (x ∷ xs) = ground (arith, is_in-without j k xs)

is_in-shut_down_old :
    (j : ℕ) (old : Option ℕ) (xs : List ℕ)
    → is_in j (shut_down_old old xs) ≡ (is_in j xs && not (is_held j old))
is_in-shut_down_old j none xs = ground arith
is_in-shut_down_old j (some k) xs = ground (arith, is_in-without j k xs)

begin-IsSingle :
    (a : Announcer)
    → IsSingle a
    → IsSingle (record a {
      count = a.count + 1;
      running = a.count ∷ a.running;
      waiting = a.count ∷ a.waiting;
    })
unfolding any
begin-IsSingle a v = record {
  runs = λ j. ground (arith, v.runs j);
  older = λ j h. ground (arith, h, v.older j);
  apart = λ j h. ground (arith, h, v.apart j h, v.runs j, v.older j);
  none_left = v.none_left;
}

take_over-IsSingle :
    (k : ℕ) (a : Announcer) → is_in k a.waiting ≡ true → IsSingle a → IsSingle (take_over k a)
unfolding take_over
take_over-IsSingle k a w v = elim (Bool-cases a.closed) [
  | inl c ↦
      let gone = v.none_left c in
      rw (take_over, c)
        (record {
          runs = λ j.
              rw (is_in-without j k a.running, is_in-without j k a.waiting, v.runs j, gone) refl;
          older = λ j h. ground (arith, h, is_in-without j k a.running, v.older j);
          apart = λ j h. absurd (ground (arith, h, gone));
          none_left = λ e. gone;
        })
  | inr c ↦
      rw (take_over, c)
        (record {
          runs = λ j. ground (
            arith,
            is_in-shut_down_old j a.server a.running,
            is_in-without j k a.waiting,
            v.runs j,
            v.apart j,
            w,
          );
          older = λ j h. ground (arith, h, is_in-shut_down_old j a.server a.running, v.older j);
          apart = λ j h. ground (arith, h, is_in-without j k a.waiting);
          none_left = λ e. absurd (cc e);
        })
]

close-IsSingle : (a : Announcer) → IsSingle a → IsSingle (close a)
unfolding close
close-IsSingle a v = record {
  runs = λ j. ground (arith, is_in-shut_down_old j a.server a.running, v.runs j, v.apart j);
  older = λ j h. ground (arith, h, is_in-shut_down_old j a.server a.running, v.older j);
  apart = λ j h. absurd (cc h);
  none_left = λ e. refl;
}

pub set_error-IsSingle : (e : Option Text) (a : Announcer) → IsSingle a → IsSingle (set_error e a)
unfolding set_error
set_error-IsSingle none a v = record {
  runs = v.runs;
  older = v.older;
  apart = v.apart;
  none_left = v.none_left;
}
set_error-IsSingle (some e) a v = record {
  runs = v.runs;
  older = v.older;
  apart = v.apart;
  none_left = v.none_left;
}

apply-IsSingle :
    (say : Error → Text) (a : Announcer) (e : Event) → IsSingle a → IsSingle (apply say a e)
unfolding apply begin_refresh
apply-IsSingle say a (begins (err e) r) v = set_error-IsSingle (some (say e)) a v
apply-IsSingle say a (begins (ok is) (err e)) v =
    set_error-IsSingle (some (say (register_failed e))) a v
apply-IsSingle say a (begins (ok is) (ok x)) v = begin-IsSingle a v
apply-IsSingle say a (takes k) v = elim (Bool-cases (is_in k a.waiting)) [
  | inl w ↦ rw (w, apply) (take_over-IsSingle k a w v)
  | inr w ↦ rw (w, apply) v
]
apply-IsSingle say a closes v = close-IsSingle a v
apply-IsSingle say a (notes e) v = set_error-IsSingle e a v

pub refresh-IsSingle :
    (say : Error → Text) (is : Result Error (List Interface)) (r : Result Text (Unit {0}))
    (a : Announcer)
    → IsSingle a
    → IsSingle (refresh_registration say is r a)
unfolding refresh_registration begin_refresh any
refresh-IsSingle say (err e) r a v = set_error-IsSingle (some (say e)) a v
refresh-IsSingle say (ok is) (err e) a v = set_error-IsSingle (some (say (register_failed e))) a v
refresh-IsSingle say (ok is) (ok x) a v =
    take_over-IsSingle a.count _ (ground arith) (begin-IsSingle a v)

apply_all-IsSingle :
    (say : Error → Text) (a : Announcer) (es : List Event)
    → IsSingle a
    → IsSingle (apply_all say a es)
unfolding apply_all
apply_all-IsSingle say a [] v = v
apply_all-IsSingle say a (e ∷ es) v =
    apply_all-IsSingle say (apply say a e) es (apply-IsSingle say a e v)

apply-closed :
    (say : Error → Text) (a : Announcer) (e : Event)
    → a.closed ≡ true
    → (apply say a e).closed ≡ true
unfolding apply begin_refresh set_error take_over close
apply-closed say a (begins (err e) r) h = h
apply-closed say a (begins (ok is) (err e)) h = h
apply-closed say a (begins (ok is) (ok x)) h = h
apply-closed say a (takes k) h = ground (arith, h)
apply-closed say a closes h = refl
apply-closed say a (notes none) h = h
apply-closed say a (notes (some e)) h = h

apply_all-closed :
    (say : Error → Text) (a : Announcer) (es : List Event)
    → a.closed ≡ true
    → (apply_all say a es).closed ≡ true
unfolding apply_all
apply_all-closed say a [] h = h
apply_all-closed say a (e ∷ es) h = apply_all-closed say (apply say a e) es (apply-closed say a e h)

pub new_announcer-IsSingle :
    (is : Result Error (List Interface)) (r : Result Text (Unit {0})) (a : Announcer)
    → new_announcer is r ≡ ok a
    → IsSingle a
unfolding new_announcer any
new_announcer-IsSingle (err e) r a h = absurd (cc h)
new_announcer-IsSingle (ok is) (err e) a h = absurd (cc h)
new_announcer-IsSingle (ok is) (ok x) a h =
    let first : Announcer = record {
      server = some 0;
      closed = false;
      last_error = [];
      count = 1;
      running = 0 ∷ [];
      waiting = [];
    } in
    let same : first ≡ a = cc h in
    subst IsSingle same (record {
      runs = λ j. refl;
      older = λ j e. ground (arith, e);
      apart = λ j e. refl;
      none_left = λ e. absurd (cc e);
    })

closed_take :
    (say : Error → Text) (a : Announcer) (k : ℕ)
    → IsSingle a
    → a.closed ≡ true
    → is_in k (apply say a (takes k)).running ≡ false
unfolding apply take_over
closed_take say a k v c = elim (Bool-cases (is_in k a.waiting)) [
  | inl w ↦ ground (arith, w, c, is_in-without k k a.running)
  | inr w ↦ ground (arith, w, v.runs k, v.none_left c)
]

-- Whatever calls of refreshRegistration, Close and setError there are from New on, whichever of them fail, and
-- however the steps of the refreshes, which register before they take the mutex, come between the
-- others: an announcement is running exactly if the service holds it or a refresh has registered it and
-- waits for the mutex. Once Close was called, only those that wait are running, whatever comes then,
-- and each is shut down as it gets the mutex.
pub close_stops_all :
    (say : Error → Text) (is : Result Error (List Interface)) (r : Result Text (Unit {0}))
    (a : Announcer) (before after : List Event)
    → new_announcer is r ≡ ok a
    → let b = apply_all say a before in
      let c = apply_all say (close b) after in
      ((j : ℕ) → is_in j b.running ≡ (is_held j b.server || is_in j b.waiting))
      × ((j : ℕ) → is_in j c.running ≡ is_in j c.waiting)
      × ((k : ℕ) → is_in k (apply say c (takes k)).running ≡ false)
unfolding close
close_stops_all say is r a before after h =
    let b = apply_all say a before in
    let c = apply_all say (close b) after in
    let v = apply_all-IsSingle say a before (new_announcer-IsSingle is r a h) in
    let w = apply_all-IsSingle say (close b) after (close-IsSingle b v) in
    let over = apply_all-closed say (close b) after refl in
    let gone = w.none_left over in
    (
      v.runs,
      λ j. w.runs j ∙ ap (λ o. is_held j o || is_in j c.waiting) gone,
      λ k. closed_take say c k w over,
    )
