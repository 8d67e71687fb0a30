-- ===== src/Discovery/Registration.antt =====
-- internal/discovery/discovery.go: the announcement of this device: `New`, `refreshRegistration`, `Close`,
-- `setError` and the end of a turn of `Run`. The zeroconf servers are numbered as they are registered.
-- refreshRegistration is two steps, since it registers its server before it takes the mutex.
pub mod Single
use lanclip.Base.{
  ℕ, ◌+◌, Bool, true, false, not, ◌&&◌, Option, none, some, List, [], ◌∷◌, ◌++◌, Text, codes,
  retain, any, if◌then◌else◌, ◌==◌, Result, ok, err,
}
use lanclip.Base.Unicode.{Unicode}
use lanclip.Discovery.Direct.{Interface, eligible_interface}

pub data Error : Type 0 where
  no_interfaces no_lan : Error
  register_failed browse_failed : Text → Error

-- `count` is the number of servers registered so far, `running` lists those not shut down, and `waiting`
-- those that a refreshRegistration has registered and not yet taken over.
pub record Announcer : Type 0 where
  pub server : Option ℕ
  pub closed : Bool
  pub last_error : Text
  pub count : ℕ
  pub running : List ℕ
  pub waiting : List ℕ

-- activeLANInterfaces, given net.Interfaces
unfoldable pub active_lan_interfaces :
    Unicode → Option (List Interface) → Result Error (List Interface)
unfolding retain
active_lan_interfaces u none = err no_interfaces
active_lan_interfaces u (some all) = elim (retain (eligible_interface u) all) [
  | [] ↦ err no_lan
  | i ∷ is ↦ ok (i ∷ is)
]

-- The fields of the announcement.
unfoldable pub txt : Text → Text → Text → List Text
txt id fingerprint os =
    codes "v=1" ∷ (codes "id=" ++ id) ∷ (codes "pk=" ++ fingerprint) ∷ (codes "os=" ++ os) ∷ []

unfoldable pub without : ℕ → List ℕ → List ℕ
unfolding retain
without k = retain (λ j. not (j == k))

abbrev pub shut_down_old : Option ℕ → List ℕ → List ℕ
shut_down_old none running = running
shut_down_old (some k) running = without k running

unfoldable pub new_announcer :
    Result Error (List Interface) → Result Text (Unit {0}) → Result Error Announcer
new_announcer (err e) registered = err e
new_announcer (ok is) (err e) = err (register_failed e)
new_announcer (ok is) (ok x) = ok (record {
  server = some 0;
  closed = false;
  last_error = [];
  count = 1;
  running = 0 ∷ [];
  waiting = [];
})

-- setError, with the text of an error
unfoldable pub set_error : Option Text → Announcer → Announcer
set_error none a = record a { last_error = [] }
set_error (some e) a = record a { last_error = e }

-- refreshRegistration up to the mutex, and the server that it has registered.
unfoldable pub begin_refresh :
    (Error → Text)
    → Result Error (List Interface)
    → Result Text (Unit {0})
    → Announcer
    → Announcer × Option ℕ
unfolding set_error
begin_refresh say (err e) registered a = (set_error (some (say e)) a, none)
begin_refresh say (ok is) (err e) a = (set_error (some (say (register_failed e))) a, none)
begin_refresh say (ok is) (ok x) a = (
  record a { count = a.count + 1; running = a.count ∷ a.running; waiting = a.count ∷ a.waiting },
  some a.count,
)

-- The part under the mutex, for the server k.
unfoldable pub take_over : ℕ → Announcer → Announcer
unfolding without
take_over k a =
    if a.closed
    then record a { running = without k a.running; waiting = without k a.waiting }
    else record a {
      server = some k;
      running = shut_down_old a.server a.running;
      waiting = without k a.waiting;
    }

abbrev pub take_begun : Announcer × Option ℕ → Announcer
take_begun (a, none) = a
take_begun (a, some k) = take_over k a

-- refreshRegistration where nothing comes between the two.
unfoldable pub refresh_registration :
    (Error → Text) → Result Error (List Interface) → Result Text (Unit {0}) → Announcer → Announcer
unfolding begin_refresh take_over
refresh_registration say interfaces registered a =
    take_begun (begin_refresh say interfaces registered a)

unfoldable pub close : Announcer → Announcer
unfolding without
close a = record a { closed = true; server = none; running = shut_down_old a.server a.running }

-- The end of a turn of Run, after Browse: the service's context may be cancelled by the first test of it,
-- or by the second; an expired deadline is no error.
unfoldable pub end_browse :
    (Error → Text)
    → Option Text
    → Bool
    → Bool
    → Bool
    → Result Error (List Interface)
    → Result Text (Unit {0})
    → Announcer
    → Announcer
unfolding refresh_registration
end_browse say browsed expired cancelled cancelled_then interfaces registered a =
    let a' : Announcer = elim browsed [
      | none ↦ set_error none a
      | some e ↦
          if not cancelled && not expired
          then set_error (some (say (browse_failed e))) a
          else set_error none a
    ] in
    if cancelled_then then a' else refresh_registration say interfaces registered a'

abbrev pub is_in : ℕ → List ℕ → Bool
is_in j = any (λ k. k == j)

-- The steps of the goroutines that share the service: the two of a refreshRegistration, Close, and a
-- setError of Run.
pub data Event : Type 0 where
  begins : Result Error (List Interface) → Result Text (Unit {0}) → Event
  takes : ℕ → Event
  closes : Event
  notes : Option Text → Event

-- A server that does not wait is not taken over.
unfoldable pub apply : (Error → Text) → Announcer → Event → Announcer
unfolding begin_refresh take_over close set_error any
apply say a (begins interfaces registered) = (begin_refresh say interfaces registered a).0
apply say a (takes k) = if is_in k a.waiting then take_over k a else a
apply say a closes = close a
apply say a (notes e) = set_error e a

unfoldable pub apply_all : (Error → Text) → Announcer → List Event → Announcer
unfolding apply
apply_all say a [] = a
apply_all say a (e ∷ es) = apply_all say (apply say a e) es
