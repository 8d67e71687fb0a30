-- ===== src/Clipboard/Adapter.antt =====
-- internal/clipboard: `Start`, `Close` and the loops of the two adapters.
use lanclip.Base.{
  ℕ, zero, suc, ◌≡◌, refl, ap, ◌∙◌, Bool, true, false, not, ◌||◌, Option, none, some, List, [], ◌∷◌,
  Text, codes, if◌then◌else◌, Result, ok, err, arith, is_ok,
}
use lanclip.Clipboard.{Health, set_health, one_second, longer, watch_wait, poll}

-- The Linux adapter: whether the socket's file is there, the listener is open and held in the adapter,
-- and the context of the loops is running.
pub record Adapter : Type 0 where
  pub socket : Bool
  pub listening : Bool
  pub held : Bool
  pub running : Bool
  pub health : Health

-- The two variables of the environment, the two programs, net.Listen and os.Chmod.
pub record StartIo : Type 0 where
  pub wayland_display : Bool
  pub runtime_dir : Bool
  pub wl_paste : Bool
  pub wl_copy : Bool
  pub listen : Bool
  pub chmod : Bool

pub data StartError : Type 0 where
  no_session no_wl_paste no_wl_copy listen_failed chmod_failed : StartError

-- Start on Linux. Closing a listener removes its file.
unfoldable pub start : StartIo → Adapter → Adapter × Result StartError (Unit {0})
unfolding set_health
start io a =
    if not io.wayland_display || not io.runtime_dir
    then (a, err no_session)
    else if not io.wl_paste
    then (a, err no_wl_paste)
    else if not io.wl_copy
    then (a, err no_wl_copy)
    else if not io.listen
    then (record a { socket = false }, err listen_failed)
    else if not io.chmod
    then (record a { socket = false }, err chmod_failed)
    else (
      record {
        socket = true;
        listening = true;
        held = true;
        running = true;
        health = set_health true [] a.health;
      },
      ok tt,
    )

-- Close on Linux, whose calls cannot stop it.
unfoldable pub close : Adapter → Adapter
close a = record a {
  socket = false;
  listening = if a.held then false else a.listening;
  running = false;
}

-- The end of `accept`, when Accept fails: `cancelled` says whether the context is over.
unfoldable pub accept_failed : Bool → Text → Health → Health
unfolding set_health
accept_failed cancelled e h = if cancelled then h else set_health false e h

-- A turn of watchLoop once wl-paste has ended: whether the context is over then, and whether it ends in
-- the wait. The flag says whether the loop goes on.
unfoldable pub watch_turn : Bool → Bool → ℕ × Health → (ℕ × Health) × Bool
unfolding set_health
watch_turn over ends_waiting (backoff, h) =
    if over
    then ((backoff, h), false)
    else (let h' = set_health false (codes "clipboard watcher exited") h in
        if ends_waiting
        then ((backoff, h'), false)
        else ((longer backoff, set_health true [] h'), true))

-- watchLoop over the turns that it takes, or without the program's own path.
unfoldable pub watch_loop : List (Bool × Bool) → ℕ × Health → ℕ × Health
unfolding watch_turn
watch_loop [] s = s
watch_loop ((over, ends_waiting) ∷ ts) s =
    let (s', more) = watch_turn over ends_waiting s in
    let rest = watch_loop ts s' in if more then rest else s'

unfoldable pub watch : Option Text → List (Bool × Bool) → Health → ℕ × Health
unfolding watch_loop set_health
watch (some e) ts h = (one_second, set_health false e h)
watch none ts h = watch_loop ts (one_second, h)

-- The ticks of the macOS adapter's loop: the change count, the time and the string, if it has one.
unfoldable pub poll_loop : ℕ → List (ℕ × Text × Option Text) → ℕ × Health → List Text
unfolding poll
poll_loop max [] s = []
poll_loop max ((count, now, value) ∷ ts) s =
    let (s', event) = poll max count now value s in
    let rest = poll_loop max ts s' in elim event [ none ↦ rest | some text ↦ text ∷ rest ]

-- Start and Close on macOS, as far as the adapter's health goes.
abbrev pub start_pasteboard : Health → Health
start_pasteboard h = record h { running = true }

abbrev pub close_pasteboard : Health → Health
close_pasteboard h = record h { running = false }

-- An adapter that was not started.
abbrev pub IsIdle : Adapter → Type 0
IsIdle a = (a.listening ≡ false) × (a.running ≡ false)

-- Whatever fails in Start, an adapter that did not start listens nowhere and runs nothing; and after
-- Close nothing listens and runs, and the socket's file is gone.
start_close :
    (io : StartIo) (a : Adapter)
    → IsIdle a
    → (is_ok (start io a).1 ≡ false → IsIdle (start io a).0)
      × IsIdle (close (start io a).0)
      × ((close (start io a).0).socket ≡ false)
unfolding start close
start_close io a (l, r) =
    (λ h. (ground (arith, l, r, h), ground (arith, l, r, h)), (ground (arith, l, r), refl), refl)

abbrev goes_on : ℕ → List (Bool × Bool)
goes_on zero = []
goes_on (suc k) = (false, false) ∷ goes_on k

-- The wait after k more turns that go on.
abbrev longer_by : ℕ → ℕ → ℕ
longer_by zero d = d
longer_by (suc k) d = longer_by k (longer d)

watch_loop_wait : (k d : ℕ) (h : Health) → (watch_loop (goes_on k) (d, h)).0 ≡ longer_by k d
unfolding watch_loop
watch_loop_wait zero d h = refl
watch_loop_wait (suc k) d h = watch_loop_wait k (longer d) _

longer_out : (k d : ℕ) → longer_by k (longer d) ≡ longer (longer_by k d)
longer_out zero d = refl
longer_out (suc k) d = longer_out k (longer d)

longer_by-watch_wait : (k : ℕ) → longer_by k one_second ≡ watch_wait k
unfolding watch_wait
longer_by-watch_wait zero = refl
longer_by-watch_wait (suc k) = longer_out k one_second ∙ ap longer (longer_by-watch_wait k)

-- The turns that go on lengthen the wait as `watch_wait` says.
watch_loop-watch_wait :
    (k : ℕ) (h : Health) → (watch_loop (goes_on k) (one_second, h)).0 ≡ watch_wait k
watch_loop-watch_wait k h = watch_loop_wait k one_second h ∙ longer_by-watch_wait k
