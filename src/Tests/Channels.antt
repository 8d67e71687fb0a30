-- ===== src/Tests/Channels.antt =====
-- internal/daemon/daemon.go and internal/clipboard: the channels of one value, the loops of the clipboard
-- and the events of `wl-paste --watch`.
use lanclip.Base.{
  ℕ, ◌≡◌, ◌≢◌, ◌≤◌, ◌<◌, ◌+◌, ◌*◌, ◌⊎◌, refl, Bool, true, false, some, none, List, [], ◌∷◌, Text,
  codes, arith, ok, length, all,
}
use lanclip.Protocol.{Message}
use lanclip.Clipboard.{WatchIo, send_watch_event, accept_event}
use lanclip.Clipboard.Watch.{watch_event_arrives}
use lanclip.Daemon.Slot.{Pc, idle, asks, Slot, Step, Reach, start, later}
use lanclip.Daemon.Slot.Invariant.{Subseq, IsLatest}
use lanclip.Daemon.Slot.Latest.{selects_left, Reach-IsLatest, call_ends}
use lanclip.Daemon.Conns.{Registry}
use lanclip.Daemon.Clipboard.{
  Turn, broadcast, clipboard_message, receive_all, Window, max_clipboard_frames_per_second,
}
use lanclip.Daemon.Clipboard.Flow.{is_fit, reader_bounds}
use lanclip.Sync.{Suppressor}

-- Two calls of enqueuePeer: the second finds the channel full.
abbrev asked : Slot ℕ
asked = record { slot = none; done = false; pc = asks 1; asked = 1 ∷ []; taken = [] }

asked_once : Reach false asked
asked_once = later start (Step.call 1 refl)

two_calls :
    Reach {A = ℕ} false
      (record { slot = some 2; done = false; pc = idle; asked = 2 ∷ 1 ∷ []; taken = [] })
two_calls =
    later
      (later
        (later
          (later
            (later
              (later (later (later start (Step.call 1 refl)) (Step.is_open 1 refl refl))
                (Step.offer 1 refl refl))
              (Step.call 2 refl))
            (Step.is_open 2 refl refl))
          (Step.full 2 1 refl refl))
        (Step.clear 2 1 refl refl))
      (Step.place 2 refl refl)

Reach-IsLatest_example :
    Subseq {A = ℕ} (2 ∷ []) (2 ∷ 1 ∷ [])
    × ((false ≡ true) ⊎ IsLatest {A = ℕ} idle (2 ∷ []) (2 ∷ 1 ∷ []))
Reach-IsLatest_example = Reach-IsLatest two_calls

abbrev opened : Slot ℕ
opened = record asked { pc = Pc.offers 1 }

call_ends_example :
    (selects_left opened.pc ≤ selects_left asked.pc)
    × (selects_left asked.pc ≤ 4)
    × (u : Slot ℕ) × Step false asked u
    × (selects_left u.pc < selects_left asked.pc)
call_ends_example =
    call_ends {s = asked} {t = opened} asked_once (λ e. absurd (cc e)) (Step.is_open 1 refl refl)

abbrev pub itself : Text → Text
itself s = s

abbrev pub two_conns : Registry
two_conns = record {
  conns =
      (codes "a", record { handle = 1; id = codes "a"; address = []; outbound = true })
      ∷ (codes "b", record { handle = 2; id = codes "b"; address = []; outbound = false })
      ∷ [];
  stats = [];
  connecting = [];
  closed = [];
  done = [];
}

abbrev pub turn : Turn
turn = record { prune_time = 10; add_time = 11; consume_time = 12; end_time = 13; written = ok tt }

abbrev pub fresh : Suppressor
fresh = record { ttl = 100; entries = [] }

-- A text that nobody sent goes to both.
sent_to_all :
    (broadcast itself 100 50 (some (codes "e2")) (codes "hello") two_conns fresh).1
    ≡ (
      record { handle = 1; id = codes "a"; address = []; outbound = true },
      clipboard_message (codes "e2") (codes "hello"),
    )
      ∷ (
        record { handle = 2; id = codes "b"; address = []; outbound = false },
        clipboard_message (codes "e2") (codes "hello"),
      )
      ∷ []
unfolding broadcast lanclip.Base.text_eq lanclip.Sync.consume
sent_to_all = refl

abbrev copied : Message
copied = clipboard_message (codes "e1") (codes "hello")

abbrev pub window : Window
window = record { since = 0; count = 0 }

abbrev stream : List (ℕ × Message)
stream = (5, copied) ∷ (7, copied) ∷ []

reader_bounds_example :
    (window.count + length (receive_all 100 (codes "a") stream window)
      ≤ max_clipboard_frames_per_second * 1)
    × (all (is_fit 100) (receive_all 100 (codes "a") stream window) ≡ true)
reader_bounds_example =
    reader_bounds 100 (codes "a") stream window 1 (omega arith) (omega arith)
      (omega arith, omega arith, (omega arith, omega arith, tt))

both_handed_on : length (receive_all 100 (codes "a") stream window) ≡ 2
unfolding receive_all lanclip.Base.text_eq
both_handed_on = refl

abbrev all_sent : WatchIo
all_sent = record { readable = true; dial = true; header_stops = none; body_stops = none }

event_is_sent : (send_watch_event all_sent 100 (codes "hello")).1 ≡ ok tt
unfolding send_watch_event
event_is_sent = refl

watch_event_arrives_example :
    ((codes "hello" ≡ []) × ((send_watch_event all_sent 100 (codes "hello")).0 ≡ none))
    ⊎ ((sent : Text) × ((send_watch_event all_sent 100 (codes "hello")).0 ≡ some sent)
        × (length (codes "hello") ≤ 100)
        × (accept_event 100 sent ≡ some (codes "hello")))
watch_event_arrives_example =
    watch_event_arrives all_sent 100 (codes "hello") (omega arith) event_is_sent
