-- ===== src/Clipboard.antt =====
-- internal/clipboard: the events of the local clipboard, as the adapters for Linux and macOS give them.
-- On Linux `wl-paste --watch` runs lanclip once for each change, which sends the text to the service's
-- socket in a frame. The programs, the sockets and AppKit are parameters.
pub mod Watch
pub mod Adapter
use lanclip.Base.{
  ℕ, zero, suc, ◌*◌, ◌+◌, ◌%◌, ◌^◌, Bool, true, false, not, ◌||◌, Option, none, some, [], ◌++◌,
  Text, text_eq, ltb, ◌==◌, if◌then◌else◌, length, take, Result, ok, err,
}
use lanclip.Protocol.{put_uint32, read_full, decode_length}

pub record Health : Type 0 where
  pub running : Bool
  pub last_event : Text
  pub last_error : Text

unfoldable pub set_health : Bool → Text → Health → Health
set_health running e h = record h { running = running; last_error = e }

pub data Error : Type 0 where
  unreadable too_long unreachable write_failed pasteboard_failed : Error
  no_pipe no_start feed_failed timed_out : Error

-- The bytes of a connection, as far as they arrive: the text of its frame, if there is one.
unfoldable pub body_of : ℕ → Text → Option Text
body_of n s = elim (read_full n s) [ err e ↦ none | ok (b, rest) ↦ some b ]

-- A connection in `accept`; `n > uint32(a.max)` is a comparison of 32-bit numbers.
unfoldable pub accept_event : ℕ → Text → Option Text
unfolding body_of
accept_event max s = elim (read_full 4 s) [
  | err e ↦ none
  | ok (h, body) ↦
      let n = decode_length h in if n == 0 || ltb (max % 2 ^ 32) n then none else body_of n body
]

-- The same with the adapter's state: the time of the last event is kept, and the event goes out.
unfoldable pub accept : ℕ → Text → Text → Health → Health × Option Text
unfolding accept_event
accept max now s h = elim (accept_event max s) [
  | none ↦ (h, none)
  | some text ↦ (record h { last_event = now }, some text)
]

-- What the system does with SendWatchEvent: whether the input can be read and the socket be reached,
-- and how many bytes of the header and of the text go out where a Write fails.
pub record WatchIo : Type 0 where
  pub readable : Bool
  pub dial : Bool
  pub header_stops : Option ℕ
  pub body_stops : Option ℕ

-- A Write on the socket: all of the bytes, or some of them and an error.
abbrev pub send : Option ℕ → Text → Text → Text × Result Error (Unit {0})
send none sent b = (sent ++ b, ok tt)
send (some n) sent b = (sent ++ take n b, err write_failed)

-- SendWatchEvent on an input: the bytes of the connection, if one is made.
unfoldable pub send_watch_event : WatchIo → ℕ → Text → Option Text × Result Error (Unit {0})
send_watch_event io max input =
    let b = take (suc max) input in
    if not io.readable
    then (none, err unreadable)
    else if length b == 0
    then (none, ok tt)
    else if ltb max (length b)
    then (none, err too_long)
    else if not io.dial
    then (none, err unreachable)
    else (let (sent, header) = send io.header_stops [] (put_uint32 (length b)) in
        elim header [
          | err e ↦ (some sent, err e)
          | ok _ ↦ let (sent', r) = send io.body_stops sent b in (some sent', r)
        ])

abbrev pub one_second : ℕ
one_second = 1_000_000_000

-- `if backoff < 10*time.Second { backoff *= 2 }`
abbrev pub longer : ℕ → ℕ
longer d = if ltb d (10 * one_second) then d * 2 else d

-- The wait of watchLoop after the watcher has exited k times before.
unfoldable pub watch_wait : ℕ → ℕ
watch_wait zero = one_second
watch_wait (suc k) = longer (watch_wait k)

-- A tick on macOS: the pasteboard's change count, and its string, if it has one.
unfoldable pub poll : ℕ → ℕ → Text → Option Text → ℕ × Health → (ℕ × Health) × Option Text
poll max count now value (last, h) = if count == last then ((last, h), none) else elim value [
  | none ↦ ((count, h), none)
  | some text ↦
      if text_eq text [] || ltb max (length text)
      then ((count, h), none)
      else ((count, record h { last_event = now }), some text)
]

-- Write on macOS
unfoldable pub write_pasteboard : ℕ → Bool → Text → Result Error (Unit {0})
write_pasteboard max accepted text =
    if ltb max (length text)
    then err too_long
    else if accepted
    then ok tt
    else err pasteboard_failed

-- Write on Linux: the pipe, the start of wl-copy, and whether the text is fed before the deadline, which
-- is when the feeding ended, and whether it failed. The second component says whether wl-copy is killed.
pub record CopyIo : Type 0 where
  pub pipe : Bool
  pub starts : Bool
  pub fed : Option Bool

unfoldable pub write_wl_copy : CopyIo → Result Error (Unit {0}) × Bool
write_wl_copy io =
    if not io.pipe
    then (err no_pipe, false)
    else if not io.starts
    then (err no_start, false)
    else elim io.fed [
      | none ↦ (err timed_out, true)
      | some true ↦ (ok tt, false)
      | some false ↦ (err feed_failed, true)
    ]
