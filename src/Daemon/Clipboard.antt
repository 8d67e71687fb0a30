-- ===== src/Daemon/Clipboard.antt =====
-- internal/daemon/daemon.go: the turns of readLoop's reader, localLoop, writeLoop and
-- clipboardWriteLoop. A turn takes what its select received, and what the system answers, as arguments.
pub mod Echo
pub mod Flow
pub mod Travel
use lanclip.Base.{
  ℕ, ◌+◌, ◌-◌, Bool, true, false, not, ◌||◌, ◌&&◌, Option, none, some, List, [], ◌∷◌, ◌++◌, map,
  Text, codes, text_eq, ltb, leb, if◌then◌else◌, length, Result, ok, err, is_ok,
}
use lanclip.Base.Dict.{Dict}
use lanclip.Sync.{Suppressor, add, consume}
use lanclip.Protocol.{Message}
use lanclip.Daemon.Conns.{Registry, PeerConn, record_error, record_sent, record_received}

abbrev pub max_clipboard_frames_per_second : ℕ
max_clipboard_frames_per_second = 30

abbrev pub second : ℕ
second = 1_000_000_000

abbrev pub plain_text : Text
plain_text = codes "text/plain;charset=utf-8"

pub record InboundClipboard : Type 0 where
  pub peer_id : Text
  pub event_id : Text
  pub text : Text

-- clipboardWindow and clipboardCount
pub record Window : Type 0 where
  pub since : ℕ
  pub count : ℕ

-- What the reader does with a message: it goes on, hands a text to enqueueClipboard, answers a ping with
-- a pong of this nonce, or ends with an error.
pub data Action : Type 0 where
  skips : Action
  accepts : InboundClipboard → Action
  pongs : Text → Action
  stops : Action

-- The three tests on a clipboard message.
abbrev pub is_usable : ℕ → Message → Bool
is_usable max m =
    not (text_eq m.text []) && (text_eq m.mime plain_text && not (ltb max (length m.text)))

-- `if now.Sub(clipboardWindow) >= time.Second { … }; clipboardCount++`
abbrev pub counted : ℕ → Window → Window
counted now w =
    if leb second (now - w.since)
    then record { since = now; count = 1 }
    else record w { count = w.count + 1 }

abbrev pub inbound : Text → Message → InboundClipboard
inbound peer m = record { peer_id = peer; event_id = m.event_id; text = m.text }

-- The switch of the reader; `now` is read where a clipboard message is usable.
unfoldable pub receive : ℕ → Text → ℕ → Message → Window → Window × Action
receive max peer now m w =
    if text_eq m.kind (codes "clipboard")
    then (if not (is_usable max m)
        then (w, skips)
        else (let w' = counted now w in
            if ltb max_clipboard_frames_per_second w'.count
            then (w', stops)
            else (w', accepts (inbound peer m))))
    else if text_eq m.kind (codes "ping")
    then (w, pongs m.nonce)
    else (w, skips)

abbrev pub accepted_of : Action → List InboundClipboard
accepted_of (accepts c) = c ∷ []
accepted_of _ = []

abbrev pub goes_on : Action → Bool
goes_on stops = false
goes_on _ = true

-- The reader on the messages that it reads, each at its time: the texts handed on, until it ends.
unfoldable pub receive_all : ℕ → Text → List (ℕ × Message) → Window → List InboundClipboard
unfolding receive
receive_all max peer [] w = []
receive_all max peer ((now, m) ∷ ms) w =
    let (w', a) = receive max peer now m w in
    let rest = receive_all max peer ms w' in accepted_of a ++ (if goes_on a then rest else [])

abbrev pub clipboard_message : Text → Text → Message
clipboard_message id text = record {
  kind = codes "clipboard";
  protocol = 0;
  device_id = [];
  name = [];
  event_id = id;
  mime = plain_text;
  text = text;
  nonce = [];
  code = [];
  fingerprint = [];
  error_code = [];
}

abbrev pub to_all : Dict PeerConn → Message → List (PeerConn × Message)
to_all conns m = map (λ (id, pc). (pc, m)) conns

-- The clock as clipboardWriteLoop reads it: in Add's prune and for the entry, in Consume, and at the
-- end; and the result of the adapter's Write.
pub record Turn : Type 0 where
  pub prune_time : ℕ
  pub add_time : ℕ
  pub consume_time : ℕ
  pub end_time : ℕ
  pub written : Result Text (Unit {0})

module _ (sum : Text → Text) where
  -- A turn of localLoop: the calls of enqueuePeer. `id` is identity.UUID().
  unfoldable pub broadcast :
      ℕ → ℕ → Option Text → Text → Registry → Suppressor → Suppressor × List (PeerConn × Message)
  broadcast max now id text r s =
      if text_eq text [] || ltb max (length text)
      then (s, [])
      else (let (s', ours) = consume sum now text s in
          if ours then (s', []) else elim id [
            | none ↦ (s', [])
            | some i ↦ (s', to_all r.conns (clipboard_message i text))
          ])

  -- A turn of clipboardWriteLoop.
  unfoldable pub write_clipboard :
      Turn → InboundClipboard → Registry → Suppressor → Registry × Suppressor
  write_clipboard t next r s =
      let s' = add sum t.prune_time t.add_time next.event_id next.text s in
      elim t.written [
        | err e ↦
            let (s'', _) = consume sum t.consume_time next.text s' in
            (record_error next.peer_id e r, s'')
        | ok _ ↦ (record_received next.peer_id t.end_time next.text r, s')
      ]

-- A turn of writeLoop, given the result of send, and whether the loop goes on; on an error it closes
-- the socket and ends.
unfoldable pub write_peer :
    ℕ → PeerConn → Result Text (Unit {0}) → Message → Registry → Registry × Bool
write_peer now pc (err e) m r =
    let r' = record_error pc.id e r in (record r' { closed = pc.handle ∷ r'.closed }, false)
write_peer now pc (ok _) m r = (record_sent pc.id now m.text r, true)
