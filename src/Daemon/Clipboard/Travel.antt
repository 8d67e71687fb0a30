-- ===== src/Daemon/Clipboard/Travel.antt =====
-- A text from one device's clipboard to another's.
use mathlib.Core.Path.{subst}
use mathlib.Core.List.{Memᴰ}
use lanclip.Base.{
  ℕ, ◌+◌, ◌<◌, ◌≤◌, ◌≡◌, refl, sym, ap, inl, inr, true, false, ◌||◌, Option, some, [], ◌∷◌, ◌++◌,
  Text, text_eq, ltb, length, ok, arith, Bool-cases,
}
use lanclip.Base.Dict.{Dict, lookup}
use lanclip.Sync.{Suppressor, consume}
use lanclip.Protocol.{default_max_frame, Message, MessageJson, Writer, stamped, write, read}
use lanclip.Protocol.Frames.{ReadsBack, read-write}
use lanclip.Daemon.Conns.{Registry, PeerConn}
use lanclip.Daemon.Clipboard.{
  InboundClipboard, Window, Turn, accepts, is_usable, counted, receive, broadcast, write_clipboard,
  clipboard_message, to_all, max_clipboard_frames_per_second,
}
use lanclip.Daemon.Clipboard.Echo.{no_echo}

to_all-Memᴰ :
    (conns : Dict PeerConn) (m : Message) (id : Text) (pc : PeerConn)
    → lookup id conns ≡ some pc
    → Memᴰ (pc, m) (to_all conns m)
unfolding lookup
to_all-Memᴰ [] m id pc e = absurd (cc e)
to_all-Memᴰ ((j, q) ∷ conns) m id pc e = elim (Bool-cases (text_eq j id)) [
  | inl x ↦ let it : pc ≡ q = ground (arith, e, x) in Memᴰ.head (ap (λ c. (c, m)) it)
  | inr x ↦ Memᴰ.tail (to_all-Memᴰ conns m id pc (ground (arith, e, x)))
]

-- The text is one to send: not empty, within the limit, and not one that was just received.
pub record IsFresh (sum : Text → Text) (max now : ℕ) (text : Text) (s : Suppressor) : Type 0 where
  pub not_empty : text_eq text [] ≡ false
  pub fits : length text ≤ max
  pub not_ours : (consume sum now text s).1 ≡ false

broadcast-all :
    (sum : Text → Text) (max now : ℕ) (event text : Text) (r : Registry) (s : Suppressor)
    → IsFresh sum max now text s
    → (broadcast sum max now (some event) text r s).1
      ≡ to_all r.conns (clipboard_message event text)
unfolding broadcast
broadcast-all sum max now event text r s h =
    let good : (text_eq text [] || ltb max (length text)) ≡ false =
      ground (arith, h.not_empty, h.fits) in
    rw (good, h.not_ours, broadcast) refl

-- What the other end makes of the message.
abbrev pub arrival : Text → Text → Text → InboundClipboard
arrival from event text = record { peer_id = from; event_id = event; text = text }

receive-accepts :
    (max now : ℕ) (from event text : Text) (v : Window)
    → text_eq text [] ≡ false
    → length text ≤ max
    → (counted now v).count ≤ max_clipboard_frames_per_second
    → (receive max from now (stamped (clipboard_message event text)) v).1
      ≡ accepts (arrival from event text)
unfolding receive text_eq
receive-accepts max now from event text v n l c =
    let fits : is_usable max (stamped (clipboard_message event text)) ≡ true =
      ground (arith, n, l) in
    let few : ltb max_clipboard_frames_per_second (counted now v).count ≡ false =
      ground (arith, c) in
    rw (fits, few) refl

-- What a copied text meets on its way: the sender's adapter and connection, the bytes of the frame, the
-- receiver's reader, and the receiver's own clipboard event.
pub record Travels (sum sum' : Text → Text) (json : MessageJson) (max max' now at later : ℕ)
    (event : Text) (own : Option Text) (text rest from peer : Text) (pc : PeerConn)
    (r before after : Registry) (s s' : Suppressor) (writer : Writer) (v : Window) (t : Turn)
    : Type 0 where
  pub enqueued :
      Memᴰ (pc, clipboard_message event text) (broadcast sum max now (some event) text r s).1
  pub frame : Text
  pub sent :
      (write json (clipboard_message event text) default_max_frame writer).0.sent
      ≡ writer.sent ++ frame
  pub message : Message
  pub read_back : read json default_max_frame (frame ++ rest) ≡ ok (message, rest)
  pub accepted : (receive max' from at message v).1 ≡ accepts (arrival from event text)
  pub not_echoed :
      (broadcast sum' max' later own text after
        (write_clipboard sum' t (arrival from event text) before s').1).1
      ≡ []

-- A copied text travels to each connected peer and comes to rest there: a text that is not empty, within the
-- limits of both devices and not one that the sender has just received is enqueued for the connection of
-- every registered peer; if Write sends the message, the bytes that go out are read back as a message,
-- whatever follows them; the peer's reader accepts it, with the text and the event ID, if it is not one
-- too many in its second; and once the peer has written the text, the event that reports this there is
-- sent to nobody, if it comes within the time to live. The message's encoding reads back.
pub copied_text-Travels :
    (sum sum' : Text → Text) (json : MessageJson) (max max' now at later : ℕ) (event : Text)
    (own : Option Text) (text rest from peer : Text) (pc : PeerConn) (r before after : Registry)
    (s s' : Suppressor) (writer : Writer) (v : Window) (t : Turn)
    → IsFresh sum max now text s
    → length text ≤ max'
    → lookup peer r.conns ≡ some pc
    → (write json (clipboard_message event text) default_max_frame writer).1 ≡ ok tt
    → ReadsBack json (stamped (clipboard_message event text))
    → (counted at v).count ≤ max_clipboard_frames_per_second
    → t.written ≡ ok tt
    → later < t.add_time + s'.ttl
    → Travels sum sum' json max max' now at later event own text rest from peer pc r before after s
        s' writer v t
copied_text-Travels sum sum' json max max' now at later event own text rest from peer pc r before
      after s s' writer v t fresh fits found sends reads few written soon =
    let m = clipboard_message event text in
    let (bytes, out, back) =
      read-write json m default_max_frame writer rest sends (inl refl) (λ e. cc e) reads
        (omega arith) in
    record {
      enqueued =
          subst (Memᴰ (pc, m)) (sym (broadcast-all sum max now event text r s fresh))
            (to_all-Memᴰ r.conns m peer pc found);
      frame = bytes;
      sent = out;
      message = stamped m;
      read_back = back;
      accepted = receive-accepts max' at from event text v fresh.not_empty fits few;
      not_echoed =
          no_echo sum' t (arrival from event text) before after s' max' later own written soon;
    }
