-- ===== src/Tests/Travels.antt =====
-- A text on its way from one device's clipboard to another's.
use mathlib.Core.Path.{subst}
use lanclip.Base.{
  ◌≡◌, refl, sym, ap, ◌<◌, true, some, Text, codes, [], false, text_eq, length, ok, arith,
}
use lanclip.Base.Dict.{lookup}
use lanclip.Sync.{consume}
use lanclip.Protocol.{Message, MessageJson, version, default_max_frame, stamped, write}
use lanclip.Protocol.Utf8.{utf8_valid}
use lanclip.Protocol.Frames.{ReadsBack}
use lanclip.Daemon.Conns.{PeerConn}
use lanclip.Daemon.Clipboard.{clipboard_message}
use lanclip.Daemon.Clipboard.Travel.{IsFresh, Travels, copied_text-Travels}
use lanclip.Tests.Channels.{itself, two_conns, turn, fresh, window}
use lanclip.Tests.Messages.{slow}

abbrev note : Message
note = clipboard_message (codes "e1") (codes "hello")

-- The text is the encoding.
abbrev note_json : MessageJson
note_json = record {
  marshal = λ m. some m.text;
  unmarshal = λ b. some (record note { protocol = version; text = b });
}

hello_valid : utf8_valid (codes "hello") ≡ true
unfolding utf8_valid
hello_valid = refl

the_text : (b : Text) → note_json.marshal (stamped note) ≡ some b → codes "hello" ≡ b
the_text b e = cc e

note-ReadsBack : ReadsBack note_json (stamped note)
note-ReadsBack = record {
  decodes =
      λ b e. ap (λ t. some (record note { protocol = version; text = t })) (sym (the_text b e));
  is_utf8 = λ b e. subst (λ t. utf8_valid t ≡ true) (the_text b e) hello_valid;
  not_empty = λ b e. subst (λ t. 0 < length t) (the_text b e) (omega arith);
}

hello-IsFresh : IsFresh itself 100 50 (codes "hello") fresh
unfolding text_eq consume
hello-IsFresh = record { not_empty = refl; fits = omega arith; not_ours = refl }

note_sends : (write note_json note default_max_frame slow).1 ≡ ok tt
unfolding write
note_sends = refl

abbrev other : PeerConn
other = record { handle = 2; id = codes "b"; address = []; outbound = false }

other_found : lookup (codes "b") two_conns.conns ≡ some other
unfolding lookup text_eq
other_found = refl

copied_text-Travels_example :
    Travels itself itself note_json 100 100 50 5 60
      (codes "e1")
      (some (codes "e2"))
      (codes "hello")
      (codes "rest")
      (codes "a")
      (codes "b")
      other
      two_conns
      two_conns
      two_conns
      fresh
      fresh
      slow
      window
      turn
copied_text-Travels_example =
    copied_text-Travels itself itself note_json 100 100 50 5 60 (codes "e1") (some (codes "e2"))
      (codes "hello") (codes "rest") (codes "a") (codes "b") other two_conns two_conns two_conns
      fresh fresh slow window turn hello-IsFresh (omega arith) other_found note_sends note-ReadsBack
      (omega arith) refl (omega arith)
