-- ===== src/Tests/Messages.antt =====
-- internal/protocol/protocol.go: messages sent and read.
use mathlib.Core.Path.{subst}
use lanclip.Base.{
  sym, ap, ◌≡◌, ◌≢◌, refl, inl, ◌<◌, ◌++◌, true, some, [], ◌∷◌, Text, codes, arith, ok, err, length,
  text_eq,
}
use lanclip.Protocol.{
  Message, MessageJson, Writer, fails, takes, bad_length, version, stamped, write, read,
}
use lanclip.Protocol.Utf8.{utf8_valid}
use lanclip.Protocol.Frames.{ReadsBack, read-write}
use lanclip.Protocol.Bounds.{Taken, read-Taken}

abbrev hello : Message
hello = record {
  kind = codes "hello";
  protocol = 0;
  device_id = [];
  name = [];
  event_id = [];
  mime = [];
  text = codes "hi";
  nonce = [];
  code = [];
  fingerprint = [];
  error_code = [];
}

-- The text is the encoding.
abbrev text_json : MessageJson
text_json = record {
  marshal = λ m. some m.text;
  unmarshal = λ b. some (record hello { protocol = version; text = b });
}

-- A writer that takes one byte, then three, then all.
abbrev pub slow : Writer
slow = record { sent = codes "x"; answers = takes 1 ∷ takes 3 ∷ [] }

sends : (write text_json hello 10 slow).1 ≡ ok tt
unfolding write
sends = refl

hi_valid : utf8_valid (codes "hi") ≡ true
unfolding utf8_valid
hi_valid = refl

the_body : (b : Text) → text_json.marshal (stamped hello) ≡ some b → codes "hi" ≡ b
the_body b e = cc e

hello-ReadsBack : ReadsBack text_json (stamped hello)
hello-ReadsBack = record {
  decodes =
      λ b e. ap (λ t. some (record hello { protocol = version; text = t })) (sym (the_body b e));
  is_utf8 = λ b e. subst (λ t. utf8_valid t ≡ true) (the_body b e) hi_valid;
  not_empty = λ b e. subst (λ t. 0 < length t) (the_body b e) (omega arith);
}

hello_named : hello.kind ≢ []
hello_named e = ground arith

read-write_example :
    (f : Text) × ((write text_json hello 10 slow).0.sent ≡ slow.sent ++ f)
    × (read text_json 10 (f ++ codes "rest") ≡ ok (stamped hello, codes "rest"))
read-write_example =
    read-write text_json hello 10 slow (codes "rest") sends (inl refl) hello_named hello-ReadsBack
      (omega arith)

reads :
    read text_json 10 (0 ∷ 0 ∷ 0 ∷ 2 ∷ codes "hirest")
    ≡ ok (record hello { protocol = version }, codes "rest")
unfolding read lanclip.Protocol.read_full lanclip.Protocol.decode_length text_eq
reads = refl

-- A frame above the limit is refused before its body is read.
too_long : read text_json 1 (0 ∷ 0 ∷ 0 ∷ 2 ∷ codes "hirest") ≡ err bad_length
unfolding read lanclip.Protocol.read_full lanclip.Protocol.decode_length
too_long = refl

read-Taken_example :
    Taken text_json 10
      (0 ∷ 0 ∷ 0 ∷ 2 ∷ codes "hirest")
      (record hello { protocol = version })
      (codes "rest")
read-Taken_example =
    read-Taken text_json 10 (0 ∷ 0 ∷ 0 ∷ 2 ∷ codes "hirest") (record hello { protocol = version })
      (codes "rest") reads
