-- ===== src/Protocol/Frames.antt =====
-- A frame that was written is the frame that is read.
use mathlib.Core.List.{append_assoc, append-nil}
use lanclip.Base.{
  ℕ, ◌^◌, ◌≤◌, ◌<◌, ◌≡◌, ◌≢◌, refl, sym, ap, ◌∙◌, true, not, ◌||◌, none, some, List, [], ◌∷◌, ◌++◌,
  Text, text_eq, text_eq_iff, ltb, leb, leb→le, ◌==◌, length, take, drop, ok, ◌>>=◌, arith,
  Bool-cases, inl, inr, Option-cases, Result-cases, ◌⊎◌, take-append-drop, take-append, drop-append,
  length-append, length-take,
}
use lanclip.Protocol.Utf8.{utf8_valid}
use lanclip.Protocol.{
  Message, MessageJson, Answer, fails, takes, Writer, version, put_uint32, write_all, stamped,
  write, read_full, decode_length, decode, read,
}

-- A length below 2 ^ 32 survives its four bytes.
pub decode_length-put_uint32 : (n : ℕ) → n < 2 ^ 32 → decode_length (put_uint32 n) ≡ n
unfolding put_uint32 decode_length
decode_length-put_uint32 n h = omega arith

-- Without an error all of the bytes went through, however the writer cut them.
write_all_sent :
    (answers : List Answer) (sent b : Text)
    → (write_all answers sent b).1 ≡ ok tt
    → (write_all answers sent b).0.sent ≡ sent ++ b
unfolding write_all
write_all_sent answers sent [] h = sym (append-nil sent)
write_all_sent [] sent (x ∷ b) h = refl
write_all_sent (fails ∷ answers) sent (x ∷ b) h = absurd (cc h)
write_all_sent (takes n ∷ answers) sent (x ∷ b) h =
    elim (Bool-cases (n == 0 || ltb (length (x ∷ b)) n)) [
      | inl bad ↦ absurd (ground (arith, bad))
      | inr good ↦
          let later =
            write_all_sent answers (sent ++ take n (x ∷ b)) (drop n (x ∷ b))
              (rw (good, write_all) at h) in
          rw (good, write_all)
            (later
              ∙ append_assoc sent (take n (x ∷ b)) (drop n (x ∷ b))
              ∙ ap (λ s. sent ++ s) (take-append-drop n (x ∷ b)))
    ]

-- The bytes of a message on the wire.
abbrev pub frame : Text → Text
frame b = put_uint32 (length b) ++ b

-- A call of Write that reports no error encoded the message within the limit, and sent its frame.
pub record Written (json : MessageJson) (m : Message) (max : ℕ) (w w' : Writer) : Type 0 where
  pub body : Text
  pub encoded : json.marshal (stamped m) ≡ some body
  pub fits : length body ≤ max
  pub sent : w'.sent ≡ w.sent ++ frame body

write_body :
    (json : MessageJson) (m : Message) (max : ℕ) (w : Writer) (b : Text)
    → json.marshal (stamped m) ≡ some b
    → (write json m max w).1 ≡ ok tt
    → Written json m max w (write json m max w).0
unfolding write
write_body json m max w b e h = elim (Bool-cases (ltb max (length b))) [
  | inl long ↦ absurd (ground (arith, e, long))
  | inr fits ↦ elim (Result-cases (write_all w.answers w.sent (put_uint32 (length b))).1) [
    | inr (x, f) ↦ absurd (ground (arith, e, fits, f))
    | inl (x, f) ↦
        let w' = (write_all w.answers w.sent (put_uint32 (length b))).0 in
        let first = write_all_sent w.answers w.sent (put_uint32 (length b)) f in
        let g : (write_all w'.answers w'.sent b).1 ≡ ok tt = ground (arith, e, fits, f) in
        record {
          body = b;
          encoded = e;
          fits = ground arith;
          sent =
              rw (e, fits, f, write)
                (write_all_sent w'.answers w'.sent b g
                  ∙ ap (λ s. s ++ b) first
                  ∙ append_assoc w.sent (put_uint32 (length b)) b);
        }
  ]
]

unmarshalled :
    (json : MessageJson) (m : Message) (max : ℕ) (w : Writer)
    → json.marshal (stamped m) ≡ none
    → (write json m max w).1 ≢ ok tt
unfolding write
unmarshalled json m max w e h = ground (arith, e, h)

-- Whatever number of bytes the writer takes at a time, a Write that reports no error has encoded the
-- message within the limit and sent exactly the frame of its encoding.
pub write-Written :
    (json : MessageJson) (m : Message) (max : ℕ) (w : Writer)
    → (write json m max w).1 ≡ ok tt
    → Written json m max w (write json m max w).0
write-Written json m max w h = elim (Option-cases (json.marshal (stamped m))) [
  | inl e ↦ absurd (unmarshalled json m max w e h)
  | inr (b, e) ↦ write_body json m max w b e h
]

length-put_uint32 : (n : ℕ) → length (put_uint32 n) ≡ 4
unfolding put_uint32
length-put_uint32 n = refl

pub read_full-append : (s t : Text) → read_full (length s) (s ++ t) ≡ ok (s, t)
unfolding read_full
read_full-append s t =
    let long : leb (length s) (length (s ++ t)) ≡ true = ground (arith, length-append s t) in
    rw (long, take-append s t, drop-append s t)

pub header_read : (n : ℕ) (t : Text) → read_full 4 (put_uint32 n ++ t) ≡ ok (put_uint32 n, t)
unfolding put_uint32
header_read n t = read_full-append (put_uint32 n) t

-- Read takes a whole frame off the stream, whatever follows it, and decodes its body.
pub read-frame :
    (json : MessageJson) (max : ℕ) (b rest : Text)
    → 0 < length b
    → length b ≤ max
    → max < 2 ^ 32
    → read json max (frame b ++ rest) ≡ (decode json b >>= λ m. ok (m, rest))
unfolding read
read-frame json max b rest p q r =
    let n : decode_length (put_uint32 (length b)) ≡ length b =
      decode_length-put_uint32 (length b) (omega arith) in
    let good : not (length b == 0 || ltb max (length b)) ≡ true = ground arith in
    rw (
      append_assoc (put_uint32 (length b)) b rest,
      header_read (length b) (b ++ rest),
      n,
      good,
      read_full-append b rest,
    )

-- What json.Unmarshal gives back of a message's encoding, which is valid UTF-8 and not empty.
pub record ReadsBack (json : MessageJson) (m : Message) : Type 0 where
  pub decodes : (b : Text) → json.marshal m ≡ some b → json.unmarshal b ≡ some m
  pub is_utf8 : (b : Text) → json.marshal m ≡ some b → utf8_valid b ≡ true
  pub not_empty : (b : Text) → json.marshal m ≡ some b → 0 < length b

decode_encoded :
    (json : MessageJson) (m : Message) (b : Text)
    → ReadsBack json m
    → json.marshal m ≡ some b
    → m.protocol ≡ version
    → m.kind ≢ []
    → decode json b ≡ ok m
unfolding decode
decode_encoded json m b r e v k =
    let u = r.is_utf8 b e in
    let d = r.decodes b e in
    let named : not (text_eq m.kind []) ≡ true = ground (arith, text_eq_iff m.kind []) in
    let same : (m.protocol == version) ≡ true = ground (arith, v) in rw (u, d, same, named)

stamped_protocol :
    (m : Message) → (m.protocol ≡ 0) ⊎ (m.protocol ≡ version) → (stamped m).protocol ≡ version
stamped_protocol m v = ground (arith, v)

stamped_kind : (m : Message) → (stamped m).kind ≡ m.kind
stamped_kind m = ground arith

-- A message that Write sent without an error is the message that Read returns, with the current
-- protocol number filled in, and Read leaves what follows the frame in the stream. This holds
-- whatever the sizes of the writes, for a message with a type and no foreign protocol number whose
-- encoding reads back, and a limit below 2 ^ 32.
pub read-write :
    (json : MessageJson) (m : Message) (max : ℕ) (w : Writer) (rest : Text)
    → (write json m max w).1 ≡ ok tt
    → (m.protocol ≡ 0) ⊎ (m.protocol ≡ version)
    → m.kind ≢ []
    → ReadsBack json (stamped m)
    → max < 2 ^ 32
    → (f : Text) × ((write json m max w).0.sent ≡ w.sent ++ f)
      × (read json max (f ++ rest) ≡ ok (stamped m, rest))
read-write json m max w rest h v k r small =
    let s = write-Written json m max w h in
    let d =
      decode_encoded json (stamped m) s.body r s.encoded (stamped_protocol m v)
        (λ e. k (sym (stamped_kind m) ∙ e)) in
    (
      frame s.body,
      s.sent,
      rw (read-frame json max s.body rest (r.not_empty s.body s.encoded) s.fits small, d),
    )

pub read_full_inv :
    (n : ℕ) (s a t : Text) → read_full n s ≡ ok (a, t) → (s ≡ a ++ t) × (length a ≡ n)
unfolding read_full
read_full_inv n s a t h = elim (Bool-cases (leb n (length s))) [
  | inr short ↦ absurd (ground (arith, h, short))
  | inl long ↦
      let ea : take n s ≡ a = ground (arith, h, long) in
      let et : drop n s ≡ t = ground (arith, h, long) in
      (
        sym (rw (← ea, ← et) (take-append-drop n s)),
        rw (← ea) (omega (arith, length-take n s, leb→le n (length s) long)),
      )
]
