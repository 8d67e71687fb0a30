-- ===== src/Protocol/Bounds.antt =====
-- What a message that Read returns says of the stream.
use lanclip.Base.{
  ℕ, ◌≤◌, ◌<◌, ◌≡◌, ◌≢◌, sym, ap, ◌∙◌, true, not, ◌||◌, [], ◌++◌, Text, some, text_eq, text_eq_iff,
  ltb, ◌==◌, length, ok, guard_inv, >>=-eq-ok, or_err, or_err_inv, arith,
}
use lanclip.Protocol.Utf8.{utf8_valid}
use lanclip.Protocol.Frames.{read_full_inv}
use lanclip.Protocol.{Message, MessageJson, version, read_full, decode_length, decode, read}

pub record Decoded (json : MessageJson) (b : Text) (m : Message) : Type 0 where
  pub utf8 : utf8_valid b ≡ true
  pub parsed : json.unmarshal b ≡ some m
  pub current : m.protocol ≡ version
  pub typed : m.kind ≢ []

decode-Decoded :
    (json : MessageJson) (b : Text) (m : Message) → decode json b ≡ ok m → Decoded json b m
unfolding decode
decode-Decoded json b m h =
    let (u, h1) = guard_inv (utf8_valid b) _ _ m h in
    let (m', d, h2) = >>=-eq-ok (or_err (json.unmarshal b) _) _ m h1 in
    let (v, h3) = guard_inv (m'.protocol == version) _ _ m h2 in
    let (k, h4) = guard_inv (not (text_eq m'.kind [])) _ _ m h3 in
    let same : m' ≡ m = ground arith in
    let named : m'.kind ≢ [] = λ e. ground (arith, k, e, text_eq_iff m'.kind []) in
    rw (← same) (record {
      utf8 = u;
      parsed = or_err_inv (json.unmarshal b) _ m' d;
      current = ground arith;
      typed = named;
    })

-- The stream begins with a header that gives the length of the body, and the body decodes.
pub record Taken (json : MessageJson) (max : ℕ) (s : Text) (m : Message) (rest : Text)
    : Type 0 where
  pub header : Text
  pub body : Text
  pub stream : s ≡ header ++ (body ++ rest)
  pub four : length header ≡ 4
  pub announced : decode_length header ≡ length body
  pub not_empty : 0 < length body
  pub bounded : length body ≤ max
  pub decoded : Decoded json body m

-- Read returns a message only off a stream that begins with a four-byte header and the body that it
-- announces, of at least one byte and at most the limit, in valid UTF-8, that parses to the message;
-- the message has a type and the current protocol number, and nothing after the body is consumed.
pub read-Taken :
    (json : MessageJson) (max : ℕ) (s : Text) (m : Message) (rest : Text)
    → read json max s ≡ ok (m, rest)
    → Taken json max s m rest
unfolding read
read-Taken json max s m rest h =
    let (first, a, h1) = >>=-eq-ok (read_full 4 s) _ (m, rest) h in
    let n : ℕ = decode_length first.0 in
    let (good, h2) = guard_inv (not (n == 0 || ltb max n)) _ _ (m, rest) h1 in
    let (second, b, h3) = >>=-eq-ok (read_full n first.1) _ (m, rest) h2 in
    let (m', d, h4) = >>=-eq-ok (decode json second.0) _ (m, rest) h3 in
    let same : m' ≡ m = ground arith in
    let left : second.1 ≡ rest = ground arith in
    let (s1, four) = read_full_inv 4 s first.0 first.1 a in
    let (s2, long) = read_full_inv n first.1 second.0 second.1 b in
    record {
      header = first.0;
      body = second.0;
      stream = s1 ∙ ap (λ t. first.0 ++ t) (s2 ∙ ap (λ t. second.0 ++ t) left);
      four = four;
      announced = sym long;
      not_empty = ground arith;
      bounded = ground arith;
      decoded = rw (← same) (decode-Decoded json second.0 m' d);
    }
