-- ===== src/Protocol.antt =====
-- internal/protocol/protocol.go: messages and frames. The JSON codec of encoding/json is a parameter;
-- a stream that is read is the list of the bytes that will arrive before it ends.
pub mod Utf8
pub mod Frames
pub mod Bounds
use lanclip.Base.{
  ℕ, zero, suc, ◌+◌, ◌-◌, ◌*◌, ◌/◌, ◌%◌, ◌^◌, ◌≤◌, ◌≡◌, Bool, true, false, not, ◌||◌, ◌&&◌, Option,
  none, some, List, [], ◌∷◌, ◌++◌, Text, codes, text_eq, ltb, leb, ◌==◌, if◌then◌else◌, length,
  take, drop, Result, ok, err, ◌>>=◌, ◌>>◌, guard, or_err,
}
use lanclip.Protocol.Utf8.{utf8_valid}

abbrev pub version : ℕ
version = 1

-- 7 << 20
abbrev pub default_max_frame : ℕ
default_max_frame = 7_340_032

-- `Type` is `kind` here.
pub record Message : Type 0 where
  pub kind : Text
  pub protocol : ℕ
  pub device_id : Text
  pub name : Text
  pub event_id : Text
  pub mime : Text
  pub text : Text
  pub nonce : Text
  pub code : Text
  pub fingerprint : Text
  pub error_code : Text

-- json.Marshal and json.Unmarshal at `Message`
pub record MessageJson : Type 0 where
  pub marshal : Message → Option Text
  pub unmarshal : Text → Option Message

pub data Error : Type 0 where
  marshal_failed too_long write_failed short_write : Error
  end_of_stream unexpected_end bad_length not_utf8 malformed bad_protocol no_type : Error

-- binary.BigEndian.PutUint32 of uint32(n)
unfoldable pub put_uint32 : ℕ → Text
put_uint32 n = n / 2 ^ 24 % 256 ∷ n / 2 ^ 16 % 256 ∷ n / 2 ^ 8 % 256 ∷ n % 256 ∷ []

-- binary.BigEndian.Uint32
abbrev pub uint32 : ℕ → ℕ → ℕ → ℕ → ℕ
uint32 a b c d = a * 2 ^ 24 + b * 2 ^ 16 + c * 2 ^ 8 + d

-- What one call of `w.Write` answers: an error, or how many bytes it took (a Go writer may break the
-- rule and answer a number out of range, negative ones being 0 here).
pub data Answer : Type 0 where
  fails : Answer
  takes : ℕ → Answer

-- A writer: the bytes that went through, and the answers that it will give. When they have run out
-- it takes all that it is given.
pub record Writer : Type 0 where
  pub sent : Text
  pub answers : List Answer

-- writeAll
unfoldable pub write_all : List Answer → Text → Text → Writer × Result Error (Unit {0})
write_all answers sent [] = (record { sent = sent; answers = answers }, ok tt)
write_all [] sent (x ∷ b) = (record { sent = sent ++ (x ∷ b); answers = [] }, ok tt)
write_all (fails ∷ answers) sent (x ∷ b) =
    (record { sent = sent; answers = answers }, err write_failed)
write_all (takes n ∷ answers) sent (x ∷ b) =
    let rest = write_all answers (sent ++ take n (x ∷ b)) (drop n (x ∷ b)) in
    if n == 0 || ltb (length (x ∷ b)) n
    then (record { sent = sent; answers = answers }, err short_write)
    else rest

-- `if m.Protocol == 0 { m.Protocol = Version }`
abbrev pub stamped : Message → Message
stamped m = if m.protocol == 0 then record m { protocol = version } else m

-- Write
unfoldable pub write : MessageJson → Message → ℕ → Writer → Writer × Result Error (Unit {0})
unfolding write_all put_uint32
write json m max w = elim (json.marshal (stamped m)) [
  | none ↦ (w, err marshal_failed)
  | some b ↦
      if ltb max (length b)
      then (w, err too_long)
      else let (w', header) = write_all w.answers w.sent (put_uint32 (length b)) in
        elim header [ err e ↦ (w', err e) | ok _ ↦ write_all w'.answers w'.sent b ]
]

-- io.ReadFull into n bytes: the bytes and the rest of the stream.
unfoldable pub read_full : ℕ → Text → Result Error (Text × Text)
read_full n s =
    if leb n (length s)
    then ok (take n s, drop n s)
    else if length s == 0
    then err end_of_stream
    else err unexpected_end

unfoldable pub decode_length : Text → ℕ
decode_length (a ∷ b ∷ c ∷ d ∷ []) = uint32 a b c d
decode_length _ = 0

-- The checks of Read on the decoded body.
unfoldable pub decode : MessageJson → Text → Result Error Message
unfolding utf8_valid
decode json b = do
  guard (utf8_valid b) not_utf8
  m ← or_err (json.unmarshal b) malformed
  guard (m.protocol == version) bad_protocol
  guard (not (text_eq m.kind [])) no_type
  ok m

-- Read: the message and the rest of the stream.
unfoldable pub read : MessageJson → ℕ → Text → Result Error (Message × Text)
unfolding decode
read json max s = do
  (header, body) ← read_full 4 s
  let n = decode_length header
  guard (not (n == 0 || ltb max n)) bad_length
  (b, rest) ← read_full n body
  m ← decode json b
  ok (m, rest)
