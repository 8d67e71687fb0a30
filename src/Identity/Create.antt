-- ===== src/Identity/Create.antt =====
-- internal/identity/identity.go: `LoadOrCreate` and `create`, over crypto/ed25519, crypto/x509 and
-- encoding/pem.
pub mod Again
use lanclip.Base.{
  ℕ, ◌-◌, Bool, true, false, not, Option, none, some, ◌++◌, Text, codes, if◌then◌else◌, Result, ok,
  err, ◌>>=◌, ◌>>◌, guard, or_err,
}
use lanclip.Identity.Certificate.{name_prefix}
use lanclip.Identity.Parse.{PrivateKey, Decoders, Identity, parse}
use lanclip.Identity.Parse
use lanclip.Identity.Uuid.{uuid}

-- What `create` sets of the x509.Certificate that is signed.
pub record Template : Type 0 where
  pub serial : Text
  pub common_name : Text
  pub not_before : ℕ
  pub not_after : ℕ

pub record Encoders : Type 0 where
  -- x509.CreateCertificate with the template as its own parent, and the key's two halves
  pub certificate : Template → PrivateKey → Option Text
  -- x509.MarshalPKCS8PrivateKey
  pub private_key : PrivateKey → Option Text
  -- pem.EncodeToMemory of a block
  pub pem : Text → Text → Text

-- The random source's answers, and whether the file is written and its mode set; `left` is what a failed
-- write leaves.
pub record CreateIo : Type 0 where
  pub key : Option PrivateKey
  pub id_bytes : Option Text
  pub serial : Option Text
  pub write : Bool
  pub left : Option Text
  pub chmod : Bool

pub data Error : Type 0 where
  no_key no_id no_serial not_signed no_pkcs8 write_failed chmod_failed unreadable : Error
  parse_failed : Parse.Error → Error

-- time.Hour
abbrev pub hour : ℕ
hour = 3_600_000_000_000

abbrev pub template : (ℕ → ℕ) → ℕ → Text → Text → Template
template in_20_years now id serial = record {
  serial = serial;
  common_name = name_prefix ++ id;
  not_before = now - hour;
  not_after = in_20_years now;
}

abbrev pub file_of : Encoders → Text → Text → Text
file_of enc der pkcs8 = enc.pem (codes "CERTIFICATE") der ++ enc.pem (codes "PRIVATE KEY") pkcs8

-- The identity before it is written.
unfoldable pub generate : Encoders → (ℕ → ℕ) → ℕ → CreateIo → Result Error Identity
generate enc in_20_years now io = do
  key ← or_err io.key no_key
  id ← or_err (uuid io.id_bytes) no_id
  serial ← or_err io.serial no_serial
  der ← or_err (enc.certificate (template in_20_years now id serial) key) not_signed
  pkcs8 ← or_err (enc.private_key key) no_pkcs8
  ok (record { id = id; certificate = der; private_key = key; tls_cert = file_of enc der pkcs8 })

-- create, with the file after it; `in_20_years` is now.AddDate(20, 0, 0).
unfoldable pub create :
    Encoders → (ℕ → ℕ) → ℕ → CreateIo → Option Text → Option Text × Result Error Identity
unfolding generate
create enc in_20_years now io file = elim (generate enc in_20_years now io) [
  | err e ↦ (file, err e)
  | ok i ↦
      if not io.write
      then (io.left, err write_failed)
      else if io.chmod
      then (some i.tls_cert, ok i)
      else (some i.tls_cert, err chmod_failed)
]

abbrev pub parsed : Result Parse.Error Identity → Result Error Identity
parsed (ok i) = ok i
parsed (err e) = err (parse_failed e)

-- LoadOrCreate; the flag says whether a file that is there can be read.
unfoldable pub load_or_create :
    Encoders
    → Decoders
    → (ℕ → ℕ)
    → ℕ
    → CreateIo
    → Bool
    → Option Text
    → Option Text × Result Error Identity
unfolding create
load_or_create enc dec in_20_years now io readable none = create enc in_20_years now io none
load_or_create enc dec in_20_years now io readable (some b) =
    (some b, if readable then parsed (parse dec now b) else err unreadable)
