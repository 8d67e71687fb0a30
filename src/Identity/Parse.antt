-- ===== src/Identity/Parse.antt =====
-- internal/identity/identity.go: `parse`, over the decoders of encoding/pem and crypto/x509.
use lanclip.Base.{
  ℕ, ◌≡◌, refl, Bool, true, false, not, ◌||◌, ◌&&◌, Option, Text, codes, text_eq, text_eq_iff,
  arith, if◌then◌else◌, has_prefix, drop, ◌++◌, [], ◌∷◌, Result, ok, ◌>>=◌, ◌>>◌, guard, guard_inv,
  or_err, Bool-cases, inl, inr, text_eq_refl, length,
}
use lanclip.Identity.Certificate.{
  Certificate, is_current, name_prefix, validate_certificate_identity,
}
use lanclip.Identity.Uuid.{valid_uuid}

pub record PrivateKey : Type 0 where
  -- whether it is an ed25519.PrivateKey, and its public half
  pub is_ed25519 : Bool
  pub public : Text

pub record Block : Type 0 where
  pub kind : Text
  pub bytes : Text
  pub rest : Text

pub record Decoders : Type 0 where
  -- pem.Decode
  pub pem : Text → Option Block
  -- x509.ParseCertificate and x509.ParsePKCS8PrivateKey
  pub certificate : Text → Option Certificate
  pub private_key : Text → Option PrivateKey

pub record Identity : Type 0 where
  pub id : Text
  pub certificate : Text
  pub private_key : PrivateKey
  pub tls_cert : Text

pub data Error : Type 0 where
  no_certificate no_private_key bad_certificate bad_key key_not_ed25519 bad_identity bad_uuid :
      Error
  cert_not_ed25519 key_mismatch bad_signature outside_validity : Error

-- strings.TrimPrefix
abbrev pub trim_prefix : Text → Text → Text
trim_prefix s prefix = if has_prefix s prefix then drop (length prefix) s else s

-- The checks on the certificate and the key, in the order of the code.
unfoldable pub check : ℕ → Certificate → PrivateKey → Result Error Text
check now cert key = do
  guard key.is_ed25519 key_not_ed25519
  let id = trim_prefix cert.common_name name_prefix
  guard (not (text_eq id cert.common_name || text_eq id [])) bad_identity
  guard (valid_uuid id) bad_uuid
  guard cert.is_ed25519 cert_not_ed25519
  guard (text_eq cert.public_key key.public) key_mismatch
  guard cert.self_signed bad_signature
  guard (is_current now cert) outside_validity
  ok id

unfoldable pub parse : Decoders → ℕ → Text → Result Error Identity
unfolding check
parse dec now b = do
  cert_block ← or_err (dec.pem b) no_certificate
  guard (text_eq cert_block.kind (codes "CERTIFICATE")) no_certificate
  key_block ← or_err (dec.pem cert_block.rest) no_private_key
  cert ← or_err (dec.certificate cert_block.bytes) bad_certificate
  key ← or_err (dec.private_key key_block.bytes) bad_key
  id ← check now cert key
  ok (record { id = id; certificate = cert_block.bytes; private_key = key; tls_cert = b })

trim_prefix-has_prefix : (s p : Text) → has_prefix s p ≡ true → s ≡ p ++ drop (length p) s
unfolding has_prefix
trim_prefix-has_prefix s [] h = refl
trim_prefix-has_prefix [] (y ∷ p) h = ground arith
trim_prefix-has_prefix (x ∷ s) (y ∷ p) h = ground (arith, trim_prefix-has_prefix s p)

validated :
    (cert : Certificate)
    → cert.common_name ≡ name_prefix ++ trim_prefix cert.common_name name_prefix
    → validate_certificate_identity cert (trim_prefix cert.common_name name_prefix) ≡ true
unfolding validate_certificate_identity
validated cert e = (text_eq_iff cert.common_name _).1 e

pub record Checked (now : ℕ) (cert : Certificate) (key : PrivateKey) (id : Text) : Type 0 where
  pub valid_id : valid_uuid id ≡ true
  pub names_id : validate_certificate_identity cert id ≡ true
  pub same_key : cert.public_key ≡ key.public
  pub both_ed25519 : (cert.is_ed25519 && key.is_ed25519) ≡ true
  pub signed : cert.self_signed ≡ true
  pub current : is_current now cert ≡ true

trimmed :
    (s : Text)
    → text_eq (trim_prefix s name_prefix) s ≡ false
    → s ≡ name_prefix ++ trim_prefix s name_prefix
trimmed s h = elim (Bool-cases (has_prefix s name_prefix)) [
  | inl e ↦ rw e (trim_prefix-has_prefix s name_prefix e)
  | inr e ↦ absurd (ground (arith, h, e, text_eq_refl s))
]

-- An identity file is accepted only if its certificate names a valid ID behind `lanclip:`, its Ed25519
-- key is the one of the private key, its own signature verifies and it is within its validity.
pub check-Checked :
    (now : ℕ) (cert : Certificate) (key : PrivateKey) (id : Text)
    → check now cert key ≡ ok id
    → Checked now cert key id
unfolding check
check-Checked now cert key id h =
    let name = cert.common_name in
    let id' = trim_prefix name name_prefix in
    let (a, h1) = guard_inv key.is_ed25519 _ _ id h in
    let (b, h2) = guard_inv (not (text_eq id' name || text_eq id' [])) _ _ id h1 in
    let (c, h3) = guard_inv (valid_uuid id') _ _ id h2 in
    let (d, h4) = guard_inv cert.is_ed25519 _ _ id h3 in
    let (e, h5) = guard_inv (text_eq cert.public_key key.public) _ _ id h4 in
    let (f, h6) = guard_inv cert.self_signed _ _ id h5 in
    let (g, h7) = guard_inv (is_current now cert) _ _ id h6 in
    let same : id' ≡ id = ground arith in
    record {
      valid_id = rw (← same) c;
      names_id = rw (← same) (validated cert (trimmed name (ground arith)));
      same_key = (text_eq_iff cert.public_key key.public).0 e;
      both_ed25519 = ground arith;
      signed = f;
      current = g;
    }
