-- ===== src/Identity/Create/Again.antt =====
-- A device that starts again has the identity that it made.
use mathlib.Core.Path.{subst}
use mathlib.Core.List.{append-nil}
use lanclip.Base.{
  ℕ, suc, ◌-◌, ◌*◌, ◌/◌, ◌≤◌, ◌+◌, ◌≡◌, refl, sym, ap, ◌∙◌, true, false, ◌&&◌, none, some, [], ◌∷◌,
  ◌++◌, Text, codes, text_eq, text_eq_iff, text_eq_refl, has_prefix, drop-append, length,
  length-append, ok, or_err_inv, or_err, >>=-eq-ok, arith, Result-cases, Bool-cases, inl, inr,
}
use lanclip.Identity.Hex.{IsBytes}
use lanclip.Identity.Uuid.{uuid, valid_uuid}
use lanclip.Identity.Uuid.Valid.{valid_uuid-uuid}
use lanclip.Identity.Certificate.{Certificate, name_prefix, is_current}
use lanclip.Identity.Parse.{PrivateKey, Decoders, Identity, trim_prefix, check, parse}
use lanclip.Identity.Create.{
  Template, Encoders, CreateIo, Error, template, file_of, generate, create, load_or_create, hour,
  parsed,
}

-- A certificate keeps whole seconds.
abbrev pub whole : ℕ → ℕ
whole t = t / 1_000_000_000 * 1_000_000_000

-- The certificate that is read where a template was signed with a key.
abbrev pub signed_by : Template → PrivateKey → Text → Certificate
signed_by t key der = record {
  raw = der;
  common_name = t.common_name;
  is_ed25519 = key.is_ed25519;
  public_key = key.public;
  not_before = whole t.not_before;
  not_after = whole t.not_after;
  self_signed = true;
}

-- What the decoders make of the encoders' output.
pub record ReadsBack (enc : Encoders) (dec : Decoders) : Type 0 where
  pub pem :
      (kind bytes rest : Text)
      → dec.pem (enc.pem kind bytes ++ rest)
        ≡ some (record { kind = kind; bytes = bytes; rest = rest })
  pub certificate :
      (t : Template) (key : PrivateKey) (der : Text)
      → enc.certificate t key ≡ some der
      → dec.certificate der ≡ some (signed_by t key der)
  pub private_key :
      (key : PrivateKey) (b : Text) → enc.private_key key ≡ some b → dec.private_key b ≡ some key

has_prefix-append : (p s : Text) → has_prefix (p ++ s) p ≡ true
unfolding has_prefix
has_prefix-append [] s = refl
has_prefix-append (x ∷ p) s = ground (arith, has_prefix-append p s)

trim_prefix-append : (p s : Text) → trim_prefix (p ++ s) p ≡ s
trim_prefix-append p s = rw (has_prefix-append p s) (drop-append p s)

longer_differs : (x : ℕ) (p s : Text) → text_eq s (x ∷ p ++ s) ≡ false
longer_differs x p s =
    let long : length (x ∷ p ++ s) ≡ suc (length p + length s) = omega (arith, length-append p s) in
    ground (arith, text_eq_iff s (x ∷ p ++ s), λ (e : s ≡ x ∷ p ++ s). ap length e)

-- What went into an identity.
record Generated (enc : Encoders) (in_20_years : ℕ → ℕ) (now : ℕ) (io : CreateIo) (i : Identity)
    : Type 0 where
  serial : Text
  pkcs8 : Text
  key : io.key ≡ some i.private_key
  id : uuid io.id_bytes ≡ some i.id
  signed : enc.certificate (template in_20_years now i.id serial) i.private_key ≡ some i.certificate
  exported : enc.private_key i.private_key ≡ some pkcs8
  contents : i.tls_cert ≡ file_of enc i.certificate pkcs8

generate-Generated :
    (enc : Encoders) (in_20_years : ℕ → ℕ) (now : ℕ) (io : CreateIo) (i : Identity)
    → generate enc in_20_years now io ≡ ok i
    → Generated enc in_20_years now io i
unfolding generate
generate-Generated enc in_20_years now io i h =
    let (key, a, h1) = >>=-eq-ok (or_err io.key Error.no_key) _ i h in
    let (id, b, h2) = >>=-eq-ok (or_err (uuid io.id_bytes) Error.no_id) _ i h1 in
    let (serial, c, h3) = >>=-eq-ok (or_err io.serial Error.no_serial) _ i h2 in
    let t = template in_20_years now id serial in
    let (der, d, h4) = >>=-eq-ok (or_err (enc.certificate t key) Error.not_signed) _ i h3 in
    let (pkcs8, e, h5) = >>=-eq-ok (or_err (enc.private_key key) Error.no_pkcs8) _ i h4 in
    let made : Identity = record {
      id = id;
      certificate = der;
      private_key = key;
      tls_cert = file_of enc der pkcs8;
    } in
    let same : made ≡ i = ground arith in
    subst (Generated enc in_20_years now io) same (record {
      serial = serial;
      pkcs8 = pkcs8;
      key = or_err_inv io.key _ key a;
      id = or_err_inv (uuid io.id_bytes) _ id b;
      signed = or_err_inv (enc.certificate t key) _ der d;
      exported = or_err_inv (enc.private_key key) _ pkcs8 e;
      contents = refl;
    })

valid_uuid_nonempty : (s : Text) → valid_uuid s ≡ true → text_eq s [] ≡ false
unfolding valid_uuid text_eq
valid_uuid_nonempty [] v = absurd (cc v)
valid_uuid_nonempty (c ∷ s) v = refl

check_made :
    (later : ℕ) (t : Template) (key : PrivateKey) (der id : Text)
    → t.common_name ≡ name_prefix ++ id
    → key.is_ed25519 ≡ true
    → valid_uuid id ≡ true
    → whole t.not_before ≤ later
    → later ≤ whole t.not_after
    → check later (signed_by t key der) key ≡ ok id
unfolding check
check_made later t key der id n k v a b =
    let trimmed : trim_prefix t.common_name name_prefix ≡ id =
      subst (λ s. trim_prefix s name_prefix ≡ id) (sym n) (trim_prefix-append name_prefix id) in
    let differs : text_eq id t.common_name ≡ false =
      subst (λ s. text_eq id s ≡ false) (sym n) (longer_differs b'l' (codes "anclip:") id) in
    let current : is_current later (signed_by t key der) ≡ true = ground arith in
    simp (k, trimmed, differs, valid_uuid_nonempty id v, v, text_eq_refl key.public, current)

parse_made :
    (enc : Encoders) (dec : Decoders) (in_20_years : ℕ → ℕ) (now later : ℕ) (io : CreateIo)
    (i : Identity)
    → ReadsBack enc dec
    → Generated enc in_20_years now io i
    → i.private_key.is_ed25519 ≡ true
    → valid_uuid i.id ≡ true
    → whole (now - hour) ≤ later
    → later ≤ whole (in_20_years now)
    → parse dec later i.tls_cert ≡ ok i
unfolding parse text_eq
parse_made enc dec in_20_years now later io i r g k v a b =
    let t = template in_20_years now i.id g.serial in
    let first = r.pem (codes "CERTIFICATE") i.certificate (enc.pem (codes "PRIVATE KEY") g.pkcs8) in
    let second =
      subst
        (λ s. dec.pem s ≡ some (record { kind = codes "PRIVATE KEY"; bytes = g.pkcs8; rest = [] }))
        (append-nil (enc.pem (codes "PRIVATE KEY") g.pkcs8))
        (r.pem (codes "PRIVATE KEY") g.pkcs8 []) in
    let cert = r.certificate t i.private_key i.certificate g.signed in
    let key = r.private_key i.private_key g.pkcs8 g.exported in
    let checked = check_made later t i.private_key i.certificate i.id refl k v a b in
    rw g.contents (simp (first, second, cert, key, checked))

created :
    (enc : Encoders) (in_20_years : ℕ → ℕ) (now : ℕ) (io : CreateIo) (i : Identity)
    → (create enc in_20_years now io none).1 ≡ ok i
    → (generate enc in_20_years now io ≡ ok i)
      × ((create enc in_20_years now io none).0 ≡ some i.tls_cert)
unfolding create
created enc in_20_years now io i h = elim (Result-cases (generate enc in_20_years now io)) [
  | inr (x, e) ↦ absurd (ground (arith, e))
  | inl (j, e) ↦ elim (Bool-cases (io.write && io.chmod)) [
    | inr w ↦ absurd (ground (arith, e, w))
    | inl w ↦
        let same : j ≡ i = ground (arith, e, w) in
        (e ∙ ap ok same, rw (e, create) (ground (arith, w, same)))
  ]
]

-- The identity that LoadOrCreate makes where there is no file is the one that it reads from that file at
-- any later start within the certificate's validity, where the key that was generated is an Ed25519 key,
-- the random ID is of 16 bytes and the encodings read back; and that later start leaves the file alone.
pub load_or_create_again :
    (enc : Encoders) (dec : Decoders) (in_20_years : ℕ → ℕ) (now later : ℕ) (io io' : CreateIo)
    (b : Text) (i : Identity)
    → ReadsBack enc dec
    → io.id_bytes ≡ some b
    → length b ≡ 16
    → IsBytes b
    → i.private_key.is_ed25519 ≡ true
    → whole (now - hour) ≤ later
    → later ≤ whole (in_20_years now)
    → (load_or_create enc dec in_20_years now io true none).1 ≡ ok i
    → ((load_or_create enc dec in_20_years now io true none).0 ≡ some i.tls_cert)
      × (load_or_create enc dec in_20_years later io' true (some i.tls_cert)
          ≡ (some i.tls_cert, ok i))
unfolding load_or_create
load_or_create_again enc dec in_20_years now later io io' b i r random long bytes k early late h =
    let (made, file) = created enc in_20_years now io i h in
    let g = generate-Generated enc in_20_years now io i made in
    let (id, u, v) = valid_uuid-uuid b long bytes in
    let both : some id ≡ some i.id = sym u ∙ ap uuid (sym random) ∙ g.id in
    let same : id ≡ i.id = cc both in
    let v' : valid_uuid i.id ≡ true = subst (λ s. valid_uuid s ≡ true) same v in
    let p = parse_made enc dec in_20_years now later io i r g k v' early late in
    (file, ap (λ x. (some i.tls_cert, parsed x)) p)
