-- ===== src/Tests/Settings.antt =====
-- internal/config/config.go and internal/identity/identity.go: the files of a first and a second start.
use mathlib.Core.Path.{subst}
use mathlib.Core.List.{append_assoc}
use lanclip.Base.{
  ◌≡◌, refl, sym, ap, ℕ, ◌+◌, ◌==◌, Bool, true, false, Option, none, some, [], ◌∷◌, ◌++◌, Text,
  codes, text_eq, arith, ok, length, take, drop, take-append, drop-append, if◌then◌else◌, ◌∙◌,
}
use lanclip.Base.Integers.{pos}
use lanclip.Config.{Config, ConfigJson, FileIo, default_service}
use lanclip.Config
use lanclip.Config.Load.{IsConfig, load_or_create-IsConfig}
use lanclip.Identity.Hex.{IsBytes}
use lanclip.Identity.Certificate.{Certificate}
use lanclip.Identity.Parse.{PrivateKey, Block, Decoders, Identity}
use lanclip.Identity.Create.{Template, Encoders, CreateIo, hour}
use lanclip.Identity.Create
use lanclip.Identity.Create.Again.{whole, signed_by, ReadsBack, load_or_create_again}

abbrev old : Config
old = record {
  version = pos 1;
  name = codes "old";
  listen_port = pos 24872;
  service_type = [];
  max_clipboard_bytes = pos 1000;
  manual_peers = [];
}

abbrev pub renamed : Config
renamed = record old { name = codes "desk"; service_type = default_service }

-- An encoding that tells the two apart by their names.
abbrev pub name_codec : ConfigJson
name_codec = record {
  marshal = λ c. some c.name;
  unmarshal = λ b. if text_eq b (codes "old") then some old else some renamed;
}

abbrev pub file_works : FileIo
file_works = record { dirs = true; readable = true; write = true; left = none; chmod = true }

abbrev read_again : Option Text → Option Config
read_again none = none
read_again (some b) = name_codec.unmarshal (b ++ (b'\n' ∷ []))

reads_again :
    (b : Text)
    → name_codec.marshal renamed ≡ some b
    → name_codec.unmarshal (b ++ (b'\n' ∷ [])) ≡ some renamed
unfolding text_eq
reads_again b e = sym (ap read_again e)

loads :
    (Config.load_or_create name_codec file_works (codes "desk") (some (codes "old"))).1 ≡ ok renamed
unfolding Config.load_or_create text_eq
loads = refl

load_or_create-IsConfig_example :
    IsConfig renamed
    × (Config.load_or_create name_codec file_works
          (codes "desk")
          (Config.load_or_create name_codec file_works (codes "desk") (some (codes "old"))).0
        ≡ (
          (Config.load_or_create name_codec file_works (codes "desk") (some (codes "old"))).0,
          ok renamed,
        ))
load_or_create-IsConfig_example =
    load_or_create-IsConfig name_codec file_works file_works (codes "desk") (some (codes "old"))
      renamed refl refl reads_again loads

-- Two texts in one, the length of the first ahead.
abbrev both : Text → Text → Text
both a b = length a ∷ a ++ b

abbrev left_of : Text → Text
left_of [] = []
left_of (n ∷ s) = take n s

abbrev right_of : Text → Text
right_of [] = []
right_of (n ∷ s) = drop n s

abbrev flag : Bool → ℕ
flag true = 1
flag false = 0

abbrev key_text : PrivateKey → Text
key_text key = flag key.is_ed25519 ∷ key.public

abbrev key_of : Text → Option PrivateKey
key_of [] = none
key_of (n ∷ s) = some (record { is_ed25519 = n == 1; public = s })

abbrev cert_text : Template → PrivateKey → Text
cert_text t key = both t.common_name (whole t.not_before ∷ whole t.not_after ∷ key_text key)

abbrev cert_of : Text → Text → Text → Option Certificate
cert_of der name (from ∷ until ∷ n ∷ s) = some (record {
  raw = der;
  common_name = name;
  is_ed25519 = n == 1;
  public_key = s;
  not_before = from;
  not_after = until;
  self_signed = true;
})
cert_of der name _ = none

abbrev block_of : Text → Text → Option Block
block_of kind s = some (record { kind = kind; bytes = left_of s; rest = right_of s })

abbrev pub encoders : Encoders
encoders = record {
  certificate = λ t key. some (cert_text t key);
  private_key = λ key. some (key_text key);
  pem = λ kind bytes. both kind (length bytes ∷ bytes);
}

abbrev pub decoders : Decoders
decoders = record {
  pem = λ s. block_of (left_of s) (right_of s);
  certificate = λ der. cert_of der (left_of der) (right_of der);
  private_key = key_of;
}

flag-one : (b : Bool) → (flag b == 1) ≡ b
flag-one true = refl
flag-one false = refl

pem_reads :
    (kind bytes rest : Text)
    → decoders.pem (encoders.pem kind bytes ++ rest)
      ≡ some (record { kind = kind; bytes = bytes; rest = rest })
pem_reads kind bytes rest =
    rw
      (
        append_assoc kind (length bytes ∷ bytes) rest,
        take-append kind (length bytes ∷ bytes ++ rest),
        drop-append kind (length bytes ∷ bytes ++ rest),
        take-append bytes rest,
        drop-append bytes rest,
      )
      refl

abbrev text_of : Option Text → Text
text_of none = []
text_of (some b) = b

cert_reads_text :
    (t : Template) (key : PrivateKey)
    → decoders.certificate (cert_text t key) ≡ some (signed_by t key (cert_text t key))
cert_reads_text t key =
    rw
      (
        take-append t.common_name (whole t.not_before ∷ whole t.not_after ∷ key_text key),
        drop-append t.common_name (whole t.not_before ∷ whole t.not_after ∷ key_text key),
        flag-one key.is_ed25519,
      )
      refl

cert_reads :
    (t : Template) (key : PrivateKey) (der : Text)
    → encoders.certificate t key ≡ some der
    → decoders.certificate der ≡ some (signed_by t key der)
cert_reads t key der e =
    subst (λ d. decoders.certificate d ≡ some (signed_by t key d)) (ap text_of e)
      (cert_reads_text t key)

abbrev key_again : Option Text → Option PrivateKey
key_again none = none
key_again (some b) = key_of b

key_reads : (key : PrivateKey) (b : Text) → encoders.private_key key ≡ some b → key_of b ≡ some key
key_reads key b e =
    sym (ap key_again e)
    ∙ ap (λ f. some (record { is_ed25519 = f; public = key.public })) (flag-one key.is_ed25519)

encodings-ReadsBack : ReadsBack encoders decoders
encodings-ReadsBack = record { pem = pem_reads; certificate = cert_reads; private_key = key_reads }

abbrev sixteen : Text
sixteen = 1 ∷ 1 ∷ 1 ∷ 1 ∷ 1 ∷ 1 ∷ 1 ∷ 1 ∷ 1 ∷ 1 ∷ 1 ∷ 1 ∷ 1 ∷ 1 ∷ 1 ∷ 255 ∷ []

sixteen-IsBytes : IsBytes sixteen
sixteen-IsBytes = ground arith

abbrev new_key : PrivateKey
new_key = record { is_ed25519 = true; public = codes "key" }

abbrev pub draws : CreateIo
draws = record {
  key = some new_key;
  id_bytes = some sixteen;
  serial = some (codes "7");
  write = true;
  left = none;
  chmod = true;
}

-- Some days instead of years.
abbrev pub in_20_years : ℕ → ℕ
in_20_years t = t + 1_000_000_000_000_000

abbrev pub born : ℕ
born = 7_200_000_000_000

abbrev made_id : Text
made_id = codes "01010101-0101-4101-8101-0101010101ff"

abbrev made_cert : Text
made_cert = cert_text (Create.template in_20_years born made_id (codes "7")) new_key

abbrev pub made : Identity
made = record {
  id = made_id;
  certificate = made_cert;
  private_key = new_key;
  tls_cert = Create.file_of encoders made_cert (key_text new_key);
}

creates : (Create.load_or_create encoders decoders in_20_years born draws true none).1 ≡ ok made
unfolding Create.load_or_create lanclip.Identity.Uuid.uuid
creates = refl

load_or_create_again_example :
    ((Create.load_or_create encoders decoders in_20_years born draws true none).0
      ≡ some made.tls_cert)
    × (Create.load_or_create encoders decoders in_20_years 8_000_000_000_000 draws true
          (some made.tls_cert)
        ≡ (some made.tls_cert, ok made))
load_or_create_again_example =
    load_or_create_again encoders decoders in_20_years born 8_000_000_000_000 draws draws sixteen
      made encodings-ReadsBack refl refl sixteen-IsBytes refl (omega arith) (omega arith) creates
