-- ===== src/Config/Load.antt =====
-- internal/config/config.go: `LoadOrCreate` returns sound values, and starting again changes nothing.
use mathlib.Core.Path.{subst}
use lanclip.Base.{
  ◌⊎◌, ◌≡◌, refl, sym, ap, ◌∙◌, Bool, true, false, not, ◌&&◌, Option, none, some, [], ◌∷◌, ◌++◌,
  Text, text_eq, text_eq_refl, Result, ok, Option-cases, Bool-cases, inl, inr, arith,
}
use lanclip.Base.Integers.{ℤ, pos, negsuc, is_int}
use lanclip.Config.{
  Error, Config, ConfigJson, FileIo, default, default_service, or_else_text, saved, refresh,
  load_parsed, load_or_create, has_valid_values,
}

pub record IsConfig (c : Config) : Type 0 where
  pub version : c.version ≡ pos 1
  pub values : has_valid_values c ≡ true
  pub service : text_eq c.service_type [] ≡ false

saved_inv :
    (json : ConfigJson) (io : FileIo) (cfg c : Config) (file : Option Text)
    → (saved json io cfg file).1 ≡ ok c
    → (b : Text) × (cfg ≡ c)
      × (json.marshal cfg ≡ some b)
      × ((saved json io cfg file).0 ≡ some (b ++ (b'\n' ∷ [])))
unfolding saved
saved_inv json io cfg c file h = elim (Option-cases (json.marshal cfg)) [
  | inl e ↦ absurd (ground (arith, e))
  | inr (b, e) ↦ elim (Bool-cases io.write) [
    | inr w ↦ absurd (ground (arith, e, w))
    | inl w ↦ (b, ground (arith, e, w), e, ground (arith, e, w))
  ]
]

default-IsConfig : (device : Text) → text_eq device [] ≡ false → IsConfig (default device)
unfolding text_eq
default-IsConfig device h = record { version = refl; values = ground (arith, h); service = refl }

is_int-pos : (n : ℤ) → is_int 1 n ≡ true → n ≡ pos 1
is_int-pos (pos n) h = ground arith
is_int-pos (negsuc n) h = absurd (cc h)

-- The configuration that a sound file gives once the service type is filled in.
filled : Config → Config
filled c = record c { service_type = or_else_text c.service_type default_service }

filled-IsConfig :
    (c : Config) → is_int 1 c.version ≡ true → has_valid_values c ≡ true → IsConfig (filled c)
unfolding filled text_eq
filled-IsConfig c v h = record {
  version = is_int-pos c.version v;
  values = h;
  service = ground arith;
}

renamed-IsConfig :
    (c : Config) (device : Text)
    → text_eq device [] ≡ false
    → IsConfig c
    → IsConfig (record c { name = device })
renamed-IsConfig c device h v = record {
  version = v.version;
  values = ground (arith, h, v.values);
  service = v.service;
}

-- The name is taken over where the system gives another one.
abbrev is_renamed : Text → Config → Bool
is_renamed device c = not (text_eq device []) && not (text_eq device c.name)

-- A file whose configuration is read and left alone.
record Kept (json : ConfigJson) (device : Text) (file : Option Text) (c : Config) : Type 0 where
  bytes : Text
  before : Config
  found : file ≡ some bytes
  decoded : json.unmarshal bytes ≡ some before
  version : is_int 1 before.version ≡ true
  values : has_valid_values before ≡ true
  same_name : is_renamed device before ≡ false
  result : filled before ≡ c

-- The configuration of a device that was written.
record Written (json : ConfigJson) (device : Text) (file : Option Text) (c : Config) : Type 0 where
  bytes : Text
  sound : IsConfig c
  named : c.name ≡ device
  encoded : json.marshal c ≡ some bytes
  contents : file ≡ some (bytes ++ (b'\n' ∷ []))

-- A kept file is read by any later start in the same way.
Kept-loads :
    (json : ConfigJson) (io : FileIo) (device : Text) (file : Option Text) (c : Config)
    → io.dirs ≡ true
    → io.readable ≡ true
    → Kept json device file c
    → load_or_create json io device file ≡ (file, ok c)
unfolding load_or_create load_parsed refresh filled
Kept-loads json io device file c d r k =
    rw (k.found, d, r)
      (rw k.decoded
        (rw (k.version, k.values, k.same_name) (ap (λ x. (some k.bytes, ok x)) k.result)))

filled_same : (c : Config) → IsConfig c → filled c ≡ c
unfolding filled
filled_same c v = rw v.service refl

Written-Kept :
    (json : ConfigJson) (device : Text) (file : Option Text) (c : Config)
    → ((b : Text) → json.marshal c ≡ some b → json.unmarshal (b ++ (b'\n' ∷ [])) ≡ some c)
    → Written json device file c
    → Kept json device file c
Written-Kept json device file c reads w = record {
  bytes = w.bytes ++ (b'\n' ∷ []);
  before = c;
  found = w.contents;
  decoded = reads w.bytes w.encoded;
  version = rw w.sound.version refl;
  values = w.sound.values;
  same_name = ground (arith, w.named, text_eq_refl device);
  result = filled_same c w.sound;
}

saved-Written :
    (json : ConfigJson) (io : FileIo) (device : Text) (cfg c : Config) (file : Option Text)
    → IsConfig cfg
    → cfg.name ≡ device
    → (saved json io cfg file).1 ≡ ok c
    → Written json device (saved json io cfg file).0 c
saved-Written json io device cfg c file v n h =
    let (b, same, e, contents) = saved_inv json io cfg c file h in
    record {
      bytes = b;
      sound = subst IsConfig same v;
      named = ap (λ x. x.name) (sym same) ∙ n;
      encoded = ap json.marshal (sym same) ∙ e;
      contents = contents;
    }

-- The two ways to a configuration.
abbrev Loaded : ConfigJson → Text → Config → Option Text × Result Error Config → Type 0
Loaded json device c r = Kept json device r.0 c ⊎ Written json device r.0 c

parsed_cases :
    (json : ConfigJson) (io : FileIo) (device b : Text) (before c : Config)
    → json.unmarshal b ≡ some before
    → (load_parsed json io device before (some b)).1 ≡ ok c
    → Loaded json device c (load_parsed json io device before (some b))
unfolding load_parsed refresh filled
parsed_cases json io device b before c e h = elim (Bool-cases (is_int 1 before.version)) [
  | inr v ↦ absurd (ground (arith, v))
  | inl v ↦ elim (Bool-cases (has_valid_values before)) [
    | inr w ↦ absurd (ground (arith, v, w))
    | inl w ↦ elim (Bool-cases (is_renamed device before)) [
      | inr k ↦
          rw (v, w, k)
            (inl (record {
              bytes = b;
              before = before;
              found = refl;
              decoded = e;
              version = v;
              values = w;
              same_name = k;
              result = ground (arith, v, w, k);
            }))
      | inl k ↦
          let next : Config = record (filled before) { name = device } in
          let sound =
            renamed-IsConfig (filled before) device (ground (arith, k))
              (filled-IsConfig before v w) in
          rw (v, w, k)
            (inr
              (saved-Written json io device next c (some b) sound refl (ground (arith, v, w, k))))
    ]
  ]
]

load_cases :
    (json : ConfigJson) (io : FileIo) (device : Text) (file : Option Text) (c : Config)
    → (load_or_create json io device file).1 ≡ ok c
    → Loaded json device c (load_or_create json io device file)
unfolding load_or_create
load_cases json io device none c h = elim (Bool-cases io.dirs) [
  | inr d ↦ absurd (ground (arith, d))
  | inl d ↦ elim (Bool-cases (text_eq device [])) [
    | inl n ↦ absurd (ground (arith, d, n))
    | inr n ↦
        rw (d, n)
          (inr (
            saved-Written json io device (default device) c none (default-IsConfig device n) refl
              (ground (arith, d, n))))
  ]
]
load_cases json io device (some b) c h = elim (Bool-cases io.dirs) [
  | inr d ↦ absurd (ground (arith, d))
  | inl d ↦ elim (Bool-cases io.readable) [
    | inr r ↦ absurd (ground (arith, d, r))
    | inl r ↦ elim (Option-cases (json.unmarshal b)) [
      | inl e ↦ absurd (ground (arith, d, r, e))
      | inr (before, e) ↦
          rw (d, r, e) (parsed_cases json io device b before c e (ground (arith, d, r, e)))
    ]
  ]
]

Loaded-IsConfig :
    (json : ConfigJson) (device : Text) (c : Config) (r : Option Text × Result Error Config)
    → Loaded json device c r
    → IsConfig c
Loaded-IsConfig json device c r (inl k) =
    subst IsConfig k.result (filled-IsConfig k.before k.version k.values)
Loaded-IsConfig json device c r (inr w) = w.sound

-- A configuration that LoadOrCreate returns, from whatever file, is of version 1 and has a name, a port
-- between 1 and 65535, a limit between one byte and 1 MiB and a service type; and the next start, with
-- the same device name, returns the same configuration and does not write the file, whether or not it
-- could, if the configuration's encoding reads back.
pub load_or_create-IsConfig :
    (json : ConfigJson) (io later : FileIo) (device : Text) (file : Option Text) (c : Config)
    → later.dirs ≡ true
    → later.readable ≡ true
    → ((b : Text) → json.marshal c ≡ some b → json.unmarshal (b ++ (b'\n' ∷ [])) ≡ some c)
    → (load_or_create json io device file).1 ≡ ok c
    → IsConfig c
      × (load_or_create json later device (load_or_create json io device file).0
          ≡ ((load_or_create json io device file).0, ok c))
load_or_create-IsConfig json io later device file c d r reads h =
    let loaded = load_cases json io device file c h in
    let file' = (load_or_create json io device file).0 in
    (
      Loaded-IsConfig json device c (load_or_create json io device file) loaded,
      elim loaded [
        | inl k ↦ Kept-loads json later device file' c d r k
        | inr w ↦
            Kept-loads json later device file' c d r (Written-Kept json device file' c reads w)
      ],
    )
