-- ===== src/Config.antt =====
-- internal/config: the configuration file, the paths, the device's name. The JSON codec, the environment
-- and filepath.Join are parameters.
pub mod Load
use lanclip.Base.{
  ℕ, ◌%◌, Bool, true, false, not, ◌||◌, ◌&&◌, Option, none, some, List, [], ◌∷◌, ◌++◌, Text, codes,
  text_eq, ◌==◌, if◌then◌else◌, Result, ok, err,
}
use lanclip.Base.Integers.{ℤ, pos, in_range, is_int}
use lanclip.Base.Unicode.{Unicode}
use lanclip.Pairing.Name.{normalize_device_name}

abbrev pub default_port : ℕ
default_port = 24872

-- 1 << 20
abbrev pub max_payload : ℕ
max_payload = 1_048_576

pub record Config : Type 0 where
  pub version : ℤ
  pub name : Text
  pub listen_port : ℤ
  pub service_type : Text
  pub max_clipboard_bytes : ℤ
  pub manual_peers : List Text

pub record Paths : Type 0 where
  pub config_dir : Text
  pub data_dir : Text
  pub runtime_dir : Text
  pub config : Text
  pub identity : Text
  pub peers : Text
  pub socket : Text

pub data Error : Type 0 where
  no_home no_runtime_dir no_directory no_name unreadable unparsable bad_version invalid_values :
      Error
  encode_failed write_failed chmod_failed not_found too_open : Error

-- The environment: os.UserHomeDir, os.Getenv and filepath.Join.
pub record Environment : Type 0 where
  pub home : Option Text
  pub is_darwin : Bool
  pub getenv : Text → Text
  pub join : List Text → Text

-- `if x == "" { x = y }`
abbrev pub or_else_text : Text → Text → Text
or_else_text x y = if text_eq x [] then y else x

abbrev pub darwin_paths : Environment → Text → Paths
darwin_paths env home =
    let base =
      env.join (home ∷ codes "Library" ∷ codes "Application Support" ∷ codes "Lanclip" ∷ []) in
    record {
      config_dir = base;
      data_dir = base;
      runtime_dir = base;
      config = env.join (base ∷ codes "config.json" ∷ []);
      identity = env.join (base ∷ codes "identity.pem" ∷ []);
      peers = env.join (base ∷ codes "peers.json" ∷ []);
      socket = env.join (base ∷ codes "lanclip.sock" ∷ []);
    }

abbrev pub xdg_paths : Environment → Text → Text → Paths
xdg_paths env home runtime =
    let cfg = env.join (
      or_else_text (env.getenv (codes "XDG_CONFIG_HOME")) (env.join (home ∷ codes ".config" ∷ []))
      ∷ codes "lanclip"
      ∷ []) in
    let data' = env.join (
      or_else_text (env.getenv (codes "XDG_DATA_HOME"))
        (env.join (home ∷ codes ".local" ∷ codes "share" ∷ []))
      ∷ codes "lanclip"
      ∷ []) in
    record {
      config_dir = cfg;
      data_dir = data';
      runtime_dir = runtime;
      config = env.join (cfg ∷ codes "config.json" ∷ []);
      identity = env.join (data' ∷ codes "identity.pem" ∷ []);
      peers = env.join (data' ∷ codes "peers.json" ∷ []);
      socket = env.join (runtime ∷ codes "lanclip.sock" ∷ []);
    }

unfoldable pub default_paths : Environment → Result Error Paths
default_paths env = elim env.home [
  | none ↦ err no_home
  | some home ↦
      let runtime = env.getenv (codes "XDG_RUNTIME_DIR") in
      if env.is_darwin
      then ok (darwin_paths env home)
      else if text_eq runtime []
      then err no_runtime_dir
      else ok (xdg_paths env home runtime)
]

-- platformDeviceName on Linux; the host name is empty where it cannot be read.
abbrev pub linux_device_name : Unicode → Text → Text
linux_device_name u hostname = normalize_device_name u hostname

-- platformDeviceName on macOS: scutil's ComputerName, if it is one.
unfoldable pub darwin_device_name : Unicode → Option Text → Text → Text
darwin_device_name u none hostname = normalize_device_name u hostname
darwin_device_name u (some output) hostname =
    or_else_text (normalize_device_name u output) (normalize_device_name u hostname)

abbrev pub default_service : Text
default_service = codes "_lanclip._tcp"

abbrev pub default : Text → Config
default device = record {
  version = pos 1;
  name = device;
  listen_port = pos default_port;
  service_type = default_service;
  max_clipboard_bytes = pos max_payload;
  manual_peers = [];
}

-- json.MarshalIndent and json.Unmarshal at `Config`
pub record ConfigJson : Type 0 where
  pub marshal : Config → Option Text
  pub unmarshal : Text → Option Config

-- What the system answers: whether the directories are made, whether a file that is there can be read,
-- whether a write succeeds, what a failed one leaves, and whether the mode is set.
pub record FileIo : Type 0 where
  pub dirs : Bool
  pub readable : Bool
  pub write : Bool
  pub left : Option Text
  pub chmod : Bool

-- save, with the contents of the file after it
unfoldable pub save :
    ConfigJson → FileIo → Config → Option Text → Option Text × Result Error (Unit {0})
save json io cfg file = elim (json.marshal cfg) [
  | none ↦ (file, err encode_failed)
  | some b ↦
      if not io.write
      then (io.left, err write_failed)
      else if io.chmod
      then (some (b ++ (b'\n' ∷ [])), ok tt)
      else (some (b ++ (b'\n' ∷ [])), err chmod_failed)
]

abbrev pub has_valid_values : Config → Bool
has_valid_values c =
    not (text_eq c.name [])
    && (in_range 1 65535 c.listen_port && in_range 1 max_payload c.max_clipboard_bytes)

-- `if err := save(…); err != nil { return Config{}, err }; return cfg, nil`
unfoldable pub saved :
    ConfigJson → FileIo → Config → Option Text → Option Text × Result Error Config
unfolding save
saved json io cfg file =
    let (file', r) = save json io cfg file in
    elim r [ err e ↦ (file', err e) | ok _ ↦ (file', ok cfg) ]

-- The end of LoadOrCreate: the service type and the name are brought up to date.
unfoldable pub refresh :
    ConfigJson → FileIo → Text → Config → Option Text → Option Text × Result Error Config
unfolding saved
refresh json io device cfg file =
    let cfg' : Config = record cfg {
      service_type = or_else_text cfg.service_type default_service;
    } in
    if not (text_eq device []) && not (text_eq device cfg.name)
    then saved json io (record cfg' { name = device }) file
    else (file, ok cfg')

unfoldable pub load_parsed :
    ConfigJson → FileIo → Text → Config → Option Text → Option Text × Result Error Config
unfolding refresh
load_parsed json io device cfg file =
    if not (is_int 1 cfg.version)
    then (file, err bad_version)
    else if not (has_valid_values cfg)
    then (file, err invalid_values)
    else refresh json io device cfg file

-- LoadOrCreate, where `device` is deviceName()
unfoldable pub load_or_create :
    ConfigJson → FileIo → Text → Option Text → Option Text × Result Error Config
unfolding load_parsed
load_or_create json io device file = if not io.dirs then (file, err no_directory) else elim file [
  | none ↦ if text_eq device [] then (none, err no_name) else saved json io (default device) none
  | some b ↦ if not io.readable then (some b, err unreadable) else elim (json.unmarshal b) [
    | none ↦ (some b, err unparsable)
    | some cfg ↦ load_parsed json io device cfg (some b)
  ]
]

-- CheckPrivate, given the mode of the file: `mode & 0077 != 0`
unfoldable pub check_private : Option ℕ → Result Error (Unit {0})
check_private none = err not_found
check_private (some mode) = if mode % 64 == 0 then ok tt else err too_open
