-- ===== src/Daemon/Start.antt =====
-- cmd/lanclip/main.go and internal/daemon/daemon.go: `runDaemon`, and what `Run` and `close` open and close.
use lanclip.Base.{
  ℕ, ◌≡◌, ap, ◌∙◌, Bool, Option, some, List, Text, Result, ok, err, Result-cases, inl, inr,
}
use lanclip.Base.Dict.{lookup}
use lanclip.Base.Members.{Each}
use lanclip.Config.{Config, ConfigJson, FileIo, check_private}
use lanclip.Config
use lanclip.Identity.Create
use lanclip.Identity.Create.{Encoders, CreateIo}
use lanclip.Identity.Parse.{Decoders, Identity}
use lanclip.Pairing.Types.{Store, Disk}
use lanclip.Pairing.Types
use lanclip.Pairing.Disk.{PeersJson, SaveIo}
use lanclip.Pairing.Load.{load}
use lanclip.Pairing.Load.Invariant.{load-IsValid}
use lanclip.Daemon.Conns.{PeerConn}
use lanclip.Daemon.Control.{Fixed}
use lanclip.Daemon.System.{new, Event}
use lanclip.Daemon.System.Steps.{run}
use lanclip.Daemon.System.Sharing.{SharesWith, sharing_is_vouched}

-- The files of the program: the configuration, the identity and the peers.
pub record Files : Type 0 where
  pub config : Option Text
  pub identity : Option Text
  pub peers : Disk

-- The codecs and the system's answers in one start; `mode` is that of the identity's file, if it is there.
pub record Startup : Type 0 where
  pub config_json : ConfigJson
  pub config_io : FileIo
  pub device_name : Text
  pub encoders : Encoders
  pub decoders : Decoders
  pub in_20_years : ℕ → ℕ
  pub now : ℕ
  pub create_io : CreateIo
  pub identity_readable : Bool
  pub mode : Option ℕ
  pub peers_json : PeersJson
  pub save_io : SaveIo
  pub peers_readable : Bool

pub data Failure : Type 0 where
  of_config : Config.Error → Failure
  of_identity : Create.Error → Failure
  of_store : Types.Error → Failure

pub record Started : Type 0 where
  pub config : Config
  pub identity : Identity
  pub store : Store

module _ (p : Startup) where
  abbrev pub load_store : Config → Identity → Files → Files × Result Failure Started
  load_store c i fs =
      let (d', r) = load p.peers_json p.save_io p.peers_readable fs.peers in
      elim r [
        | err e ↦ (record fs { peers = d' }, err (of_store e))
        | ok s ↦ (record fs { peers = d' }, ok (record { config = c; identity = i; store = s }))
      ]

  abbrev pub load_identity : Config → Files → Files × Result Failure Started
  load_identity c fs =
      let (f', r) =
        Create.load_or_create p.encoders p.decoders p.in_20_years p.now p.create_io
          p.identity_readable fs.identity in
      elim r [
        | err e ↦ (record fs { identity = f' }, err (of_identity e))
        | ok i ↦ elim (check_private p.mode) [
          | err e ↦ (record fs { identity = f' }, err (of_config e))
          | ok x ↦ load_store c i (record fs { identity = f' })
        ]
      ]

  -- runDaemon up to `New`.
  unfoldable pub run_daemon : Files → Files × Result Failure Started
  run_daemon fs =
      let (f', r) = Config.load_or_create p.config_json p.config_io p.device_name fs.config in
      elim r [
        | err e ↦ (record fs { config = f' }, err (of_config e))
        | ok c ↦ load_identity c (record fs { config = f' })
      ]

-- What stands behind a start.
pub record IsStarted (p : Startup) (fs : Files) (st : Started) : Type 0 where
  pub configured :
      (Config.load_or_create p.config_json p.config_io p.device_name fs.config).1 ≡ ok st.config
  pub identified :
      (Create.load_or_create p.encoders p.decoders p.in_20_years p.now p.create_io
        p.identity_readable fs.identity).1
      ≡ ok st.identity
  pub is_private : check_private p.mode ≡ ok tt
  pub loaded : (load p.peers_json p.save_io p.peers_readable fs.peers).1 ≡ ok st.store

module _ (p : Startup) where
  load_store-store :
      (c : Config) (i : Identity) (fs : Files) (st : Started)
      → (load_store p c i fs).1 ≡ ok st
      → (c ≡ st.config)
        × (i ≡ st.identity)
        × ((load p.peers_json p.save_io p.peers_readable fs.peers).1 ≡ ok st.store)
  load_store-store c i fs st h =
      elim (Result-cases (load p.peers_json p.save_io p.peers_readable fs.peers).1) [
        | inr (e, x) ↦ absurd (cc (h, x))
        | inl (s, x) ↦
            let same : record { config = c; identity = i; store = s } ≡ st = cc (h, x) in
            (ap (λ s. s.config) same, ap (λ s. s.identity) same, x ∙ ap (λ s. ok s.store) same)
      ]

  load_identity-IsStarted :
      (c : Config) (fs : Files) (st : Started)
      → (load_identity p c fs).1 ≡ ok st
      → (c ≡ st.config)
        × ((Create.load_or_create p.encoders p.decoders p.in_20_years p.now p.create_io
              p.identity_readable fs.identity).1
            ≡ ok st.identity)
        × (check_private p.mode ≡ ok tt)
        × ((load p.peers_json p.save_io p.peers_readable fs.peers).1 ≡ ok st.store)
  load_identity-IsStarted c fs st h =
      let made =
        Create.load_or_create p.encoders p.decoders p.in_20_years p.now p.create_io
          p.identity_readable fs.identity in
      elim (Result-cases made.1) [
        | inr (e, x) ↦ absurd (cc (h, x))
        | inl (i, x) ↦ elim (Result-cases (check_private p.mode)) [
          | inr (e, y) ↦ absurd (cc (h, x, y))
          | inl (z, y) ↦
              let (same, mine, loaded) =
                load_store-store c i (record fs { identity = made.0 }) st (cc (h, x, y)) in
              (same, x ∙ ap ok mine, y, loaded)
        ]
      ]

  pub run_daemon-IsStarted :
      (fs : Files) (st : Started) → (run_daemon p fs).1 ≡ ok st → IsStarted p fs st
  unfolding run_daemon
  run_daemon-IsStarted fs st h =
      let found = Config.load_or_create p.config_json p.config_io p.device_name fs.config in
      elim (Result-cases found.1) [
        | inr (e, x) ↦ absurd (cc (h, x))
        | inl (c, x) ↦
            let (same, made, mode, loaded) =
              load_identity-IsStarted c (record fs { config = found.0 }) st (cc (h, x)) in
            record {
              configured = x ∙ ap ok same;
              identified = made;
              is_private = mode;
              loaded = loaded;
            }
      ]

-- A service that starts shares the clipboard with approved devices only: if runDaemon comes as far as `New`,
-- the configuration, the identity and the peers are what their files gave, and the mode of the
-- identity's file passed CheckPrivate; and whatever turns the service then takes, in any order, each text
-- that was sent, each text from a peer that was written to the clipboard and each connection of the
-- registry belongs to a connection that showed, when it was looked up, one certificate, and this is
-- trusted in the peers that were loaded, or a command "approve" among the turns has approved it, by the
-- token, the fingerprint and the code of a pending request.
pub run_daemon_shares :
    (p : Startup) (f : Fixed) (max : ℕ) (fs : Files) (st : Started) (es : List (Event f))
    → (run_daemon p fs).1 ≡ ok st
    → IsStarted p fs st
      × Each (λ q. SharesWith f max st.store es q.0.handle) (run f max (new st.store) es).sent
      × Each (λ q. SharesWith f max st.store es q.0.handle) (run f max (new st.store) es).written
      × ((id : Text) (pc : PeerConn)
          → lookup id (run f max (new st.store) es).service.registry.conns ≡ some pc
          → SharesWith f max st.store es pc.handle)
run_daemon_shares p f max fs st es h =
    let started = run_daemon-IsStarted p fs st h in
    let valid =
      load-IsValid p.peers_json p.save_io p.peers_readable fs.peers st.store started.loaded in
    let (sent, written, conns) = sharing_is_vouched f max st.store es valid in
    (started, sent, written, conns)
