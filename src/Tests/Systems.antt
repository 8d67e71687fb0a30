-- ===== src/Tests/Systems.antt =====
-- internal/daemon/daemon.go: histories of the whole service: a command, a handshake, a copied text.
use mathlib.Core.Path.{◌≡◌}
use lanclip.Base.{
  any, false, refl, ◌⊎◌, Bool, true, none, some, List, [], ◌∷◌, Text, codes, ok, map,
}
use lanclip.Base.Dict.{lookup}
use lanclip.Base.Members.{Each}
use lanclip.Pairing.Changes.Trust.{TrustedAs}
use lanclip.Daemon.Conns.{PeerConn}
use lanclip.Daemon.System.{
  World, new, Event, commands, looks, greets, registers, leaves, copies, delivers,
}
use lanclip.Daemon.System.Steps.{run}
use lanclip.Daemon.System.Linked.{Linked}
use lanclip.Daemon.System.Stopped.{is_stop}
use lanclip.Daemon.System.Origin.{Granted, run-TrustedAs}
use lanclip.Daemon.System.Sharing.{SharesWith, sharing_is_vouched, run-Linked}
use lanclip.Daemon.System.Handshake.{AsWhole, turns-handle_sync}
use lanclip.Daemon.Handshake.{handle_sync}
use mathlib.Core.List.{Memᴰ}
use lanclip.Pairing.Load.{new_store}
use lanclip.Daemon.Start.{Files, Startup, Started, IsStarted, run_daemon, run_daemon_shares}
use lanclip.Daemon.Accept.Histories.{Move, arrives, ends, moves, IsBalanced, moves-IsBalanced}
use lanclip.Daemon.Run
use lanclip.Daemon.Run.{Opening, open_after, run_closes_all}
use lanclip.Tests.Settings.{
  renamed, name_codec, file_works, encoders, decoders, in_20_years, born, draws, made,
}
use lanclip.Tests.Samples.{
  all_well, paired, ascii, amy_id, bob_id, pin, friend, store, call, name_json,
}
use lanclip.Tests.Stores.{store-IsValid}
use lanclip.Tests.Connections.{plain_net, wire, blank}
use lanclip.Tests.Commands.{approve_bob}
use lanclip.Tests.Services.{fixed, turn, nothing_yet}

-- The newest turn first: the command approves Bob, his connection comes up, and a text is sent to him.
abbrev approval : List (Event fixed)
approval = commands turn approve_bob ∷ []

abbrev meeting : List (Event fixed)
meeting =
    registers 0
    ∷ greets 0 call true (some blank)
    ∷ looks pin true true (codes "10.0.0.2:24872")
    ∷ approval

abbrev sharing : List (Event fixed)
sharing = delivers 0 400 (ok tt) ∷ copies 300 (some (codes "e1")) (codes "hi") ∷ meeting

abbrev bob_conn : PeerConn
bob_conn = record { handle = 0; id = bob_id; address = codes "10.0.0.2:24872"; outbound = true }

abbrev conns_sent : World → List PeerConn
conns_sent w = map (λ q. q.0) w.sent

shared_with_bob : conns_sent (run fixed 100 (new store) sharing) ≡ bob_conn ∷ []
unfolding run lanclip.Daemon.System.Steps.step lanclip.Daemon.System.copy
    lanclip.Daemon.Clipboard.broadcast lanclip.Sync.consume lanclip.Daemon.System.look
    lanclip.Pairing.Store.trusted_fingerprint lanclip.Daemon.Control.handle_control
    lanclip.Pairing.Changes.approve lanclip.Pairing.Store.resolve_locked lookup
    lanclip.Pairing.Store.prune_pending_locked lanclip.Base.Dict.keep_values
    lanclip.Base.Unicode.trim_space lanclip.Pairing.Store.allowed lanclip.Pairing.Disk.save_locked
    lanclip.Base.Dict.insert lanclip.Daemon.System.meet lanclip.Daemon.System.link
    lanclip.Daemon.System.deliver lanclip.Daemon.Handshake.greet
    lanclip.Daemon.Handshake.refresh_name lanclip.Base.text_lt lanclip.Pairing.Types.state_eq
    lanclip.Pairing.Name.normalize_device_name lanclip.Daemon.Conns.register
    lanclip.Base.Members.remove_at lanclip.Daemon.Clipboard.write_peer
    lanclip.Daemon.Conns.record_sent
shared_with_bob = refl

trusts_bob : TrustedAs (run fixed 100 (new store) approval).service.store.peers bob_id pin
unfolding lookup run lanclip.Daemon.System.Steps.step lanclip.Daemon.Control.handle_control
    lanclip.Pairing.Changes.approve lanclip.Pairing.Store.resolve_locked
    lanclip.Pairing.Store.prune_pending_locked lanclip.Base.Dict.keep_values
    lanclip.Base.Unicode.trim_space lanclip.Pairing.Store.allowed lanclip.Pairing.Disk.save_locked
    lanclip.Base.Dict.insert
trusts_bob = record {
  peer = record friend { updated_at = 201 };
  found = refl;
  is_trusted = refl;
  pinned = refl;
}

run-TrustedAs_example :
    TrustedAs store.peers bob_id pin ⊎ Granted fixed 100 (new store) approval bob_id pin
run-TrustedAs_example =
    run-TrustedAs fixed 100 (new store) approval bob_id pin store-IsValid trusts_bob

sharing_is_vouched_example :
    Each
      (λ q. SharesWith fixed 100 store sharing q.0.handle)
      (run fixed 100 (new store) sharing).sent
    × Each
        (λ q. SharesWith fixed 100 store sharing q.0.handle)
        (run fixed 100 (new store) sharing).written
    × ((id : Text) (pc : PeerConn)
        → lookup id (run fixed 100 (new store) sharing).service.registry.conns ≡ some pc
        → SharesWith fixed 100 store sharing pc.handle)
sharing_is_vouched_example = sharing_is_vouched fixed 100 store sharing store-IsValid

run-Linked_example :
    Linked
      (any (is_stop fixed 100) (leaves 0 none ∷ sharing))
      (run fixed 100 (new store) (leaves 0 none ∷ sharing)).linked
      (run fixed 100 (new store) (leaves 0 none ∷ sharing)).service.registry
run-Linked_example = run-Linked fixed 100 store (leaves 0 none ∷ sharing)

abbrev ready : World
ready = run fixed 100 (new store) approval

turns-handle_sync_example :
    AsWhole fixed 100 ready
      (codes "10.0.0.2:24872")
      true
      (run fixed 100
        (record ready { looked = [] })
        (greets 0 call true (some blank) ∷ looks pin true true (codes "10.0.0.2:24872") ∷ []))
      (handle_sync ascii name_json call amy_id pin true wire ready.service.store)
unfolding run
turns-handle_sync_example =
    turns-handle_sync fixed 100 ready call pin (codes "10.0.0.2:24872") true true (some blank)

abbrev startup : Startup
startup = record {
  config_json = name_codec;
  config_io = file_works;
  device_name = codes "desk";
  encoders = encoders;
  decoders = decoders;
  in_20_years = in_20_years;
  now = born;
  create_io = draws;
  identity_readable = true;
  mode = some 384;
  peers_json = name_json;
  save_io = all_well;
  peers_readable = true;
}

abbrev files : Files
files = record { config = some (codes "old"); identity = none; peers = paired.disk }

abbrev started : Started
started = record {
  config = renamed;
  identity = made;
  store = new_store ((bob_id, friend) ∷ []) paired.disk;
}

starts : (run_daemon startup files).1 ≡ ok started
unfolding run_daemon lanclip.Config.load_or_create lanclip.Identity.Create.load_or_create
    lanclip.Identity.Uuid.uuid lanclip.Config.check_private lanclip.Pairing.Load.load
    lanclip.Base.any lanclip.Pairing.Types.state_eq lanclip.Pairing.Load.session_free
    lanclip.Base.text_eq
starts = refl

-- Bob is trusted in the file of peers.
abbrev reunion : List (Event fixed)
reunion =
    delivers 0 400 (ok tt)
    ∷ copies 300 (some (codes "e1")) (codes "hi")
    ∷ registers 0
    ∷ greets 0 call true (some blank)
    ∷ looks pin true true (codes "10.0.0.2:24872")
    ∷ []

run_daemon_shares_example :
    IsStarted startup files started
    × Each
        (λ q. SharesWith fixed 100 started.store reunion q.0.handle)
        (run fixed 100 (new started.store) reunion).sent
    × Each
        (λ q. SharesWith fixed 100 started.store reunion q.0.handle)
        (run fixed 100 (new started.store) reunion).written
    × ((id : Text) (pc : PeerConn)
        → lookup id (run fixed 100 (new started.store) reunion).service.registry.conns ≡ some pc
        → SharesWith fixed 100 started.store reunion pc.handle)
run_daemon_shares_example = run_daemon_shares startup fixed 100 files started reunion starts

-- One connection from the LAN arrives and ends its handshake, and a move with nothing to end.
abbrev handshakes : List (Move plain_net)
handshakes =
    arrives (codes "10." ∷ []) (some (codes "10.0.0.2"))
    ∷ ends true true (codes "lanclip-sync/1")
    ∷ ends true true (codes "lanclip-sync/1")
    ∷ []

one_ended :
    moves plain_net (record { busy = 0; started = 0; ended = 0 }) handshakes
    ≡ record { busy = 0; started = 1; ended = 1 }
unfolding moves lanclip.Daemon.Accept.Histories.move lanclip.Daemon.Accept.accept
    lanclip.Discovery.Direct.is_direct_ip lanclip.Base.text_eq lanclip.Base.has_prefix
    lanclip.Daemon.Accept.released lanclip.Daemon.Accept.handle_tls
one_ended = refl

moves-IsBalanced_example :
    IsBalanced plain_net (moves plain_net (record { busy = 0; started = 0; ended = 0 }) handshakes)
moves-IsBalanced_example = moves-IsBalanced plain_net handshakes

abbrev no_clip : Opening
no_clip = record {
  configured = true;
  listens = true;
  discovers = true;
  watches = false;
  controls = true;
}

run_closes_all_example :
    (open_after (Run.run no_clip nothing_yet).0 [] ≡ some [])
    × ((Run.run no_clip nothing_yet).2 ≡ none
        → ((Run.run no_clip nothing_yet).1.conns ≡ [])
          × ((id : Text) (pc : PeerConn)
              → lookup id nothing_yet.conns ≡ some pc
              → Memᴰ pc.handle (Run.run no_clip nothing_yet).1.closed))
run_closes_all_example = run_closes_all no_clip nothing_yet
