-- ===== src/Tests/Services.antt =====
-- internal/daemon/daemon.go: commands over the control socket, at the stores of the other tests; a tick of
-- connectLoop; the announcement.
use lanclip.Base.{
  ℕ, ◌≡◌, refl, ◌⊎◌, ◌++◌, ◌||◌, Bool, true, false, not, ◌&&◌, Option, none, some, List, [], ◌∷◌,
  Text, codes, text_eq, any, ok, err, Result, is_ok,
}
use lanclip.Base.Dict.{lookup, Every}
use lanclip.Base.Unicode.{trim_space}
use lanclip.Pairing.Types.{Store, Peer, trusted}
use lanclip.Pairing.Store.{resolve}
use lanclip.Pairing.Changes.Trust.{TrustedAs}
use lanclip.Control
use lanclip.Control.{Request, Response, Codec, CallIo, call, serve}
use lanclip.Cli.{interact, sends}
use lanclip.Cli.Report.{decode_peers}
use lanclip.Cli.Consent.{agrees}
use lanclip.Daemon.Conns.{Registry}
use lanclip.Daemon.Status.{Probes}
use lanclip.Daemon.Control.{Fixed, Service, Turn, Payload, of_peers, handle_control, unpair_peer}
use lanclip.Daemon.Control.Prompt.{CanApprove, Approved, report, prompt_approves}
use lanclip.Daemon.Control.Answer.{ReadsBack, call_answers}
use lanclip.Daemon.Control.Unpair.{Late, late_conn, shake, interleaved, late_conn_stays}
use lanclip.Tests.Samples.{
  ascii, bob_id, amy_id, pin, asking, friend, name_json, digest, store, paired,
}
use lanclip.Daemon.Connect.{tick}
use lanclip.Daemon.Connect.Due.{AllDue, tick-AllDue}
use lanclip.Discovery.Registration
use lanclip.Discovery.Registration.{
  Announcer, Error, new_announcer, begins, takes, closes, apply_all, is_in,
}
use lanclip.Discovery.Registration.Single.{is_held, close_stops_all}
use lanclip.Tests.Samples
use lanclip.Tests.Stores.{store-IsValid}
use lanclip.Tests.Files.{paired-IsValid}
use lanclip.Tests.Connections.{wire, plain_net}
use lanclip.Tests.Commands.{waiting, only_one, approve_bob, typed}

abbrev pub fixed : Fixed
fixed = record {
  unicode = ascii;
  json = name_json;
  sha = digest;
  device = record { id = amy_id; name = codes "Amy"; fingerprint = codes "aa" };
  version = codes "1";
  net = plain_net;
  say = λ f. codes "failed";
}

abbrev pub nothing_yet : Registry
nothing_yet = record { conns = []; stats = []; connecting = []; closed = []; done = [] }

abbrev pub service : Store → Service
service s = record { store = s; found = []; registry = nothing_yet }

abbrev probes : Probes
probes = record {
  config_mode = some 384;
  identity_mode = some 384;
  peers_mode = some 420;
  socket_mode = none;
  listens = true;
  listen_port = 24872;
  is_linux = false;
  has_tools = false;
  has_session = false;
  format_time = λ t. [];
}

abbrev pub turn : Turn plain_net
turn = record {
  call = Samples.call;
  next_call = Samples.call;
  now = 300;
  next_now = 301;
  uptime = codes "1s";
  clipboard = record { running = true; last_event = []; last_error = [] };
  last_browse = 0;
  browse_error = [];
  probes = probes;
  networks = [];
  attempt = record {
    configured = true;
    connected = none;
    nonce = none;
    sent = false;
    answer = none;
  };
}

can_approve : Every (CanApprove fixed Samples.call store) store.pending_peers
unfolding trim_space text_eq lookup lanclip.Base.Dict.insert
can_approve = (
  record {
    trimmed = refl;
    has_token = refl;
    fresh = refl;
    saves = record { bytes = codes "Bob"; encodes = refl; steps = refl };
  },
  tt,
)

lists_bob :
    (handle_control fixed turn (service store) (report (codes "peers"))).1.payload
    ≡ some (of_peers (waiting ∷ []))
unfolding handle_control lanclip.Pairing.Store.list lanclip.Base.retain
    lanclip.Pairing.Store.prune_pending_locked lanclip.Base.Dict.keep_values lanclip.Discovery.peers
    lookup
lists_bob = refl

approves_bob :
    interact ascii only_one (codes "approve") none typed (decode_peers ascii (waiting ∷ []))
    ≡ sends approve_bob
unfolding interact lanclip.Base.retain decode_peers trim_space
approves_bob = refl

prompt_approves_example :
    (any (agrees ascii) typed ≡ true)
    × Approved store approve_bob (
        handle_control fixed turn
          (handle_control fixed turn (service store) (report (codes "peers"))).0
          approve_bob)
prompt_approves_example =
    prompt_approves fixed turn turn (service store) only_one none typed (waiting ∷ []) approve_bob
      store-IsValid can_approve lists_bob approves_bob

bob_is_trusted :
    TrustedAs (handle_control fixed turn (service store) approve_bob).0.store.peers bob_id pin
unfolding lookup handle_control lanclip.Pairing.Changes.approve lanclip.Pairing.Store.resolve_locked
    lanclip.Pairing.Store.prune_pending_locked lanclip.Base.Dict.keep_values trim_space
    lanclip.Pairing.Store.allowed lanclip.Pairing.Disk.save_locked lanclip.Base.Dict.insert
bob_is_trusted = record {
  peer = record friend { updated_at = 201 };
  found = refl;
  is_trusted = refl;
  pinned = refl;
}

-- A codec that knows the one request and response.
abbrev codec : Codec Payload
codec = record {
  encode_request = λ r. codes "request";
  decode_request = λ b. ok approve_bob;
  encode_response = λ r. some (codes "done");
  decode_response = λ b. some (record { okay = true; error = []; payload = none });
}

reads_back : ReadsBack codec approve_bob (handle_control fixed turn (service store) approve_bob).1
unfolding handle_control lanclip.Pairing.Changes.approve lanclip.Pairing.Store.resolve_locked lookup
    lanclip.Pairing.Store.prune_pending_locked lanclip.Base.Dict.keep_values trim_space
    lanclip.Pairing.Store.allowed lanclip.Pairing.Disk.save_locked
reads_back = record { request = refl; bytes = codes "done"; encodes = refl; decodes = refl }

abbrev lost : CallIo
lost = record { dial = true; send = true; receive = false }

call_answers_example :
    ((false ≡ true)
      × (call codec lost (serve codec (handle_control fixed turn)) (service store) approve_bob ≡ (
        (handle_control fixed turn (service store) approve_bob).0,
        ok (handle_control fixed turn (service store) approve_bob).1,
      )))
    ⊎ (((true ≡ false)
          × ((call codec lost
                (serve codec (handle_control fixed turn))
                (service store)
                approve_bob).0
              ≡ service store)
          × (is_ok
                (call codec lost
                  (serve codec (handle_control fixed turn))
                  (service store)
                  approve_bob).1
              ≡ false))
        ⊎ ((true ≡ true)
            × (call codec lost (serve codec (handle_control fixed turn)) (service store) approve_bob
                ≡ (
                  (handle_control fixed turn (service store) approve_bob).0,
                  err Control.no_response,
                ))))
unfolding text_eq
call_answers_example =
    call_answers fixed (λ e. refl) codec lost turn (service store) approve_bob reads_back

abbrev late : Late
late = record {
  call = Samples.call;
  local = amy_id;
  fingerprint = pin;
  outbound = true;
  wire = wire;
  handle = 7;
  address = codes "10.0.0.2:24872";
}

met_bob : (shake fixed late (service paired)).1 ≡ some friend
unfolding lanclip.Daemon.Handshake.handle_sync lanclip.Pairing.Store.trusted_fingerprint
    lanclip.Pairing.Types.state_eq lanclip.Daemon.Handshake.greet lanclip.Base.text_lt
    lanclip.Daemon.Handshake.refresh_name lanclip.Pairing.Name.normalize_device_name
met_bob = refl

means_bob :
    (resolve ascii Samples.call bob_id (trusted ∷ []) (shake fixed late (service paired)).0.store).1
    ≡ ok (friend.id, friend)
unfolding resolve lanclip.Pairing.Store.resolve_locked lookup
    lanclip.Pairing.Store.prune_pending_locked lanclip.Base.Dict.keep_values
    lanclip.Daemon.Handshake.handle_sync lanclip.Pairing.Store.trusted_fingerprint
    lanclip.Pairing.Types.state_eq lanclip.Daemon.Handshake.greet lanclip.Base.text_lt
    lanclip.Daemon.Handshake.refresh_name lanclip.Pairing.Name.normalize_device_name
    lanclip.Pairing.Store.allowed
means_bob = refl

unpairs : (unpair_peer fixed turn bob_id (shake fixed late (service paired)).0).1.okay ≡ true
unfolding unpair_peer resolve lanclip.Pairing.Store.resolve_locked lookup
    lanclip.Pairing.Store.prune_pending_locked lanclip.Base.Dict.keep_values
    lanclip.Daemon.Handshake.handle_sync lanclip.Pairing.Store.trusted_fingerprint
    lanclip.Pairing.Types.state_eq lanclip.Daemon.Handshake.greet lanclip.Base.text_lt
    lanclip.Daemon.Handshake.refresh_name lanclip.Pairing.Name.normalize_device_name
    lanclip.Pairing.Store.allowed lanclip.Pairing.Changes.unpair lanclip.Pairing.Disk.save_locked
unpairs = refl

no_space : trim_space ascii bob_id ≡ bob_id
unfolding trim_space
no_space = refl

late_conn_stays_example :
    (lookup bob_id (interleaved fixed late turn bob_id (service paired)).store.peers ≡ none)
    × (lookup bob_id (interleaved fixed late turn bob_id (service paired)).store.pending_peers
        ≡ none)
    × (lookup bob_id (interleaved fixed late turn bob_id (service paired)).registry.conns
        ≡ some (late_conn late friend))
    × ((interleaved fixed late turn bob_id (service paired)).registry.closed ≡ [])
unfolding lookup
late_conn_stays_example =
    late_conn_stays fixed late turn bob_id (service paired) friend friend paired-IsValid refl
      no_space met_bob means_bob unpairs

abbrev configured : Peer → List Text
configured p = codes "10.0.0.2:24872" ∷ []

-- The one configured host is dialled, for the trusted peer.
dials_bob :
    (tick plain_net amy_id [] configured [] Samples.call (paired, nothing_yet)).1
    ≡ record { id = bob_id; peer = friend; endpoints = codes "10.0.0.2:24872" ∷ [] } ∷ []
unfolding tick lanclip.Pairing.Store.list lanclip.Base.retain
    lanclip.Pairing.Store.prune_pending_locked lookup lanclip.Base.Dict.keep_values
    lanclip.Pairing.Types.state_eq lanclip.Base.text_lt lanclip.Daemon.Conns.connected
    lanclip.Daemon.Conns.begin_connect
dials_bob = refl

tick-AllDue_example :
    AllDue paired.peers amy_id nothing_yet
      (tick plain_net amy_id [] configured [] Samples.call (paired, nothing_yet)).1
tick-AllDue_example =
    tick-AllDue plain_net amy_id [] configured [] Samples.call paired nothing_yet paired-IsValid

abbrev announcer : Announcer
announcer = record {
  server = some 0;
  closed = false;
  last_error = [];
  count = 1;
  running = 0 ∷ [];
  waiting = [];
}

abbrev say_failed : Error → Text
say_failed e = codes "failed"

starts : new_announcer (ok []) (ok tt) ≡ ok announcer
unfolding new_announcer
starts = refl

-- A refresh that is complete, and one that has registered when Close comes.
abbrev two_refreshes : List Registration.Event
two_refreshes = begins (ok []) (ok tt) ∷ takes 1 ∷ begins (ok []) (ok tt) ∷ []

-- The announcement of the refresh under way is left when Close returns.
left_running : (apply_all say_failed announcer (two_refreshes ++ closes ∷ [])).running ≡ 2 ∷ []
unfolding apply_all lanclip.Discovery.Registration.without lanclip.Base.retain lanclip.Base.any
left_running = refl

close_stops_all_example :
    let b = apply_all say_failed announcer two_refreshes in
    let c = apply_all say_failed (Registration.close b) [] in
    ((j : ℕ) → is_in j b.running ≡ (is_held j b.server || is_in j b.waiting))
    × ((j : ℕ) → is_in j c.running ≡ is_in j c.waiting)
    × ((k : ℕ) → is_in k (Registration.apply say_failed c (takes k)).running ≡ false)
close_stops_all_example =
    close_stops_all say_failed (ok []) (ok tt) announcer two_refreshes [] starts
