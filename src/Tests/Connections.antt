-- ===== src/Tests/Connections.antt =====
-- internal/daemon/daemon.go and internal/discovery/discovery.go: limits, connections, pairing, the
-- table of announced peers.
use lanclip.Base.{
  ℕ, ◌≡◌, ◌≢◌, refl, ◌⊎◌, inl, inr, ◌+◌, ◌<◌, ◌≤◌, ◌++◌, Bool, true, false, not, Option, some, none,
  List, [], ◌∷◌, Text, codes, arith, ok, err, length, text_eq, any, has_prefix,
}
use lanclip.Base.Dict.{lookup, insert}
use lanclip.Identity.Certificate.{Certificate}
use lanclip.Pairing.Types.{Peer, Store, pending}
use lanclip.Protocol.{Message}
use lanclip.Daemon.Rate.{Limiter, attempts, max_global_pair_attempts}
use lanclip.Daemon.Rate.Limits.{IsBounded, attempts_in_window}
use lanclip.Daemon.Conns.{PeerConn, register, unregister}
use lanclip.Daemon.Conns.Liveness.{
  Event, registers, unregisters, begins, empty, Holds, newest_stays,
}
use lanclip.Daemon.Handshake.{Wire, is_owner, handle_sync, Met, handle_sync-Met, ends_agree}
use lanclip.Daemon.Pair.{Device, pair_message, offer_kind, answer_offer, accept_answer}
use lanclip.Daemon.Pair.Agree.{codes_agree}
use lanclip.Discovery.{ServiceEntry, observe}
use lanclip.Discovery.Table
use lanclip.Discovery.Table.{observe-IsValid}
use mathlib.Core.List.{Memᴰ}
use lanclip.Base.Members.{Each}
use lanclip.Discovery.Direct.{Net, direct_endpoint}
use lanclip.Discovery.Networks.{Attached, active_lan_networks}
use lanclip.Discovery.Networks.Endpoint.{IsOnLan, direct_endpoint-IsOnLan}
use lanclip.Tests.Samples.{
  ascii, bob_id, amy_id, pin, friend, name_json, call, paired, digest, amy_cert, bob_cert,
}

abbrev quiet : Limiter
quiet = record { global = record { window = 5; count = 0 }; rates = [] }

quiet-IsBounded : IsBounded quiet
quiet-IsBounded = record {
  global_count = omega arith;
  host_counts = tt;
  entries = omega arith;
  nodup = tt;
}

attempts_in_window_example :
    quiet.global.count + (attempts ((6, codes "10.0.0.1") ∷ (7, codes "10.0.0.2") ∷ []) quiet).1
    ≤ max_global_pair_attempts
attempts_in_window_example =
    attempts_in_window ((6, codes "10.0.0.1") ∷ (7, codes "10.0.0.2") ∷ []) quiet (omega arith)
      (omega arith) (omega arith, (omega arith, tt))

abbrev first : PeerConn
first = record { handle = 1; id = bob_id; address = codes "10.0.0.2"; outbound = true }

abbrev second : PeerConn
second = record first { handle = 2 }

handles_differ : first.handle ≢ second.handle
handles_differ e = omega arith

abbrev history : List Event
history = registers first ∷ begins bob_id ∷ registers second ∷ unregisters first ∷ []

newest_stays_example :
    Holds second.id second.handle (unregister first (register second (register first empty).0).0)
newest_stays_example = newest_stays first second empty handles_differ

abbrev pub blank : Message
blank = record {
  kind = codes "hello";
  protocol = 1;
  device_id = bob_id;
  name = codes "Bob";
  event_id = [];
  mime = [];
  text = [];
  nonce = [];
  code = [];
  fingerprint = [];
  error_code = [];
}

abbrev pub wire : Wire
wire = record { hello_sent = true; incoming = some blank }

meets : (handle_sync ascii name_json call amy_id pin true wire paired).1 ≡ some friend
unfolding handle_sync lanclip.Pairing.Store.trusted_fingerprint lanclip.Pairing.Types.state_eq
    lanclip.Daemon.Handshake.greet lanclip.Base.text_lt lanclip.Daemon.Handshake.refresh_name
    lanclip.Pairing.Name.normalize_device_name
meets = refl

handle_sync-Met_example : Met ascii name_json call amy_id pin true wire paired friend
handle_sync-Met_example =
    handle_sync-Met ascii name_json call amy_id pin true wire paired friend meets

ids_differ : amy_id ≢ bob_id
ids_differ e = ground arith

abbrev zero_pin : Text
zero_pin = codes "0000000000000000000000000000000000000000000000000000000000000000"

abbrev amy : Device
amy = record { id = amy_id; name = codes "Amy"; fingerprint = zero_pin }

abbrev bob : Device
bob = record { id = bob_id; name = codes "Bob"; fingerprint = zero_pin }

abbrev alone : Store
alone = record paired { peers = [] }

abbrev offer : Message
offer = pair_message offer_kind amy (codes "n1")

abbrev answer : Message
answer = pair_message (codes "pair_answer") bob (codes "n2")

bob_answers :
    (answer_offer ascii digest call bob amy_cert offer (some (codes "n2")) alone).1 ≡ some answer
unfolding answer_offer text_eq lanclip.Daemon.Pair.is_sound lanclip.Identity.Uuid.valid_uuid
    lanclip.Pairing.Name.normalize_device_name lanclip.Identity.Hex.fingerprint
    lanclip.Identity.Hex.hex_encode lanclip.Identity.Certificate.validate_certificate_identity
    lanclip.Pairing.Changes.put_pending lookup lanclip.Pairing.Store.prune_pending_locked
    lanclip.Base.Dict.keep_values
bob_answers = refl

abbrev shown : Peer
shown = record friend {
  fingerprint = zero_pin;
  state = pending;
  comparison_code = codes "amber amber amber amber amber amber";
  approval_token = codes "t2";
  updated_at = 201;
}

amy_accepts :
    (accept_answer ascii digest call amy bob_cert bob_id
      (codes "0000000000000000")
      (codes "n1")
      answer
      alone).1
    ≡ some shown
unfolding accept_answer lanclip.Daemon.Pair.is_answer text_eq has_prefix
    lanclip.Identity.Hex.fingerprint lanclip.Identity.Hex.hex_encode lanclip.Daemon.Pair.is_sound
    lanclip.Identity.Uuid.valid_uuid lanclip.Pairing.Name.normalize_device_name
    lanclip.Identity.Certificate.validate_certificate_identity lanclip.Pairing.Changes.put_pending
    lookup lanclip.Pairing.Store.prune_pending_locked lanclip.Base.Dict.keep_values
    lanclip.Pairing.Code.comparison_code lanclip.Pairing.Code.join
amy_accepts = refl

codes_agree_example :
    (q : Peer) × (lookup amy_id
        (answer_offer ascii digest call bob amy_cert offer
          (some (codes "n2"))
          alone).0.pending_peers
      ≡ some q)
    × (q.comparison_code ≡ shown.comparison_code)
codes_agree_example =
    codes_agree ascii digest call call bob amy amy_cert bob_cert (codes "n1") bob_id
      (codes "0000000000000000") (some (codes "n2")) alone alone answer shown bob_answers
      amy_accepts

abbrev announcement : ServiceEntry
announcement = record {
  instance_name = codes "Bob";
  text =
      codes "v=1"
      ∷ codes "id=0b0b0b0b-0b0b-4b0b-8b0b-0b0b0b0b0b0b"
      ∷ codes "pk=0011223344556677"
      ∷ [];
  addr_ipv4 = codes "10.0.0.2" ∷ [];
  addr_ipv6 = [];
  port = 4040;
}

abbrev join_host : Text → ℕ → Text
join_host ip port = ip

none_listed : Table.IsValid amy_id []
none_listed = record { nodup = tt; bounded = omega arith; listed = tt }

bob_is_listed : length (observe ascii join_host amy_id 50 announcement []) ≡ 1
unfolding observe lanclip.Identity.Uuid.valid_uuid lookup insert text_eq
    lanclip.Identity.Hex.valid_fingerprint lanclip.Pairing.Name.normalize_device_name
    lanclip.Base.Dict.keep_values
bob_is_listed = refl

observe-IsValid_example : Table.IsValid amy_id (observe ascii join_host amy_id 50 announcement [])
observe-IsValid_example = observe-IsValid ascii join_host amy_id 50 announcement [] none_listed

-- Addresses are texts here, and the network is a prefix.
abbrev pub plain_net : Net
plain_net = record {
  Ip = Text;
  Network = Text;
  split_host = λ s. some s;
  parse_ip = λ s. some s;
  is_loopback = text_eq (codes "127.0.0.1");
  is_unspecified = text_eq (codes "0.0.0.0");
  is_multicast = λ s. false;
  contains = λ network ip. has_prefix ip network;
}

-- A card with a LAN address, and a tunnel whose network is no LAN.
abbrev cards : List (Attached plain_net)
cards =
    record {
      interface = record {
        name = codes "tun0";
        up = true;
        multicast = true;
        loopback = false;
        point_to_point = false;
      };
      addrs = some (some (codes "100.") ∷ []);
    }
    ∷ record {
      interface = record {
        name = codes "eth0";
        up = true;
        multicast = true;
        loopback = false;
        point_to_point = false;
      };
      addrs = some (none ∷ some (codes "10.") ∷ []);
    }
    ∷ []

abbrev addresses : List Text
addresses = codes "127.0.0.1" ∷ codes "100.1.1.1" ∷ codes "10.0.0.2" ∷ []

third_is_direct :
    direct_endpoint plain_net addresses (active_lan_networks ascii plain_net (some cards))
    ≡ some (codes "10.0.0.2")
unfolding direct_endpoint lanclip.Discovery.Direct.is_direct_ip text_eq has_prefix
    active_lan_networks lanclip.Discovery.Direct.eligible_interface
third_is_direct = refl

direct_endpoint-IsOnLan_example :
    ((e : Text) × (direct_endpoint plain_net addresses
          (active_lan_networks ascii plain_net (some cards))
        ≡ some e)
      × Memᴰ e addresses
      × IsOnLan ascii plain_net cards e)
    ⊎ ((direct_endpoint plain_net addresses (active_lan_networks ascii plain_net (some cards))
          ≡ none)
        × Each (λ e. ¬ IsOnLan ascii plain_net cards e) addresses)
direct_endpoint-IsOnLan_example = direct_endpoint-IsOnLan ascii plain_net cards addresses
