-- ===== src/Daemon/System/Reading.antt =====
-- internal/daemon/daemon.go: the select loop of `readLoop`, with its pings, and the end of handleSync.
use lanclip.Base.{
  ◌≡◌, refl, Bool, true, false, Option, none, some, List, [], ◌∷◌, Text, codes, if◌then◌else◌,
  Result, ok, err,
}
use lanclip.Protocol.{Message}
use lanclip.Daemon.Conns.{PeerConn, Registry, unregister, record_error}
use lanclip.Daemon.System.{World, with_registry, leave}

-- What the select receives: the end of the service, a tick (with the nonce, empty where there is none, and the
-- result of send), or the end of the reader, at the end of the stream or with another error.
pub data Wake : Type 0 where
  stopped : Wake
  ticks : Text → Result Text (Unit {0}) → Wake
  ended : Bool → Text → Wake

abbrev pub ping : Text → Message
ping nonce = record {
  kind = codes "ping";
  protocol = 0;
  device_id = [];
  name = [];
  event_id = [];
  mime = [];
  text = [];
  nonce = nonce;
  code = [];
  fingerprint = [];
  error_code = [];
}

-- The pings of the loop and the registry after it. The loop ends with what it received last.
unfoldable pub read_loop : PeerConn → List Wake → Registry → List Message × Registry
unfolding record_error
read_loop pc [] r = ([], r)
read_loop pc (stopped ∷ ws) r = ([], r)
read_loop pc (ticks nonce (err e) ∷ ws) r = (ping nonce ∷ [], r)
read_loop pc (ticks nonce (ok x) ∷ ws) r =
    let (pings, r') = read_loop pc ws r in (ping nonce ∷ pings, r')
read_loop pc (ended eof e ∷ ws) r = ([], if eof then r else record_error pc.id e r)

-- The error that is recorded.
unfoldable pub noted : List Wake → Option Text
noted [] = none
noted (stopped ∷ ws) = none
noted (ticks nonce (err e) ∷ ws) = none
noted (ticks nonce (ok x) ∷ ws) = noted ws
noted (ended true e ∷ ws) = none
noted (ended false e ∷ ws) = some e

-- The end of a connection's read loop and the deferred `unregister` are the one turn of the service that ends
-- a connection, with the error of the reader, unless the stream came to its end, a ping failed or the
-- service stopped.
read_loop-leave :
    (pc : PeerConn) (ws : List Wake) (w : World)
    → with_registry (unregister pc (read_loop pc ws w.service.registry).1) w ≡ leave pc (noted ws) w
unfolding read_loop noted leave
read_loop-leave pc [] w = refl
read_loop-leave pc (stopped ∷ ws) w = refl
read_loop-leave pc (ticks nonce (err e) ∷ ws) w = refl
read_loop-leave pc (ticks nonce (ok x) ∷ ws) w = read_loop-leave pc ws w
read_loop-leave pc (ended true e ∷ ws) w = refl
read_loop-leave pc (ended false e ∷ ws) w = refl
