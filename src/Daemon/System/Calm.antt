-- ===== src/Daemon/System/Calm.antt =====
-- internal/daemon/daemon.go: what a turn does to the registry of connections.
use mathlib.Core.Path.{subst}
use lanclip.Base.{
  ◌++◌, ℕ, ◌≡◌, refl, sym, ap, ◌∙◌, Option, none, some, List, [], ◌∷◌, Text, codes, text_eq, arith,
  Option-cases, Bool-cases, Result-cases, Result, ok, err, inl, inr,
}
use lanclip.Base.Dict.{lookup}
use lanclip.Pairing.Types.{Peer, Store, Error, trusted}
use lanclip.Pairing.Store.{Call, list, resolve}
use lanclip.Control.{Request}
use lanclip.Discovery
use lanclip.Transport.Backoff.{Backoff}
use lanclip.Daemon.Conns.{
  PeerConn, Registry, record_error, record_sent, record_received, begin_connect, end_connect,
}
use lanclip.Daemon.Conns.Liveness.{IsLive, apply, apply-IsLive, sends, receives, errs}
use lanclip.Sync.{Suppressor}
use lanclip.Protocol.{Message}
use lanclip.Daemon.Clipboard.{InboundClipboard, write_peer, write_clipboard}
use lanclip.Daemon.Clipboard as Clipboard
use lanclip.Discovery.Direct.{Net}
use lanclip.Daemon.Connect.{
  tick, found_candidates, manual_candidates, is_due, begin_dial, start_dials, last_error,
  finish_dial,
}
use lanclip.Daemon.Control.{
  Fixed, Service, Turn, Failure, close_conn, result, pair, pair_result, endpoint_of, answer_peers,
  answer_status, answer_doctor, unpair_peer, handle_control,
}

-- The same connections, and their statistics are right if they were.
pub record Calm (r r' : Registry) : Type 0 where
  pub same : r'.conns ≡ r.conns
  pub live : IsLive r → IsLive r'

abbrev pub same_registry : (r r' : Registry) → r' ≡ r → Calm r r'
same_registry r r' e = record { same = ap (λ q. q.conns) e; live = λ v. subst IsLive (sym e) v }

-- Commands close connections, but leave it to their read loops to take them out.
close_conn-Calm : (c : Option PeerConn) (r : Registry) → Calm r (close_conn c r)
close_conn-Calm none r = same_registry r r refl
close_conn-Calm (some c) r = record { same = refl; live = λ v. v }

module _ (f : Fixed) where
  module _ (t : Turn f.net) (d : Service) where
    result-registry :
        (d : Service) (r : Store × Result Error (Unit {0})) → (result f d r).0.registry ≡ d.registry
    result-registry d (s, ok x) = refl
    result-registry d (s, err e) = refl

    pair-registry : (query : Text) → (pair f t query d).0.registry ≡ d.registry
    unfolding pair
    pair-registry query = elim (Option-cases (Discovery.find f.unicode t.now query d.found).1) [
      | inl x ↦ rw (x, pair) refl
      | inr (p, x) ↦ elim (Result-cases (endpoint_of f.net t.networks p)) [
        | inr (e, y) ↦ rw (x, y, pair) refl
        | inl (e, y) ↦ rw (x, y, pair) refl
      ]
    ]

    pair_result-registry :
        (r : Service × Result Failure Peer) → (pair_result f r).0.registry ≡ r.0.registry
    pair_result-registry (s, ok p) = refl
    pair_result-registry (s, err e) = refl

    unpair_peer-Calm : (query : Text) → Calm d.registry (unpair_peer f t query d).0.registry
    unfolding unpair_peer
    unpair_peer-Calm query =
        elim (Result-cases (resolve f.unicode t.call query (trusted ∷ []) d.store).1) [
          | inr (e, x) ↦ rw (x, unpair_peer) (same_registry d.registry d.registry refl)
          | inl ((id, p), x) ↦
              let r' = close_conn (lookup id d.registry.conns) d.registry in
              rw (x, unpair_peer)
                (subst (Calm d.registry) (sym (result-registry (record d { registry = r' }) _))
                  (close_conn-Calm (lookup id d.registry.conns) d.registry))
        ]

    pub handle_control-Calm : (r : Request) → Calm d.registry (handle_control f t d r).0.registry
    unfolding handle_control answer_status answer_peers answer_doctor
    handle_control-Calm r =
        let same = same_registry d.registry d.registry refl in
        elim (Bool-cases (text_eq r.command (codes "status"))) [
          | inl x ↦ rw (x, handle_control) same
          | inr x ↦ elim (Bool-cases (text_eq r.command (codes "peers"))) [
            | inl y ↦ rw (x, y, handle_control) same
            | inr y ↦ elim (Bool-cases (text_eq r.command (codes "pair"))) [
              | inl z ↦
                  rw (x, y, z, handle_control)
                    (same_registry d.registry _
                      (pair_result-registry (pair f t r.argument d) ∙ pair-registry r.argument))
              | inr z ↦ elim (Bool-cases (text_eq r.command (codes "approve"))) [
                | inl w ↦
                    rw (x, y, z, w, handle_control)
                      (same_registry d.registry _ (result-registry d _))
                | inr w ↦ elim (Bool-cases (text_eq r.command (codes "reject"))) [
                  | inl k ↦
                      rw (x, y, z, w, k, handle_control)
                        (same_registry d.registry _ (result-registry d _))
                  | inr k ↦ elim (Bool-cases (text_eq r.command (codes "unpair"))) [
                    | inl l ↦ rw (x, y, z, w, k, l, handle_control) (unpair_peer-Calm r.argument)
                    | inr l ↦ elim (Bool-cases (text_eq r.command (codes "doctor"))) [
                      | inl j ↦ rw (x, y, z, w, k, l, j, handle_control) same
                      | inr j ↦ rw (x, y, z, w, k, l, j, handle_control) same
                    ]
                  ]
                ]
              ]
            ]
          ]
        ]

begin_dial-Calm :
    (id : Text) (p : Peer) (es : List Text) (r : Registry) → Calm r (begin_dial id p es r).0
unfolding begin_dial begin_connect end_connect
begin_dial-Calm id p es r = record { same = ground arith; live = λ v i. ground (arith, v i) }

pub start_dials-Calm :
    (local : Text) (cs : List (Text × Option Peer × List Text)) (r : Registry)
    → Calm r (start_dials local cs r).0
unfolding start_dials
start_dials-Calm local [] r = same_registry r r refl
start_dials-Calm local ((id, none, es) ∷ cs) r = start_dials-Calm local cs r
start_dials-Calm local ((id, some p, es) ∷ cs) r = elim (Bool-cases (is_due local id (some p) r)) [
  | inr x ↦ rw (start_dials, x) (start_dials-Calm local cs r)
  | inl x ↦
      let first = begin_dial-Calm id p es r in
      let more = start_dials-Calm local cs (begin_dial id p es r).0 in
      rw (start_dials, x)
        (record { same = more.same ∙ first.same; live = λ v. more.live (first.live v) })
]

pub finish_dial-Calm :
    (rand : ℕ → ℕ) (id : Text) (results : List (Result Text (Unit {0}))) (r : Registry)
    (b : Backoff)
    → Calm r (finish_dial rand id results (r, b)).0
unfolding finish_dial end_connect record_error apply
finish_dial-Calm rand id results r b = elim (Option-cases (last_error results)) [
  | inl x ↦ rw (finish_dial, x) (record { same = refl; live = λ v. v })
  | inr (e, x) ↦
      rw (finish_dial, x) (record { same = refl; live = λ v. apply-IsLive r (errs id e) v })
]

-- The notes on a connection that failed, sent or received.
pub error-Calm : (id e : Text) (r : Registry) → Calm r (record_error id e r)
unfolding apply record_error
error-Calm id e r = record { same = refl; live = λ v. apply-IsLive r (errs id e) v }

pub write_peer-Calm :
    (now : ℕ) (pc : PeerConn) (result : Result Text (Unit {0})) (m : Message) (r : Registry)
    → Calm r (write_peer now pc result m r).0
unfolding apply write_peer record_sent record_error
write_peer-Calm now pc (ok x) m r = record {
  same = refl;
  live = λ v. apply-IsLive r (sends pc.id now m.text) v;
}
write_peer-Calm now pc (err e) m r = record {
  same = refl;
  live = λ v. apply-IsLive r (errs pc.id e) v;
}

pub write_clipboard-Calm :
    (sum : Text → Text) (t : Clipboard.Turn) (c : InboundClipboard) (r : Registry) (s : Suppressor)
    → Calm r (write_clipboard sum t c r s).0
unfolding apply write_clipboard record_received record_error
write_clipboard-Calm sum t c r s = elim (Result-cases t.written) [
  | inl (x, e) ↦
      rw (e, write_clipboard)
        (record {
          same = refl;
          live = λ v. apply-IsLive r (receives c.peer_id t.end_time c.text) v;
        })
  | inr (x, e) ↦
      rw (e, write_clipboard)
        (record { same = refl; live = λ v. apply-IsLive r (errs c.peer_id x) v })
]

pub tick-Calm :
    (n : Net) (local : Text) (networks : List n.Network) (resolve : Peer → List Text)
    (found : List (Call × Discovery.Peer)) (c : Call) (s : Store) (r : Registry)
    → Calm r (tick n local networks resolve found c (s, r)).0.1
unfolding tick
tick-Calm n local networks resolve found c s r =
    let (s', cs) = found_candidates n networks found s in
    start_dials-Calm local (cs ++ manual_candidates found resolve (list c s').1) r
