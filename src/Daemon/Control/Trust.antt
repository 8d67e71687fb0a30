-- ===== src/Daemon/Control/Trust.antt =====
-- internal/daemon/daemon.go: what commands do to the store: a run of its methods.
use mathlib.Core.Path.{subst}
use lanclip.Base.{
  ◌≡◌, refl, sym, ◌⊎◌, inl, inr, Option, none, some, [], ◌∷◌, Text, codes, text_eq, text_eq_iff,
  arith, if◌then◌else◌, Option-cases, Bool-cases, Result-cases, Result, ok, err, all,
}
use lanclip.Base.Dict.{lookup}
use lanclip.Identity.Hex.{fingerprint}
use lanclip.Identity.Certificate.{Certificate}
use lanclip.Protocol.{Message}
use lanclip.Pairing.Code.{comparison_code}
use lanclip.Pairing.Name.{normalize_device_name}
use lanclip.Pairing.Types.{Peer, Store, Error, trusted}
use lanclip.Pairing.Store.{Call, list, resolve}
use lanclip.Pairing.Changes.{put_pending}
use lanclip.Pairing.Changes.Trust.{TrustedAs, Approval}
use lanclip.Pairing.Valid.{IsValid}
use lanclip.Pairing.Runs.{
  Method, approve_of, reject_of, unpair_of, resolve_of, list_of, perform, run,
}
use lanclip.Discovery
use lanclip.Control.{Request}
use lanclip.Daemon.Pair.{accept_answer, is_answer, request, side, sender}
use lanclip.Daemon.Control.Quiet.{Ran, PutOnce, quiet_run, put_once-Ran, ran-TrustedAs}
use lanclip.Daemon.Control.{
  Fixed, Service, Turn, Attempt, result, exchange, pair, pair_result, answer_peers, answer_status,
  answer_doctor, unpair_peer, handle_control, endpoint_of, paired, Failure, close_conn,
}

module _ (f : Fixed) where
  result-Ran :
      (d : Service) (s : Store) (a : Option (Call × Method)) (r : Store × Result Error (Unit {0}))
      → Ran f s a r.0
      → Ran f s a (result f d r).0.store
  result-Ran d s a (s', ok x) h = h
  result-Ran d s a (s', err e) h = h

  accept_answer-store :
      (c : Call) (cert : Certificate) (id fp nonce : Text) (m : Message) (s : Store)
      → PutOnce f c s (accept_answer f.unicode f.sha c f.device cert id fp nonce m s).0
  unfolding accept_answer
  accept_answer-store c cert id fp nonce m s =
      elim (Bool-cases (is_answer f.unicode f.sha c f.device cert id fp m)) [
        | inr e ↦ inl (ground (arith, e))
        | inl e ↦
            let asked =
              request m.device_id (normalize_device_name f.unicode m.name)
                (fingerprint f.sha cert.raw)
                (comparison_code f.sha.sum (side f.device nonce) (sender m)) in
            inr (
              asked,
              elim (Result-cases (put_pending c asked s).1) [
                | inl x ↦ ground (arith, e, x.1)
                | inr x ↦ ground (arith, e, x.1)
              ],
            )
      ]

  paired-store : (r : Store × Option Peer) → (paired r).0 ≡ r.0
  paired-store (s, none) = refl
  paired-store (s, some p) = refl

  exchange-store :
      (c : Call) (a : Attempt) (p : Discovery.Peer) (s : Store)
      → PutOnce f c s (exchange f c a p s).0
  unfolding exchange
  exchange-store c a p s = elim (Bool-cases a.configured) [
    | inr e ↦ rw e (inl refl)
    | inl e ↦ elim (Option-cases a.connected) [
      | inl x ↦ rw (e, x) (inl refl)
      | inr (cert, x) ↦ elim (Option-cases a.nonce) [
        | inl y ↦ rw (e, x, y) (inl refl)
        | inr (nonce, y) ↦ elim (Bool-cases a.sent) [
          | inr z ↦ rw (e, x, y, z) (inl refl)
          | inl z ↦ elim (Option-cases a.answer) [
            | inl w ↦ rw (e, x, y, z, w) (inl refl)
            | inr (m, w) ↦
                rw (e, x, y, z, w)
                  (subst (PutOnce f c s) (sym (paired-store _))
                    (accept_answer-store c cert p.id p.fingerprint nonce m s))
          ]
        ]
      ]
    ]
  ]

  module _ (t : Turn f.net) (d : Service) where
    pair-store : (query : Text) → PutOnce f t.call d.store (pair f t query d).0.store
    unfolding pair
    pair-store query = elim (Option-cases (Discovery.find f.unicode t.now query d.found).1) [
      | inl x ↦ rw (x, pair) (inl refl)
      | inr (p, x) ↦ elim (Result-cases (endpoint_of f.net t.networks p)) [
        | inr (e, y) ↦ rw (x, y, pair) (inl refl)
        | inl (e, y) ↦ rw (x, y, pair) (exchange-store t.call t.attempt p d.store)
      ]
    ]

    pair-Ran :
        (query : Text) (a : Option (Call × Method)) → Ran f d.store a (pair f t query d).0.store
    pair-Ran query a = put_once-Ran f t.call a d.store _ (pair-store query)

    pair_result-store : (r : Service × Result Failure Peer) → (pair_result f r).0.store ≡ r.0.store
    pair_result-store (s, ok p) = refl
    pair_result-store (s, err e) = refl

    list-Ran : (a : Option (Call × Method)) → Ran f d.store a (list t.call d.store).0
    unfolding run perform all
    list-Ran a = quiet_run f d.store a ((t.call, list_of) ∷ []) refl

    unpair_peer-Ran :
        (query : Text) (a : Option (Call × Method))
        → Ran f d.store a (unpair_peer f t query d).0.store
    unfolding unpair_peer run perform all
    unpair_peer-Ran query a =
        elim (Result-cases (resolve f.unicode t.call query (trusted ∷ []) d.store).1) [
          | inr (e, x) ↦
              rw (x, unpair_peer)
                (quiet_run f d.store a ((t.call, resolve_of query (trusted ∷ [])) ∷ []) refl)
          | inl ((id, p), x) ↦
              rw (x, unpair_peer)
                (result-Ran
                  (record d { registry = close_conn (lookup id d.registry.conns) d.registry })
                  d.store a _
                  (quiet_run f d.store a
                    ((t.call, resolve_of query (trusted ∷ [])) ∷ (t.next_call, unpair_of id) ∷ [])
                    refl))
        ]

    -- The call that "approve" makes.
    abbrev pub approval_of : Request → Option (Call × Method)
    approval_of r =
        if text_eq r.command (codes "approve")
        then some (t.call, approve_of r.argument r.pair_token r.fingerprint r.code)
        else none

    pub handle_control-Ran :
        (r : Request) → Ran f d.store (approval_of r) (handle_control f t d r).0.store
    unfolding handle_control answer_status answer_peers answer_doctor run perform all
    handle_control-Ran r = elim (Bool-cases (text_eq r.command (codes "status"))) [
      | inl x ↦ rw (x, handle_control) (list-Ran _)
      | inr x ↦ elim (Bool-cases (text_eq r.command (codes "peers"))) [
        | inl y ↦ rw (x, y, handle_control) (list-Ran _)
        | inr y ↦ elim (Bool-cases (text_eq r.command (codes "pair"))) [
          | inl z ↦
              rw (x, y, z, handle_control)
                (subst (Ran f d.store _) (sym (pair_result-store _)) (pair-Ran r.argument _))
          | inr z ↦ elim (Bool-cases (text_eq r.command (codes "approve"))) [
            | inl w ↦
                rw (x, y, z, w, handle_control)
                  (result-Ran d d.store _ _ (record {
                    calls = (t.call, approve_of r.argument r.pair_token r.fingerprint r.code) ∷ [];
                    ends = refl;
                    kinds = inr (_, refl, refl);
                  }))
            | inr w ↦ elim (Bool-cases (text_eq r.command (codes "reject"))) [
              | inl k ↦
                  rw (x, y, z, w, k, handle_control)
                    (result-Ran d d.store _ _
                      (quiet_run f d.store _ ((t.call, reject_of r.argument) ∷ []) refl))
              | inr k ↦ elim (Bool-cases (text_eq r.command (codes "unpair"))) [
                | inl l ↦ rw (x, y, z, w, k, l, handle_control) (unpair_peer-Ran r.argument _)
                | inr l ↦ elim (Bool-cases (text_eq r.command (codes "doctor"))) [
                  | inl j ↦ rw (x, y, z, w, k, l, j, handle_control) (list-Ran _)
                  | inr j ↦ rw (x, y, z, w, k, l, j, handle_control) (quiet_run f d.store _ [] refl)
                ]
              ]
            ]
          ]
        ]
      ]
    ]

  pub approval_inv :
      (t : Turn f.net) (d : Service) (r : Request) (m : Call × Method)
      → approval_of t d r ≡ some m
      → (r.command ≡ codes "approve")
        × ((t.call, approve_of r.argument r.pair_token r.fingerprint r.code) ≡ m)
  approval_inv t d r m e = elim (Bool-cases (text_eq r.command (codes "approve"))) [
    | inr x ↦ absurd (ground (arith, e, x))
    | inl x ↦ ((text_eq_iff r.command (codes "approve")).0 x, ground (arith, e, x))
  ]

  -- No command but "approve" lets a peer be trusted: after any command on a valid store, a peer is
  -- trusted with a fingerprint only if it was before, or the command is "approve" and its four arguments
  -- approve a request that is pending under the peer's ID and has not expired, by the request's token,
  -- fingerprint and comparison code.
  pub commands_need-Approval :
      (t : Turn f.net) (d : Service) (r : Request) (id fp : Text)
      → IsValid d.store
      → TrustedAs (handle_control f t d r).0.store.peers id fp
      → TrustedAs d.store.peers id fp
        ⊎ ((r.command ≡ codes "approve")
            × Approval d.store t.call
                (approve_of r.argument r.pair_token r.fingerprint r.code)
                id
                fp)
  commands_need-Approval t d r id fp v w =
      elim (ran-TrustedAs f d.store _ (approval_of t d r) id fp (handle_control-Ran t d r) v w) [
        | inl old ↦ inl old
        | inr (m, e, a) ↦
            let (named, same) = approval_inv t d r m e in
            inr (named, subst (λ m. Approval d.store m.0 m.1 id fp) (sym same) a)
      ]
