-- ===== src/Daemon/Control/Prompt.antt =====
-- cmd/lanclip/cli.go and internal/daemon/daemon.go together: an approval at the prompt, from the list of
-- peers to the store.
use mathlib.Core.Path.{subst}
use lanclip.Base.{
  ℕ, ◌≡◌, refl, sym, ap, ◌∙◌, true, false, not, ◌||◌, Option, none, some, List, [], Text, codes,
  text_eq, text_eq_iff, all, any, arith, inl, inr, Option-cases, Result, ok, err,
}
use lanclip.Base.Dict.{lookup, insert, Every, lookup-keep_values}
use lanclip.Base.Entries.{Every-lookup}
use lanclip.Base.Sorting.{all-sort_by}
use lanclip.Base.Unicode.{trim_space}
use lanclip.Pairing.Types.{Error, Peer, Store}
use lanclip.Pairing.Store.{Call, is_fresh, prune_pending_locked, list}
use lanclip.Pairing.Changes.{approve, as_trusted}
use lanclip.Pairing.Changes.Grant.{Saves, Granted, approve_grants}
use lanclip.Pairing.Changes.Trust.{TrustedAs}
use lanclip.Pairing.Valid.{IsValid, IsRequest, prune-IsValid}
use lanclip.Control.{Request, Response}
use lanclip.Cli.{Read, sends, interact, is_eligible, request_of, asks}
use lanclip.Cli.Report.{decode_peers, with_safe_name}
use lanclip.Cli.Consent.{agrees, interact-Agreed}
use lanclip.Daemon.Status.{PeerStatus, peer_statuses}
use lanclip.Daemon.Status.Honest.{same_request, is_honest, all-listed, all-map}
use lanclip.Daemon.Control.{
  Fixed, Service, Turn, of_peers, handle_control, answer_peers, Payload, result, with_payload,
}

-- A request without arguments.
abbrev pub report : Text → Request
report command = record {
  command = command;
  argument = [];
  pair_token = [];
  fingerprint = [];
  code = [];
}

-- What an approval of the entry asks for: nothing trims its ID, it has a token and is not expired when
-- the approval comes, and its entry can be saved.
pub record CanApprove (f : Fixed) (c : Call) (s : Store) (id : Text) (p : Peer) : Type 0 where
  pub trimmed : trim_space f.unicode id ≡ id
  pub has_token : text_eq p.approval_token [] ≡ false
  pub fresh : is_fresh c.prune_time s.pending_ttl p ≡ true
  pub saves : Saves f.json c.io (insert id (as_trusted c.stamp_time p) s.peers)

-- The state after the command and its response, for a request that was pending in the store.
pub record Approved (s : Store) (req : Request) (out : Service × Response Payload) : Type 0 where
  pub entry : Peer
  pub was_pending : lookup entry.id s.pending_peers ≡ some entry
  pub shown : req.code ≡ entry.comparison_code
  pub okay : out.1.okay ≡ true
  pub trusts : TrustedAs out.0.store.peers entry.id entry.fingerprint
  pub no_request : lookup entry.id out.0.store.pending_peers ≡ none

result-Approved :
    (f : Fixed) (c : Call) (d : Service) (s : Store) (q : Peer) (req : Request)
    (r : Store × Result Error (Unit {0}))
    → lookup q.id s.pending_peers ≡ some q
    → req.code ≡ q.comparison_code
    → Granted f.unicode f.json c q.id q r
    → Approved s req (result f d r)
result-Approved f c d s q req (s', ok x) found code g = record {
  entry = q;
  was_pending = found;
  shown = code;
  okay = refl;
  trusts = g.trusts;
  no_request = g.no_request;
}
result-Approved f c d s q req (s', err e) found code g = absurd (cc g.succeeded)

module _ (f : Fixed) (t t' : Turn f.net) (d : Service) where
  all-answer_peers :
      IsValid d.store → all (is_honest (answer_peers f t d).0.store) (answer_peers f t d).1 ≡ true
  unfolding answer_peers peer_statuses
  all-answer_peers v =
      all-sort_by _ (is_honest (list t.call d.store).0) _
        (all-listed _ d.registry.stats t.call d.store v)

  -- The request that the prompt makes, handled.
  handle_approve :
      (p : PeerStatus) (q : Peer) (s : Service)
      → IsValid s.store
      → lookup p.peer.id s.store.pending_peers ≡ some q
      → q.id ≡ p.peer.id
      → same_request p (some q) ≡ true
      → CanApprove f t'.call s.store p.peer.id q
      → Approved s.store
          (request_of (codes "approve") p)
          (handle_control f t' s (request_of (codes "approve") p))
  unfolding handle_control request_of text_eq
  handle_approve p q s v found own same can =
      let g =
        approve_grants f.unicode f.json t'.call s.store p.peer.id p.peer.approval_token
          p.peer.fingerprint p.peer.comparison_code q v (rw can.trimmed found) can.fresh
          (ground (arith, same, can.has_token, text_eq_iff p.peer.approval_token q.approval_token))
          (rw can.trimmed can.saves) in
      result-Approved f t'.call s s.store q _ _
        (subst (λ id. lookup id s.store.pending_peers ≡ some q) (sym own) found)
        ((text_eq_iff p.peer.comparison_code q.comparison_code).0 (ground (arith, same)))
        (subst
          (λ id. Granted f.unicode f.json t'.call id q (
            approve f.unicode f.json t'.call p.peer.id p.peer.approval_token p.peer.fingerprint
              p.peer.comparison_code s.store))
          (can.trimmed ∙ sym own) g)

  answer_peers-store : (answer_peers f t d).0.store ≡ prune_pending_locked t.call.prune_time d.store
  unfolding answer_peers list
  answer_peers-store = refl

  answer_peers-IsValid : IsValid d.store → IsValid (answer_peers f t d).0.store
  answer_peers-IsValid v =
      subst IsValid (sym answer_peers-store) (prune-IsValid t.call.prune_time d.store v)

  was_pending :
      (id : Text) (q : Peer)
      → IsValid d.store
      → lookup id (answer_peers f t d).0.store.pending_peers ≡ some q
      → lookup id d.store.pending_peers ≡ some q
  unfolding answer_peers list prune_pending_locked
  was_pending id q v e =
      let kept =
        lookup-keep_values id (is_fresh t.call.prune_time d.store.pending_ttl) d.store.pending_peers
          v.pending_nodup in
      elim (Option-cases (lookup id d.store.pending_peers)) [
        | inl x ↦ absurd (ground (arith, e, kept, x))
        | inr (r, x) ↦ ground (arith, e, kept, x)
      ]

  still_can :
      (id : Text) (q : Peer)
      → CanApprove f t'.call d.store id q
      → CanApprove f t'.call (answer_peers f t d).0.store id q
  unfolding answer_peers list prune_pending_locked
  still_can id q c = record {
    trimmed = c.trimmed;
    has_token = c.has_token;
    fresh = c.fresh;
    saves = c.saves;
  }

  handle_peers :
      handle_control f t d (report (codes "peers"))
      ≡ ((answer_peers f t d).0, with_payload f (of_peers (answer_peers f t d).1))
  unfolding handle_control text_eq
  handle_peers = refl

  all-decode_peers :
      (s : Store) (ps : List PeerStatus)
      → all (is_honest s) ps ≡ true
      → all (is_honest s) (decode_peers f.unicode ps) ≡ true
  unfolding decode_peers
  all-decode_peers s ps h = all-map (is_honest s) (with_safe_name f.unicode) ps h

  agreed_lines :
      (rs : List Read)
      → (not (asks (codes "approve")) || any (agrees f.unicode) rs) ≡ true
      → any (agrees f.unicode) rs ≡ true
  unfolding text_eq
  agreed_lines rs h = h

  agreed_shown :
      (p : PeerStatus) (s : Store)
      → is_honest s p ≡ true
      → is_eligible (codes "approve") p ≡ true
      → (q : Peer) × (lookup p.peer.id s.pending_peers ≡ some q) × (same_request p (some q) ≡ true)
  unfolding is_eligible text_eq
  agreed_shown p s g e = elim (Option-cases (lookup p.peer.id s.pending_peers)) [
    | inl x ↦ absurd (ground (arith, g, e, x))
    | inr (q, x) ↦ (q, x, ground (arith, g, e, x))
  ]

  approve_shown :
      (p : PeerStatus)
      → IsValid d.store
      → Every (CanApprove f t'.call d.store) d.store.pending_peers
      → is_honest (answer_peers f t d).0.store p ≡ true
      → is_eligible (codes "approve") p ≡ true
      → Approved d.store
          (request_of (codes "approve") p)
          (handle_control f t' (answer_peers f t d).0 (request_of (codes "approve") p))
  approve_shown p v can honest eligible =
      let d' = (answer_peers f t d).0 in
      let (q, found, same) = agreed_shown p d'.store honest eligible in
      let before = was_pending p.peer.id q v found in
      let own = (Every-lookup IsRequest p.peer.id d.store.pending_peers q v.requests before).0 in
      let ready = still_can p.peer.id q (
        Every-lookup (CanApprove f t'.call d.store) p.peer.id d.store.pending_peers q can before) in
      let a = handle_approve p q d' (answer_peers-IsValid v) found own same ready in
      record {
        entry = a.entry;
        was_pending = was_pending a.entry.id a.entry v a.was_pending;
        shown = a.shown;
        okay = a.okay;
        trusts = a.trusts;
        no_request = a.no_request;
      }

  -- An approval at the prompt, from the list of peers to the store: if "peers" is answered on a valid
  -- store, and what is typed at the prompt makes a request out of that list, then a line of the input
  -- said yes, and the service answers the request with success, trusts the fingerprint of a request
  -- that was pending in the store, with the code that the request names, and keeps that request no
  -- longer; provided that the pending entries have a token, an ID without space around it and a save
  -- that succeeds, and have not expired when the approval comes.
  pub prompt_approves :
      (atoi : Text → Option ℕ) (argument : Option Text) (rs : List Read) (ps : List PeerStatus)
      (req : Request)
      → IsValid d.store
      → Every (CanApprove f t'.call d.store) d.store.pending_peers
      → (handle_control f t d (report (codes "peers"))).1.payload ≡ some (of_peers ps)
      → interact f.unicode atoi (codes "approve") argument rs (decode_peers f.unicode ps)
        ≡ sends req
      → (any (agrees f.unicode) rs ≡ true)
        × Approved d.store req
            (handle_control f t' (handle_control f t d (report (codes "peers"))).0 req)
  prompt_approves atoi argument rs ps req v can e h =
      let d' = (answer_peers f t d).0 in
      let same : (answer_peers f t d).1 ≡ ps = cc (e, ap (λ r. r.1.payload) handle_peers) in
      let honest = subst (λ ls. all (is_honest d'.store) ls ≡ true) same (all-answer_peers v) in
      let a =
        interact-Agreed f.unicode (is_honest d'.store) (codes "approve") atoi argument rs
          (decode_peers f.unicode ps) req (all-decode_peers d'.store ps honest) h in
      let out = approve_shown a.device v can a.listed a.eligible in
      (
        agreed_lines rs a.agreed,
        subst (λ s. Approved d.store req (handle_control f t' s req))
            (ap (λ r. r.0) (sym handle_peers))
            (subst (λ r. Approved d.store r (handle_control f t' d' r)) (sym a.built) out),
      )
