-- ===== src/Daemon/Control/Quiet.antt =====
-- internal/pairing/store.go and internal/daemon/daemon.go: what a part of the service does to the store, as a
-- run of the store's methods that approves nothing or is one approval.
use mathlib.Core.Path.{subst}
use lanclip.Base.{
  ◌≡◌, refl, sym, ap, ◌⊎◌, inl, inr, Bool, true, false, Option, some, List, [], ◌∷◌, Text, arith,
  all,
}
use lanclip.Pairing.Types.{Peer, Store}
use lanclip.Pairing.Store.{Call}
use lanclip.Pairing.Changes.{put_pending}
use lanclip.Pairing.Changes.Trust.{TrustedAs, Approval}
use lanclip.Pairing.Changes.Approval.{trust_needs-Approval}
use lanclip.Pairing.Changes.Invariant.{step-IsValid, run-IsValid}
use lanclip.Pairing.Valid.{IsValid}
use lanclip.Pairing.Runs.{Method, approve_of, put_pending_of, perform, run, step}
use lanclip.Daemon.Control.{Fixed}

-- The method approves nothing.
abbrev pub is_quiet : Call × Method → Bool
is_quiet (c, approve_of query token fp code) = false
is_quiet (c, m) = true

module _ (f : Fixed) where
  -- The store after the command, as a run of methods that approve nothing, or of the one approval that
  -- the request asks for.
  pub record Ran (s : Store) (approval : Option (Call × Method)) (s' : Store) : Type 0 where
    pub calls : List (Call × Method)
    pub ends : s' ≡ run f.unicode f.json s calls
    pub kinds :
        (all is_quiet calls ≡ true) ⊎ ((m : Call × Method) × (approval ≡ some m) × (calls ≡ m ∷ []))

  abbrev pub quiet_run :
      (s : Store) (a : Option (Call × Method)) (cs : List (Call × Method))
      → all is_quiet cs ≡ true
      → Ran s a (run f.unicode f.json s cs)
  quiet_run s a cs q = record { calls = cs; ends = refl; kinds = inl q }

  -- A store left as it was, or after one PutPending.
  abbrev pub PutOnce : Call → Store → Store → Type 0
  PutOnce c s s' = (s' ≡ s) ⊎ ((p : Peer) × (s' ≡ (put_pending c p s).0))

  pub put_once-Ran :
      (c : Call) (a : Option (Call × Method)) (s s' : Store) → PutOnce c s s' → Ran s a s'
  unfolding run perform all
  put_once-Ran c a s s' (inl e) = subst (Ran s a) (sym e) (quiet_run s a [] refl)
  put_once-Ran c a s s' (inr (p, e)) =
      subst (Ran s a) (sym e) (quiet_run s a ((c, put_pending_of p) ∷ []) refl)

  quiet_kept :
      (s : Store) (cs : List (Call × Method)) (id fp : Text)
      → IsValid s
      → all is_quiet cs ≡ true
      → TrustedAs (run f.unicode f.json s cs).peers id fp
      → TrustedAs s.peers id fp
  unfolding run all
  quiet_kept s [] id fp v q t = t
  quiet_kept s ((c, m) ∷ cs) id fp v q t =
      let s' = step f.unicode f.json s (c, m) in
      let before =
        quiet_kept s' cs id fp (step-IsValid f.unicode f.json c s m v) (ground (arith, q)) t in
      elim (trust_needs-Approval f.unicode f.json s c m id fp v before) [
        | inl old ↦ old
        | inr a ↦ absurd (ground (arith, q, ap (λ m. is_quiet (c, m)) a.calls))
      ]

  -- What such a run leaves is valid.
  pub ran-IsValid :
      (s s' : Store) (a : Option (Call × Method)) → Ran s a s' → IsValid s → IsValid s'
  ran-IsValid s s' a r v = subst IsValid (sym r.ends) (run-IsValid f.unicode f.json s r.calls v)

  -- It adds no trust but that of the approval.
  pub ran-TrustedAs :
      (s s' : Store) (a : Option (Call × Method)) (id fp : Text)
      → Ran s a s'
      → IsValid s
      → TrustedAs s'.peers id fp
      → TrustedAs s.peers id fp ⊎ ((m : Call × Method) × (a ≡ some m) × Approval s m.0 m.1 id fp)
  unfolding run
  ran-TrustedAs s s' a id fp r v w =
      let after = subst (λ s. TrustedAs s.peers id fp) r.ends w in
      elim r.kinds [
        | inl q ↦ inl (quiet_kept s r.calls id fp v q after)
        | inr ((c, m), e, one) ↦
            let now = subst (λ cs. TrustedAs (run f.unicode f.json s cs).peers id fp) one after in
            elim (trust_needs-Approval f.unicode f.json s c m id fp v now) [
              | inl old ↦ inl old
              | inr b ↦ inr ((c, m), e, b)
            ]
      ]
