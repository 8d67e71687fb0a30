-- ===== src/Daemon/System/Origin.antt =====
-- Where the trust of the running service comes from.
use mathlib.Core.Path.{subst}
use lanclip.Base.{ℕ, ◌≡◌, refl, sym, ◌⊎◌, inl, inr, some, List, [], ◌∷◌, Text, codes}
use lanclip.Pairing.Store.{Call}
use lanclip.Pairing.Runs.{Method, approve_of}
use lanclip.Pairing.Changes.Trust.{TrustedAs, Approval}
use lanclip.Pairing.Valid.{IsValid}
use lanclip.Control.{Request}
use lanclip.Daemon.Control.{Fixed, Turn}
use lanclip.Daemon.Control.Quiet.{ran-IsValid, ran-TrustedAs}
use lanclip.Daemon.Control.Trust.{approval_inv}
use lanclip.Daemon.System.{World, Event, commands}
use lanclip.Daemon.System.Steps.{run}
use lanclip.Daemon.System.Turns.{approval_in, step-Ran}

module _ (f : Fixed) (max : ℕ) where
  -- The turn is the command "approve", and its arguments are the token, the fingerprint and the code of
  -- a request that is pending under the ID and has not expired.
  pub record Approves (w : World) (e : Event f) (id fp : Text) : Type 0 where
    pub turn : Turn f.net
    pub request : Request
    pub is_command : e ≡ commands turn request
    pub says_approve : request.command ≡ codes "approve"
    pub approval :
        Approval w.service.store turn.call
          (approve_of request.argument request.pair_token request.fingerprint request.code)
          id
          fp

  -- Some turn of the history approved.
  pub data Granted (w : World) : List (Event f) → Text → Text → Type 0 where
    now :
        {e : Event f} {es : List (Event f)} {id fp : Text}
        → Approves (run f max w es) e id fp
        → Granted w (e ∷ es) id fp
    earlier :
        {e : Event f} {es : List (Event f)} {id fp : Text}
        → Granted w es id fp
        → Granted w (e ∷ es) id fp

  approval_in-Approves :
      (w : World) (e : Event f) (m : Call × Method) (id fp : Text)
      → approval_in f max w e ≡ some m
      → Approval w.service.store m.0 m.1 id fp
      → Approves w e id fp
  approval_in-Approves w (commands t r) m id fp e a =
      let (named, same) = approval_inv f t w.service r m e in
      record {
        turn = t;
        request = r;
        is_command = refl;
        says_approve = named;
        approval = subst (λ m. Approval w.service.store m.0 m.1 id fp) (sym same) a;
      }
  approval_in-Approves w _ m id fp e a = absurd (cc e)

  pub run_store-IsValid :
      (w : World) (es : List (Event f))
      → IsValid w.service.store
      → IsValid (run f max w es).service.store
  unfolding run
  run_store-IsValid w [] v = v
  run_store-IsValid w (e ∷ es) v =
      ran-IsValid f _ _ _ (step-Ran f max (run f max w es) e) (run_store-IsValid w es v)

  -- Trust has an origin: whatever turns the service takes, in any order, from a valid store on, a peer
  -- that is trusted with a fingerprint in the end was so in the beginning, or some turn was the command
  -- "approve" with the token, this fingerprint and the code of a request that was pending under the
  -- peer's ID and had not expired.
  pub run-TrustedAs :
      (w : World) (es : List (Event f)) (id fp : Text)
      → IsValid w.service.store
      → TrustedAs (run f max w es).service.store.peers id fp
      → TrustedAs w.service.store.peers id fp ⊎ Granted w es id fp
  unfolding run
  run-TrustedAs w [] id fp v t = inl t
  run-TrustedAs w (e ∷ es) id fp v t =
      elim (ran-TrustedAs f _ _ _ id fp (step-Ran f max (run f max w es) e)
        (run_store-IsValid w es v) t) [
          | inr (m, x, a) ↦ inr (now (approval_in-Approves (run f max w es) e m id fp x a))
          | inl before ↦ elim (run-TrustedAs w es id fp v before) [
            | inl old ↦ inl old
            | inr g ↦ inr (earlier g)
          ]
        ]
