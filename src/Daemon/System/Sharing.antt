-- ===== src/Daemon/System/Sharing.antt =====
-- What the service shares, and with whom.
use mathlib.Core.Path.{subst}
use lanclip.Base.{any, ℕ, ◌≡◌, some, List, [], ◌∷◌, Text}
use lanclip.Base.Dict.{lookup}
use lanclip.Base.Members.{Each}
use lanclip.Pairing.Types.{Store}
use lanclip.Pairing.Valid.{IsValid}
use lanclip.Daemon.Conns.{PeerConn}
use lanclip.Daemon.Control.{Fixed}
use lanclip.Daemon.System.{World, new, Event, looks}
use lanclip.Daemon.System.Steps.{run}
use lanclip.Daemon.System.Linked.{Linked}
use lanclip.Daemon.System.Traced.{Traced}
use lanclip.Daemon.System.Vouched.{Shows, Vouched, New, none-Traced, step-Traced, run-Traced}
use lanclip.Daemon.System.Stopped.{is_stop, run-stopped}
use lanclip.Daemon.System.Handles.{one_fingerprint}

module _ (f : Fixed) (max : ℕ) where
  -- The connection with the handle showed one certificate, and that one is vouched for.
  pub record SharesWith (s : Store) (es : List (Event f)) (handle : ℕ) : Type 0 where
    pub vouched : Vouched f max (new s) es handle
    pub only : (fp : Text) → Shows f max (new s) es handle fp → fp ≡ vouched.fingerprint

  Vouched-SharesWith :
      (s : Store) (es : List (Event f)) (handle : ℕ)
      → Vouched f max (new s) es handle
      → SharesWith s es handle
  Vouched-SharesWith s es handle v = record {
    vouched = v;
    only = λ fp h. one_fingerprint f max (new s) es handle fp v.fingerprint h v.shows;
  }

  -- The clipboard is shared with approved devices only: whatever turns the service takes, in any order, from a
  -- valid store on, each text that was sent, each text from a peer that was written to the clipboard and
  -- each connection of the registry belongs to a connection that showed, when it was looked up, one
  -- certificate, and this is trusted in the store of the start, or a command "approve" among the turns
  -- has approved it, by the token, the fingerprint and the code of a pending request.
  pub sharing_is_vouched :
      (s : Store) (es : List (Event f))
      → IsValid s
      → Each (λ q. SharesWith s es q.0.handle) (run f max (new s) es).sent
        × Each (λ q. SharesWith s es q.0.handle) (run f max (new s) es).written
        × ((id : Text) (pc : PeerConn)
            → lookup id (run f max (new s) es).service.registry.conns ≡ some pc
            → SharesWith s es pc.handle)
  sharing_is_vouched s es v =
      let t = run-Traced f max s es v in
      (
        λ q m. Vouched-SharesWith s es q.0.handle (t.sent q m),
        λ q m. Vouched-SharesWith s es q.0.handle (t.written q m),
        λ id pc e. Vouched-SharesWith s es pc.handle (t.linked pc (t.links.registered id pc e).1),
      )

  no_news : (w : World) (e : Event f) → New f max (λ handle. Unit {0}) w e
  no_news w (looks fp outbound sent address) = λ p x. tt
  no_news w _ = tt

  run_links : (s : Store) (es : List (Event f)) → Traced (λ handle. Unit {0}) (run f max (new s) es)
  unfolding run
  run_links s [] = none-Traced f max (λ handle. Unit {0}) s
  run_links s (e ∷ es) =
      step-Traced f max (λ handle. Unit {0}) (run f max (new s) es) e
        (no_news (run f max (new s) es) e) (run_links s es)

  -- Whatever turns the service takes, in any order, the registry is in order: unless `close` was among the
  -- turns, the statistics say that a peer is connected exactly if a connection is registered for it; and
  -- in any case no ID is registered twice, and each registered connection stands under its own ID and
  -- has a read loop that has not ended.
  pub run-Linked :
      (s : Store) (es : List (Event f))
      → Linked
          (any (is_stop f max) es)
          (run f max (new s) es).linked
          (run f max (new s) es).service.registry
  run-Linked s es =
      let w = run f max (new s) es in
      subst (λ b. Linked b w.linked w.service.registry) (run-stopped f max s es)
        (run_links s es).links
