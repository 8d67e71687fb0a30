-- ===== src/Control/Listen.antt =====
-- internal/control/control.go: Listen and Close, and the loop of `serve`. What the system answers to a
-- call is an outcome of it; the goroutines of the connections call the handler one after another.
use lanclip.Base.{
  ℕ, ◌≡◌, refl, ap, Bool, true, false, not, ◌&&◌, is_some, Option, none, some, List, [], ◌∷◌, ◌++◌,
  ◌*◌, Text, Result, ok, err, if◌then◌else◌, arith,
}
use lanclip.Control.{Request, Response, Codec, serve}

-- The file at the socket's path, by its mode, and whether this process listens on it.
pub record Endpoint : Type 0 where
  pub file : Option ℕ
  pub listening : Bool

pub data ListenError : Type 0 where
  listen_failed chmod_failed : ListenError

-- Whether the old file goes, the mode that the new socket has if there is one, whether it can be changed,
-- and whether closing the listener removes the file.
pub record ListenIo : Type 0 where
  pub removed : Bool
  pub created : Option ℕ
  pub changed : Bool
  pub unlinked : Bool

-- 0600.
abbrev pub private_mode : ℕ
private_mode = 6 * 8 * 8

abbrev pub remove : Bool → Endpoint → Endpoint
remove removed e = if removed then record e { file = none } else e

-- `ln.Close`.
abbrev pub close_listener : Bool → Endpoint → Endpoint
close_listener unlinked e = record (remove unlinked e) { listening = false }

unfoldable pub listen : ListenIo → Endpoint → Endpoint × Result ListenError (Unit {0})
listen io e = elim io.created [
  | none ↦ (remove io.removed e, err listen_failed)
  | some mode ↦
      if not io.changed
      then (
        close_listener io.unlinked (record { file = some mode; listening = true }),
        err chmod_failed,
      )
      else (record { file = some private_mode; listening = true }, ok tt)
]

-- Close of a server that Listen made, and whether os.Remove succeeds in it, which it never does where
-- there is no file.
unfoldable pub close : Bool → Bool → Endpoint → Endpoint × Bool
close unlinked removed e =
    let e' = close_listener unlinked e in (remove removed e', removed && is_some e'.file)

-- After Listen has succeeded the socket has the mode 0600.
listen_private :
    (io : ListenIo) (e : Endpoint)
    → (listen io e).1 ≡ ok tt
    → (listen io e).0 ≡ record { file = some private_mode; listening = true }
unfolding listen
listen_private io e h = ground (arith, h)

-- After an error this process does not listen, if it did not before.
listen_fails :
    (io : ListenIo) (e : Endpoint) (x : ListenError)
    → e.listening ≡ false
    → (listen io e).1 ≡ err x
    → (listen io e).0.listening ≡ false
unfolding listen
listen_fails io e x n h = ground (arith, n, h)

-- Close returns an error whenever closing the listener has removed the socket.
close_reports :
    (removed : Bool) (e : Endpoint)
    → close true removed e ≡ (record { file = none; listening = false }, false)
unfolding close
close_reports true e = refl
close_reports false e = refl

module _ {ℓ κ} {D : Type ℓ} {S : Type κ} (j : Codec D)
    (handler : S → Request → S × Response D) where
  -- The loop of `serve`: what each Accept brings, until one fails.
  unfoldable pub serve_all : S → List (Option Text) → S × List (Option Text)
  serve_all s [] = (s, [])
  serve_all s (none ∷ _) = (s, [])
  serve_all s (some bytes ∷ more) =
      let (s', answer) = serve j handler s bytes in
      let (s'', answers) = serve_all s' more in (s'', answer ∷ answers)

  -- After an Accept has failed nothing is served.
  serve_all-Cut :
      (s : S) (before after : List (Option Text))
      → serve_all s (before ++ none ∷ after) ≡ serve_all s before
  unfolding serve_all
  serve_all-Cut s [] after = refl
  serve_all-Cut s (none ∷ before) after = refl
  serve_all-Cut s (some bytes ∷ before) after =
      ap (λ r. (r.0, (serve j handler s bytes).1 ∷ r.1))
        (serve_all-Cut (serve j handler s bytes).0 before after)
