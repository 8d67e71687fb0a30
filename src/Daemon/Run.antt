-- ===== src/Daemon/Run.antt =====
-- internal/daemon/daemon.go: what `Run` opens, and what it and `close` close again.
use mathlib.Core.List.{Memᴰ}
use lanclip.Base.{
  ℕ, ◌≡◌, refl, Bool, true, false, not, Option, none, some, List, [], ◌∷◌, ◌++◌, map, Text, text_eq,
  if◌then◌else◌, arith, Bool-cases, inl, inr,
}
use lanclip.Base.Dict.{Dict, lookup}
use lanclip.Daemon.Conns.{PeerConn, Registry}

pub data Part : Type 0 where
  listener discovery clipboard control : Part

-- `serves` starts the five loops and waits for the end of the context.
pub data Act : Type 0 where
  opens closes : Part → Act
  serves : Act

-- Which of the steps succeed: ServerConfig, net.Listen, discovery.New, clip.Start, control.Listen.
pub record Opening : Type 0 where
  pub configured : Bool
  pub listens : Bool
  pub discovers : Bool
  pub watches : Bool
  pub controls : Bool

pub data Failure : Type 0 where
  no_tls no_listener no_discovery no_clipboard no_control : Failure

-- The connections' part of `close`.
unfoldable pub close_conns : Registry → Registry
close_conns r = record r { closed = map (λ (id, pc). pc.handle) r.conns ++ r.closed; conns = [] }

-- `close`, where all parts are there.
abbrev pub close_parts : List Act
close_parts = closes control ∷ closes listener ∷ closes discovery ∷ closes clipboard ∷ []

-- Run: what it does in its order, the error, and the connections after it, given those at the end of
-- the context.
unfoldable pub run : Opening → Registry → List Act × Registry × Option Failure
unfolding close_conns
run o r =
    if not o.configured
    then ([], r, some no_tls)
    else if not o.listens
    then ([], r, some no_listener)
    else if not o.discovers
    then (opens listener ∷ closes listener ∷ [], r, some no_discovery)
    else if not o.watches
    then (
      opens listener ∷ opens discovery ∷ closes discovery ∷ closes listener ∷ [],
      r,
      some no_clipboard,
    )
    else if not o.controls
    then (
      opens listener
          ∷ opens discovery
          ∷ opens clipboard
          ∷ closes clipboard
          ∷ closes discovery
          ∷ closes listener
          ∷ [],
      r,
      some no_control,
    )
    else (
      opens listener ∷ opens discovery ∷ opens clipboard ∷ opens control ∷ serves ∷ close_parts,
      close_conns r,
      none,
    )

abbrev pub same_part : Part → Part → Bool
same_part listener listener = true
same_part discovery discovery = true
same_part clipboard clipboard = true
same_part control control = true
same_part _ _ = false

-- The parts without this one; nothing if it is not among them.
unfoldable pub without : Part → List Part → Option (List Part)
without p [] = none
without p (q ∷ qs) =
    let rest = without p qs in
    if same_part p q then some qs else elim rest [ none ↦ none | some ps ↦ some (q ∷ ps) ]

-- The parts that are open after the acts; nothing if a part is closed that is not open.
unfoldable pub open_after : List Act → List Part → Option (List Part)
unfolding without
open_after [] ps = some ps
open_after (opens p ∷ acts) ps = open_after acts (p ∷ ps)
open_after (serves ∷ acts) ps = open_after acts ps
open_after (closes p ∷ acts) ps = elim (without p ps) [ none ↦ none | some qs ↦ open_after acts qs ]

conns_closed :
    (conns : Dict PeerConn) (old : List ℕ) (id : Text) (pc : PeerConn)
    → lookup id conns ≡ some pc
    → Memᴰ pc.handle (map (λ (id, pc). pc.handle) conns ++ old)
unfolding lookup
conns_closed [] old id pc e = absurd (cc e)
conns_closed ((j, q) ∷ conns) old id pc e = elim (Bool-cases (text_eq j id)) [
  | inl x ↦ let it : pc.handle ≡ q.handle = ground (arith, e, x) in Memᴰ.head it
  | inr x ↦ Memᴰ.tail (conns_closed conns old id pc (ground (arith, e, x)))
]

-- Whichever steps fail, every part that Run opened is closed again when it returns, each once and after it
-- was opened; and if it returns without an error, each connection that was registered is closed, and
-- none is registered any more.
pub run_closes_all :
    (o : Opening) (r : Registry)
    → (open_after (run o r).0 [] ≡ some [])
      × ((run o r).2 ≡ none
          → ((run o r).1.conns ≡ [])
            × ((id : Text) (pc : PeerConn)
                → lookup id r.conns ≡ some pc
                → Memᴰ pc.handle (run o r).1.closed))
unfolding run open_after without close_conns
run_closes_all o r = elim (Bool-cases o.configured) [
  | inr x ↦ rw (x, run) (refl, λ h. absurd (cc h))
  | inl x ↦ elim (Bool-cases o.listens) [
    | inr y ↦ rw (x, y, run) (refl, λ h. absurd (cc h))
    | inl y ↦ elim (Bool-cases o.discovers) [
      | inr z ↦ rw (x, y, z, run) (refl, λ h. absurd (cc h))
      | inl z ↦ elim (Bool-cases o.watches) [
        | inr w ↦ rw (x, y, z, w, run) (refl, λ h. absurd (cc h))
        | inl w ↦ elim (Bool-cases o.controls) [
          | inr k ↦ rw (x, y, z, w, k, run) (refl, λ h. absurd (cc h))
          | inl k ↦
              rw (x, y, z, w, k, run)
                (refl, λ h. (refl, λ id pc e. conns_closed r.conns r.closed id pc e))
        ]
      ]
    ]
  ]
]
