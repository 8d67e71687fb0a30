-- ===== src/Daemon/Connect/Due.antt =====
-- Which dials a tick starts.
use mathlib.Core.Path.{subst}
use mathlib.Core.List.{Memᴰ}
use lanclip.Base.{
  ◌≡◌, refl, sym, ap, ◌∙◌, inl, inr, Bool, true, false, Option, none, some, List, [], ◌∷◌, Text,
  text_eq, text_eq_refl, text_eq_iff, text_lt, any, arith, Option-cases, Bool-cases,
}
use lanclip.Base.Members.{Each}
use lanclip.Base.Dict.{Dict, lookup, insert, lookup-insert, lookup-erase}
use lanclip.Pairing.Types.{Peer, Store, state_eq_iff, trusted}
use lanclip.Pairing.Store.{Call}
use lanclip.Discovery
use lanclip.Discovery.Direct.{Net}
use lanclip.Daemon.Conns.{Registry, connected, begin_connect, end_connect, or_false}
use lanclip.Pairing.Valid.{IsValid}
use lanclip.Daemon.Connect.Stored.{IsEntry, IsBacked, candidates-IsBacked}
use lanclip.Daemon.Connect.{Dial, is_due, begin_dial, start_dials, tick}

abbrev pub is_connecting : Text → Registry → Bool
is_connecting id r = or_false (lookup id r.connecting)

abbrev goes_to : Text → Dial → Bool
goes_to id d = text_eq d.id id

-- Every dial is for a peer that the map trusts and with a greater ID, which was neither connected nor being
-- dialled, and no other one of the dials is for the same peer.
abbrev pub AllDue : Dict Peer → Text → Registry → List Dial → Type 0
AllDue m local r [] = Unit {0}
AllDue m local r (d ∷ ds) =
    (IsEntry m d.id d.peer
      × (d.peer.state ≡ trusted)
      × (text_lt local d.id ≡ true)
      × (connected d.id r ≡ false)
      × (is_connecting d.id r ≡ false)
      × (any (goes_to d.id) ds ≡ false))
    × AllDue m local r ds

-- What a step on one candidate changes of the registry.
record Moves (r r' : Registry) : Type 0 where
  conns : (id : Text) → connected id r' ≡ connected id r
  marks : (id : Text) → is_connecting id r' ≡ false → is_connecting id r ≡ false

begin_dial-Moves :
    (id : Text) (p : Peer) (es : List Text) (r : Registry) → Moves r (begin_dial id p es r).0
unfolding begin_dial begin_connect end_connect connected
begin_dial-Moves id p [] r = elim (Bool-cases (is_connecting id r)) [
  | inl x ↦ record { conns = λ j. ground (arith, x); marks = λ j h. ground (arith, x, h) }
  | inr x ↦ record {
    conns = λ j. ground (arith, x);
    marks = λ j h. ground (
      arith,
      x,
      h,
      lookup-insert j id true r.connecting,
      text_eq_iff id j,
      lookup-erase j id (insert id true r.connecting),
    );
  }
]
begin_dial-Moves id p (e ∷ es) r = elim (Bool-cases (is_connecting id r)) [
  | inl x ↦ record { conns = λ j. ground (arith, x); marks = λ j h. ground (arith, x, h) }
  | inr x ↦ record {
    conns = λ j. ground (arith, x);
    marks = λ j h. ground (arith, x, h, lookup-insert j id true r.connecting, text_eq_iff id j);
  }
]

-- A dial that starts marks its peer, which was not marked.
begin_dial-some :
    (id : Text) (p : Peer) (es : List Text) (r : Registry) (d : Dial)
    → (begin_dial id p es r).1 ≡ some d
    → (d.id ≡ id)
      × (d.peer ≡ p)
      × (is_connecting id r ≡ false)
      × (is_connecting id (begin_dial id p es r).0 ≡ true)
unfolding begin_dial begin_connect
begin_dial-some id p [] r d h = absurd (ground (arith, h))
begin_dial-some id p (e ∷ es) r d h = elim (Bool-cases (is_connecting id r)) [
  | inl x ↦ absurd (ground (arith, h, x))
  | inr x ↦ (
    ground (arith, h, x),
    ground (arith, h, x),
    x,
    ground (arith, x, lookup-insert id id true r.connecting, text_eq_refl id),
  )
]

AllDue-back :
    (m : Dict Peer) (local : Text) (r r' : Registry) (ds : List Dial)
    → Moves r r'
    → AllDue m local r' ds
    → AllDue m local r ds
AllDue-back peers local r r' [] m a = tt
AllDue-back peers local r r' (d ∷ ds) m ((b, t, l, c, k, f), a) =
    ((b, t, l, sym (m.conns d.id) ∙ c, m.marks d.id k, f), AllDue-back peers local r r' ds m a)

-- A peer that is marked is not dialled.
marked_not_dialled :
    (m : Dict Peer) (local id : Text) (r : Registry) (ds : List Dial)
    → is_connecting id r ≡ true
    → AllDue m local r ds
    → any (goes_to id) ds ≡ false
unfolding any
marked_not_dialled m local id r [] h a = refl
marked_not_dialled m local id r (d ∷ ds) h ((b, t, l, c, k, f), a) = ground (
  arith,
  h,
  k,
  text_eq_iff d.id id,
  ap (λ j. is_connecting j r),
  marked_not_dialled m local id r ds h a,
)

module _ (local id : Text) (p : Peer) (r : Registry) (h : is_due local id (some p) r ≡ true) where
  due_trusted : p.state ≡ trusted
  unfolding is_due
  due_trusted = (state_eq_iff p.state trusted).0 (ground (arith, h))

  due_greater : text_lt local id ≡ true
  unfolding is_due
  due_greater = ground (arith, h)

  due_free : connected id r ≡ false
  unfolding is_due
  due_free = ground (arith, h)

start_dials-AllDue :
    (m : Dict Peer) (local : Text) (cs : List (Text × Option Peer × List Text)) (r : Registry)
    → Each (IsBacked m) cs
    → AllDue m local r (start_dials local cs r).1
unfolding start_dials
start_dials-AllDue m local [] r e = tt
start_dials-AllDue m local ((id, none, es) ∷ cs) r e =
    start_dials-AllDue m local cs r (λ c k. e c (Memᴰ.tail k))
start_dials-AllDue m local ((id, some p, es) ∷ cs) r e =
    let later : Each (IsBacked m) cs = λ c k. e c (Memᴰ.tail k) in
    elim (Bool-cases (is_due local id (some p) r)) [
      | inr x ↦ rw (start_dials, x) (start_dials-AllDue m local cs r later)
      | inl x ↦
          let r' = (begin_dial id p es r).0 in
          let rest = start_dials-AllDue m local cs r' later in
          let before =
            AllDue-back m local r r' (start_dials local cs r').1 (begin_dial-Moves id p es r)
              rest in
          elim (Option-cases (begin_dial id p es r).1) [
            | inl y ↦ rw (start_dials, x, y) before
            | inr (d, y) ↦
                let (i, q, free, taken) = begin_dial-some id p es r d y in
                let others =
                  marked_not_dialled m local id r' (start_dials local cs r').1 taken rest in
                rw (start_dials, x, y)
                  (
                    (
                      subst (IsEntry m d.id) (sym q) (
                          subst (λ j. IsEntry m j p) (sym i)
                            (e (id, some p, es) (Memᴰ.head refl) (due_trusted local id p r x))),
                      ap (λ v. v.state) q ∙ due_trusted local id p r x,
                      ap (text_lt local) i ∙ due_greater local id p r x,
                      ap (λ j. connected j r) i ∙ due_free local id p r x,
                      ap (λ j. is_connecting j r) i ∙ free,
                      ap (λ j. any (goes_to j) (start_dials local cs r').1) i ∙ others,
                    ),
                    before,
                  )
          ]
    ]

-- Whatever was discovered and whatever hosts are configured, every dial that a tick of connectLoop starts
-- is for a peer that a valid store trusted when the tick began: the entry that it goes by is one of
-- `peers` then, is trusted, and stands under the ID that is dialled or has it as its own; and the ID is
-- greater than this device's own. The peer was neither connected nor being dialled when the tick began,
-- and no two dials of the tick are for the same peer.
pub tick-AllDue :
    (n : Net) (local : Text) (networks : List n.Network) (resolve : Peer → List Text)
    (found : List (Call × Discovery.Peer)) (c : Call) (s : Store) (r : Registry)
    → IsValid s
    → AllDue s.peers local r (tick n local networks resolve found c (s, r)).1
unfolding tick
tick-AllDue n local networks resolve found c s r v =
    start_dials-AllDue s.peers local _ r (candidates-IsBacked n networks found resolve c s v)
