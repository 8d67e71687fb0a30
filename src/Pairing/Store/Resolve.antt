-- ===== src/Pairing/Store/Resolve.antt =====
-- What `resolveLocked` finds.
use mathlib.Core.Path.{subst₂}
use lanclip.Base.{
  any, ◌≡◌, ◌⊎◌, inl, inr, Bool, true, Option, none, some, List, [], ◌∷◌, ◌++◌, Text, arith, retain,
  ok, Option-cases,
}
use lanclip.Base.Dict.{Dict, lookup, when, NodupKeys, Every}
use lanclip.Base.Entries.{Selected, retain-Selected, Every-imp}
use lanclip.Base.Unicode.{Unicode, trim_space}
use lanclip.Pairing.Types.{State, state_eq_iff, Peer, Store}
use lanclip.Pairing.Store.{allowed, matches_query, matches, choose, resolve_locked}

-- The peer is the store's entry under the id, in the map given, and its state is among those asked for.
abbrev pub FoundIn : Dict Peer → List State → Text → Peer → Type 0
FoundIn m states id p = (lookup id m ≡ some p) × (allowed states p ≡ true)

abbrev pub Found : Store → List State → Text → Peer → Type 0
Found s states id p = FoundIn s.pending_peers states id p ⊎ FoundIn s.peers states id p

when-some :
    (f : Peer → Bool) (o : Option Peer) (p : Peer) → when f o ≡ some p → (o ≡ some p) × (f p ≡ true)
when-some f none p h = ground arith
when-some f (some q) p h = ground arith

module _ (u : Unicode) (s : Store) (states : List State) where
  Every-append :
      (P : Text → Peer → Type 0) (m n : Dict Peer) → Every P m → Every P n → Every P (m ++ n)
  Every-append P [] n em en = en
  Every-append P ((k, v) ∷ m) n em en = (em.0, Every-append P m n em.1 en)

  matches-Found :
      NodupKeys s.peers
      → NodupKeys s.pending_peers
      → (q : Text) → Every (Found s states) (matches u s q states)
  unfolding matches matches_query
  matches-Found np nq q =
      let test : Text × Peer → Bool = matches_query u states q in
      Every-append (Found s states) (retain test s.peers) (retain test s.pending_peers)
        (Every-imp (Selected test s.peers) (Found s states) (retain test s.peers)
          (λ k v e. inr (ground arith)) (retain-Selected test s.peers np))
        (Every-imp (Selected test s.pending_peers) (Found s states) (retain test s.pending_peers)
          (λ k v e. inl (ground arith)) (retain-Selected test s.pending_peers nq))

  choose-Every :
      (P : Text → Peer → Type 0) (ms : List (Text × Peer)) (id : Text) (p : Peer)
      → Every P ms
      → choose states ms ≡ ok (id, p)
      → P id p
  unfolding choose
  choose-Every P [] id p e h = absurd (cc h)
  choose-Every P ((k, v) ∷ []) id p e h =
      let same : k ≡ id = ground arith in
      let found : v ≡ p = ground arith in subst₂ P same found e.0
  choose-Every P (m ∷ n ∷ more) id p e h = absurd (cc h)

  -- A peer that is resolved is, under the ID returned, an entry of the store in one of the states asked
  -- for (in any state if none is), provided that neither map lists a key twice.
  pub resolve_locked-Found :
      NodupKeys s.peers
      → NodupKeys s.pending_peers
      → (query : Text) (id : Text) (p : Peer) → resolve_locked u s query states ≡ ok (id, p)
      → Found s states id p
  unfolding resolve_locked
  resolve_locked-Found np nq query id p h =
      let q : Text = trim_space u query in
      elim (Option-cases (when (allowed states) (lookup q s.pending_peers))) [
        | inr (p', e) ↦ ground (arith, when-some (allowed states) (lookup q s.pending_peers) p' e)
        | inl e ↦ elim (Option-cases (when (allowed states) (lookup q s.peers))) [
          | inr (p', e') ↦ ground (arith, e, when-some (allowed states) (lookup q s.peers) p' e')
          | inl e' ↦
              choose-Every (Found s states) (matches u s q states) id p (matches-Found np nq q)
                (ground arith)
        ]
      ]

-- Asked for one state, the peer has it.
pub allowed_one : (st : State) (p : Peer) → allowed (st ∷ []) p ≡ true → p.state ≡ st
unfolding allowed any
allowed_one st p h = ground (arith, state_eq_iff p.state st)
