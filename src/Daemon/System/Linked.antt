-- ===== src/Daemon/System/Linked.antt =====
-- The registry and the read loops that are running.
use mathlib.Core.Path.{subst}
use mathlib.Core.List.{Memᴰ}
use lanclip.Base.{
  ℕ, ◌≡◌, ◌≢◌, sym, ap, ◌∙◌, Bool, true, false, some, List, ◌∷◌, Text, text_eq, text_eq_iff,
  get_elem?, arith, Bool-cases, inl, inr,
}
use lanclip.Base.Dict.{
  lookup, insert, lookup-insert, lookup-erase, NodupKeys, insert-NodupKeys, erase-NodupKeys,
}
use lanclip.Base.Members.{remove_at, remove_at-cases}
use lanclip.Daemon.Conns.{PeerConn, Registry, register, unregister, is_conn}
use lanclip.Daemon.Conns.Liveness.{IsLive, apply, apply-IsLive, registers, unregisters}
use lanclip.Daemon.Run.{close_conns}
use lanclip.Daemon.System.Calm.{Calm}

-- The statistics are right unless the service has stopped, and each connection of the registry stands once,
-- under its own ID, and its read loop is one of those given.
pub record Linked (stopped : Bool) (linked : List PeerConn) (r : Registry) : Type 0 where
  pub live : stopped ≡ false → IsLive r
  pub nodup : NodupKeys r.conns
  pub registered :
      (id : Text) (pc : PeerConn) → lookup id r.conns ≡ some pc → (pc.id ≡ id) × Memᴰ pc linked

pub calm-Linked :
    (b : Bool) (linked : List PeerConn) (r r' : Registry)
    → Calm r r'
    → Linked b linked r
    → Linked b linked r'
calm-Linked b linked r r' c l = record {
  live = λ s. c.live (l.live s);
  nodup = subst NodupKeys (sym c.same) l.nodup;
  registered = λ id pc e. l.registered id pc (ap (lookup id) (sym c.same) ∙ e);
}

registered_conns :
    (pc : PeerConn) (r : Registry)
    → (register pc r).1 ≡ true
    → (register pc r).0.conns ≡ insert pc.id pc r.conns
unfolding register
registered_conns pc r fresh = ground arith

pub register-Linked :
    (b : Bool) (linked : List PeerConn) (pc : PeerConn) (r : Registry)
    → (register pc r).1 ≡ true
    → Linked b linked r
    → Linked b (pc ∷ linked) (register pc r).0
unfolding apply
register-Linked b linked pc r fresh l =
    let same = registered_conns pc r fresh in
    record {
      live = λ s. apply-IsLive r (registers pc) (l.live s);
      nodup = subst NodupKeys (sym same) (insert-NodupKeys pc.id pc r.conns l.nodup);
      registered = λ id c e.
          let found : lookup id (insert pc.id pc r.conns) ≡ some c =
            ap (lookup id) (sym same) ∙ e in
          elim (Bool-cases (text_eq pc.id id)) [
            | inl hit ↦
                let it : c ≡ pc = ground (arith, found, hit, lookup-insert id pc.id pc r.conns) in
                (ap (λ c. c.id) it ∙ (text_eq_iff pc.id id).0 hit, Memᴰ.head it)
            | inr miss ↦
                let (own, m) =
                  l.registered id c
                    (ground (arith, found, miss, lookup-insert id pc.id pc r.conns)) in
                (own, Memᴰ.tail m)
          ];
    }

pub refused-Linked :
    (b : Bool) (linked : List PeerConn) (pc : PeerConn) (r : Registry)
    → (register pc r).1 ≡ false
    → Linked b linked r
    → Linked b linked (register pc r).0
unfolding register
refused-Linked b linked pc r old l =
    let same : r ≡ (register pc r).0 = ground arith in subst (Linked b linked) same l

-- A connection that is found after `unregister` was there, and is not the one that ended.
unregister_found :
    (pc c : PeerConn) (id : Text) (r : Registry)
    → lookup id (unregister pc r).conns ≡ some c
    → (lookup id r.conns ≡ some c) × ((pc.id ≡ id) → c ≢ pc)
unfolding unregister
unregister_found pc c id r e = (
  ground (arith, lookup-erase id pc.id r.conns),
  λ same it.
      ground (
        arith,
        it,
        ap (λ c. c.handle) it,
        same,
        text_eq_iff pc.id id,
        lookup-erase id pc.id r.conns,
      ),
)

unregister-NodupKeys :
    (pc : PeerConn) (r : Registry) → NodupKeys r.conns → NodupKeys (unregister pc r).conns
unfolding unregister
unregister-NodupKeys pc r u = elim (Bool-cases (is_conn (lookup pc.id r.conns) pc)) [
  | inl x ↦ rw (x, unregister) (erase-NodupKeys pc.id r.conns u)
  | inr x ↦ rw (x, unregister) u
]

pub unregister-Linked :
    (b : Bool) (linked : List PeerConn) (i : ℕ) (pc : PeerConn) (r : Registry)
    → get_elem? linked i ≡ some pc
    → Linked b linked r
    → Linked b (remove_at i linked) (unregister pc r)
unfolding apply
unregister-Linked b linked i pc r e l = record {
  live = λ s. apply-IsLive r (unregisters pc) (l.live s);
  nodup = unregister-NodupKeys pc r l.nodup;
  registered = λ id c found.
      let (was, other) = unregister_found pc c id r found in
      let (own, m) = l.registered id c was in
      (
        own,
        elim (remove_at-cases linked i c pc e m) [
          | inl it ↦ absurd (other (ap (λ c. c.id) (sym it) ∙ own) it)
          | inr stays ↦ stays
        ],
      );
}

-- Nothing is registered after `close`.
pub close_conns-Linked :
    (linked : List PeerConn) (r : Registry) → Linked true linked (close_conns r)
unfolding close_conns lookup
close_conns-Linked linked r = record {
  live = λ s. absurd (cc s);
  nodup = tt;
  registered = λ id pc e. absurd (cc e);
}
