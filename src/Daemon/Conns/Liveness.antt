-- ===== src/Daemon/Conns/Liveness.antt =====
-- A peer is shown as connected exactly while it has a connection.
use lanclip.Base.{
  ℕ, ◌+◌, ◌≡◌, ◌≢◌, refl, true, false, some, List, [], ◌∷◌, Text, text_eq_iff, text_eq_refl, ◌==◌,
  is_some, length, arith, Bool-cases, Option-cases, inl, inr,
}
use lanclip.Base.Dict.{lookup, lookup-insert, lookup-erase}
use lanclip.Daemon.Conns.{
  Stats, PeerConn, Registry, stats_of, with_stats, register, unregister, begin_connect, end_connect,
  record_error, record_sent, record_received, safe_error,
}

-- The calls that change the registry.
pub data Event : Type 0 where
  registers unregisters : PeerConn → Event
  begins ends : Text → Event
  errs : Text → Text → Event
  sends receives : Text → ℕ → Text → Event

unfoldable pub apply : Registry → Event → Registry
apply r (registers pc) = (register pc r).0
apply r (unregisters pc) = unregister pc r
apply r (begins id) = (begin_connect id r).0
apply r (ends id) = end_connect id r
apply r (errs id e) = record_error id e r
apply r (sends id now text) = record_sent id now text r
apply r (receives id now text) = record_received id now text r

unfoldable pub apply_all : Registry → List Event → Registry
apply_all r [] = r
apply_all r (e ∷ es) = apply_all (apply r e) es

abbrev pub empty : Registry
empty = record { conns = []; stats = []; connecting = []; closed = []; done = [] }

-- The flag of the statistics says whether the peer has a connection.
abbrev pub IsLive : Registry → Type 0
IsLive r = (id : Text) → (stats_of id r).connected ≡ is_some (lookup id r.conns)

register-IsLive : (pc : PeerConn) (r : Registry) → IsLive r → IsLive (register pc r).0
unfolding register
register-IsLive pc r v id = ground (
  arith,
  v id,
  lookup-insert id pc.id pc r.conns,
  lookup-insert id pc.id
      (record (stats_of pc.id r) {
        connected = true;
        address = pc.address;
        reconnects = (stats_of pc.id r).reconnects + 1;
        last_error = [];
      })
      r.stats,
)

unregister-IsLive : (pc : PeerConn) (r : Registry) → IsLive r → IsLive (unregister pc r)
unfolding unregister
unregister-IsLive pc r v id = ground (
  arith,
  v id,
  lookup-erase id pc.id r.conns,
  lookup-insert id pc.id (record (stats_of pc.id r) { connected = false }) r.stats,
)

-- A change of the statistics that leaves the flag alone.
with_stats-IsLive :
    (i : Text) (f : Stats → Stats) (r : Registry)
    → ((s : Stats) → (f s).connected ≡ s.connected)
    → IsLive r
    → IsLive (with_stats i f r)
with_stats-IsLive i f r keeps v id = ground (
  arith,
  v id,
  v i,
  keeps (stats_of i r),
  text_eq_iff i id,
  lookup-insert id i (f (stats_of i r)) r.stats,
)

pub apply-IsLive : (r : Registry) (e : Event) → IsLive r → IsLive (apply r e)
unfolding apply begin_connect end_connect record_error record_sent record_received
apply-IsLive r (registers pc) v = register-IsLive pc r v
apply-IsLive r (unregisters pc) v = unregister-IsLive pc r v
apply-IsLive r (begins id) v = λ i. ground (arith, v i)
apply-IsLive r (ends id) v = v
apply-IsLive r (errs id e) v =
    with_stats-IsLive id (λ s. record s { last_error = safe_error e }) r (λ s. refl) v
apply-IsLive r (sends id now text) v =
    with_stats-IsLive id (λ s. record s { last_sent = now; sent_bytes = length text }) r (λ s. refl)
      v
apply-IsLive r (receives id now text) v =
    with_stats-IsLive id (λ s. record s { last_received = now; received_bytes = length text }) r
      (λ s. refl) v

apply_all-IsLive_from : (r : Registry) (es : List Event) → IsLive r → IsLive (apply_all r es)
unfolding apply_all
apply_all-IsLive_from r [] v = v
apply_all-IsLive_from r (e ∷ es) v = apply_all-IsLive_from (apply r e) es (apply-IsLive r e v)

-- After any history of the daemon's calls, in any order, the statistics of a peer say that it is
-- connected exactly if a connection is registered for it.
pub apply_all-IsLive : (es : List Event) → IsLive (apply_all empty es)
unfolding lookup
apply_all-IsLive es = apply_all-IsLive_from empty es (λ id. refl)

-- The connection that stands under the ID has the handle.
abbrev pub Holds : Text → ℕ → Registry → Type 0
Holds id handle r = (c : PeerConn) × (lookup id r.conns ≡ some c) × (c.handle ≡ handle)

register-Holds : (pc : PeerConn) (r : Registry) → Holds pc.id pc.handle (register pc r).0
unfolding register
register-Holds pc r = elim (Option-cases (lookup pc.id r.conns)) [
  | inl e ↦ (pc, ground (arith, e, lookup-insert pc.id pc.id pc r.conns, text_eq_refl pc.id), refl)
  | inr (c, e) ↦ elim (Bool-cases (c.handle == pc.handle)) [
    | inl same ↦ (c, ground (arith, e, same), ground (arith, same))
    | inr other ↦ (
      pc,
      ground (arith, e, other, lookup-insert pc.id pc.id pc r.conns, text_eq_refl pc.id),
      refl,
    )
  ]
]

unregister_other :
    (old : PeerConn) (id : Text) (handle : ℕ) (r : Registry)
    → old.handle ≢ handle
    → Holds id handle r
    → Holds id handle (unregister old r)
unfolding unregister
unregister_other old id handle r n (c, e, h) =
    (c, ground (arith, e, h, n, lookup-erase id old.id r.conns, text_eq_iff old.id id), h)

-- A fresh connection that replaced another one of the same peer stays when the read loop of the old
-- one ends and unregisters it, whatever calls brought the registry about.
pub newest_stays :
    (old new : PeerConn) (r : Registry)
    → old.handle ≢ new.handle
    → Holds new.id new.handle (unregister old (register new (register old r).0).0)
newest_stays old new r n =
    unregister_other old new.id new.handle (register new (register old r).0).0 n
      (register-Holds new (register old r).0)

-- The socket of a connection that another one replaces is closed.
pub replaced_is_closed :
    (old new : PeerConn) (r : Registry)
    → lookup new.id r.conns ≡ some old
    → old.handle ≢ new.handle
    → ((register new r).1 ≡ true) × ((register new r).0.closed ≡ old.handle ∷ r.closed)
unfolding register
replaced_is_closed old new r e n = (ground (arith, e, n), ground (arith, e, n))
