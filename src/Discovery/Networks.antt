-- ===== src/Discovery/Networks.antt =====
-- internal/discovery/discovery.go: `activeLANNetworks` and `ObserveForTest`.
pub mod Endpoint
use mathlib.Core.List.{Memᴰ}
use lanclip.Base.{
  ℕ, ◌≡◌, refl, true, ◌==◌, Option, none, some, List, [], ◌∷◌, ◌++◌, Text, text_eq, if◌then◌else◌,
  Bool-cases, inl, inr,
}
use lanclip.Base.Dict.{Dict}
use lanclip.Base.Members.{Each, nil-Each, append-Each}
use lanclip.Base.Unicode.{Unicode}
use lanclip.Discovery.{Peer, put_peer_locked}
use lanclip.Discovery.Direct.{Net, Interface, eligible_interface}

-- An interface with what Addrs returns: nothing for an error, and no network for an address of another
-- type.
pub record Attached (n : Net) : Type 0 where
  pub interface : Interface
  pub addrs : Option (List (Option n.Network))

-- The inner loop.
abbrev pub networks_of {ℓ} : {A : Type ℓ} → List (Option A) → List A
networks_of [] = []
networks_of (none ∷ more) = networks_of more
networks_of (some w ∷ more) = w ∷ networks_of more

abbrev pub addrs_of {ℓ} : {A : Type ℓ} → Option (List (Option A)) → List A
addrs_of none = []
addrs_of (some more) = networks_of more

module _ (u : Unicode) (n : Net) where
  -- The outer loop.
  unfoldable pub networks_at : List (Attached n) → List n.Network
  networks_at [] = []
  networks_at (i ∷ is) =
      let rest = networks_at is in
      if eligible_interface u i.interface then addrs_of i.addrs ++ rest else rest

  -- Given net.Interfaces.
  unfoldable pub active_lan_networks : Option (List (Attached n)) → List n.Network
  unfolding networks_at
  active_lan_networks none = []
  active_lan_networks (some is) = networks_at is

  -- The network is one of an eligible interface.
  pub record IsLan (is : List (Attached n)) (w : n.Network) : Type 0 where
    pub attached : Attached n
    pub listed : Memᴰ attached is
    pub eligible : eligible_interface u attached.interface ≡ true
    pub has : Memᴰ w (addrs_of attached.addrs)

  later-IsLan :
      (i : Attached n) (is : List (Attached n)) (w : n.Network) → IsLan is w → IsLan (i ∷ is) w
  later-IsLan i is w l = record {
    attached = l.attached;
    listed = Memᴰ.tail l.listed;
    eligible = l.eligible;
    has = l.has;
  }

  networks_at-IsLan : (is : List (Attached n)) → Each (IsLan is) (networks_at is)
  unfolding networks_at
  networks_at-IsLan [] = nil-Each (IsLan [])
  networks_at-IsLan (i ∷ is) =
      let rest : Each (IsLan (i ∷ is)) (networks_at is) =
        λ w m. later-IsLan i is w (networks_at-IsLan is w m) in
      elim (Bool-cases (eligible_interface u i.interface)) [
        | inr x ↦ rw (x, networks_at) rest
        | inl x ↦
            rw (x, networks_at)
              (append-Each (IsLan (i ∷ is)) (addrs_of i.addrs) (networks_at is)
                (λ w m. record { attached = i; listed = Memᴰ.head refl; eligible = x; has = m })
                rest)
      ]

  -- Every network that counts as directly connected is the network of an address of an interface that is
  -- listed and eligible.
  pub active_lan_networks-IsLan :
      (is : List (Attached n)) → Each (IsLan is) (active_lan_networks (some is))
  unfolding active_lan_networks
  active_lan_networks-IsLan is = networks_at-IsLan is

-- ObserveForTest
unfoldable pub observe_for_test : Text → ℕ → Peer → Dict Peer → Dict Peer
observe_for_test self now p m =
    if text_eq p.id self
    then m
    else put_peer_locked (if p.last_seen == 0 then record p { last_seen = now } else p) m
