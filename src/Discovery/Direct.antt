-- ===== src/Discovery/Direct.antt =====
-- internal/discovery/discovery.go: `eligibleInterface`, `isDirectIP` and `directEndpoint`. The type of
-- addresses, its tests and its parsers are those of the `net` package.
use lanclip.Base.{
  Bool, false, not, ◌||◌, Option, none, some, List, [], ◌∷◌, Text, codes, has_prefix, if◌then◌else◌,
  any,
}
use lanclip.Base.Unicode.{Unicode}

pub record Interface : Type 0 where
  pub name : Text
  pub up : Bool
  pub multicast : Bool
  pub loopback : Bool
  pub point_to_point : Bool

abbrev pub virtual_prefixes : List Text
virtual_prefixes =
    codes "docker"
    ∷ codes "br-"
    ∷ codes "bridge"
    ∷ codes "veth"
    ∷ codes "virbr"
    ∷ codes "vmnet"
    ∷ codes "vbox"
    ∷ codes "podman"
    ∷ codes "cni"
    ∷ codes "lxc"
    ∷ codes "incus"
    ∷ codes "tailscale"
    ∷ codes "tun"
    ∷ codes "utun"
    ∷ codes "tap"
    ∷ codes "wg"
    ∷ codes "zt"
    ∷ codes "nebula"
    ∷ codes "awdl"
    ∷ codes "llw"
    ∷ []

unfoldable pub eligible_interface : Unicode → Interface → Bool
unfolding any
eligible_interface u i =
    if not i.up || not i.multicast || (i.loopback || i.point_to_point)
    then false
    else not (any (has_prefix (u.to_lower i.name)) virtual_prefixes)

-- The `net` package: the host of "host:port", the parser of addresses, the tests of an address, and
-- whether a network contains it.
pub record Net : Type 1 where
  pub Ip : Type 0
  pub Network : Type 0
  pub split_host : Text → Option Text
  pub parse_ip : Text → Option Ip
  pub is_loopback : Ip → Bool
  pub is_unspecified : Ip → Bool
  pub is_multicast : Ip → Bool
  pub contains : Network → Ip → Bool

module _ (n : Net) where
  unfoldable pub is_direct_ip : n.Ip → List n.Network → Bool
  unfolding any
  is_direct_ip ip networks =
      if n.is_loopback ip || n.is_unspecified ip || n.is_multicast ip
      then false
      else any (λ network. n.contains network ip) networks

  -- The address of an endpoint, if it has one.
  unfoldable pub address_of : Text → Option n.Ip
  address_of endpoint = elim (n.split_host endpoint) [ none ↦ none | some host ↦ n.parse_ip host ]

  abbrev pub is_direct : Option n.Ip → List n.Network → Bool
  is_direct none networks = false
  is_direct (some ip) networks = is_direct_ip ip networks

  unfoldable pub direct_endpoint : List Text → List n.Network → Option Text
  unfolding address_of
  direct_endpoint [] networks = none
  direct_endpoint (e ∷ es) networks =
      let rest = direct_endpoint es networks in
      if is_direct (address_of e) networks then some e else rest
