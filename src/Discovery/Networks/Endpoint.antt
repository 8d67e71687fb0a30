-- ===== src/Discovery/Networks/Endpoint.antt =====
-- internal/discovery/discovery.go: `directEndpoint` on the networks of `activeLANNetworks`.
use mathlib.Core.Path.{subst}
use mathlib.Core.List.{Memᴰ}
use lanclip.Base.{
  ◌≡◌, refl, sym, ap, ◌∙◌, ◌⊎◌, inl, inr, true, false, none, some, List, [], ◌∷◌, ◌++◌, Text, any,
  arith, Bool-cases, Option-cases, Bool,
}
use lanclip.Base.Members.{Each, nil-Each, cons-Each}
use lanclip.Base.Unicode.{Unicode}
use lanclip.Discovery.Direct.{
  Net, is_direct_ip, address_of, is_direct, direct_endpoint, eligible_interface,
}
use lanclip.Discovery.Networks.{
  Attached, addrs_of, networks_at, active_lan_networks, IsLan, active_lan_networks-IsLan,
}

any_member {ℓ} :
    {A : Type ℓ} (p : A → Bool) (xs : List A) → any p xs ≡ true → (x : A) × Memᴰ x xs × (p x ≡ true)
unfolding any
any_member p [] h = absurd (cc h)
any_member p (x ∷ xs) h = elim (Bool-cases (p x)) [
  | inl e ↦ (x, Memᴰ.head refl, e)
  | inr e ↦ let (y, m, f) = any_member p xs (ground (arith, h, e)) in (y, Memᴰ.tail m, f)
]

member_any {ℓ} :
    {A : Type ℓ} (p : A → Bool) (x : A) (xs : List A) → Memᴰ x xs → p x ≡ true → any p xs ≡ true
unfolding any
member_any p x [] m h = elim m [ ]
member_any p x (y ∷ ys) (Memᴰ.head e) h =
    let same : p y ≡ true = ap p (sym e) ∙ h in ground (arith, same)
member_any p x (y ∷ ys) (Memᴰ.tail m) h = ground (arith, member_any p x ys m h)

append_left {ℓ} : {A : Type ℓ} (x : A) (xs ys : List A) → Memᴰ x xs → Memᴰ x (xs ++ ys)
append_left x [] ys m = elim m [ ]
append_left x (y ∷ xs) ys (Memᴰ.head e) = Memᴰ.head e
append_left x (y ∷ xs) ys (Memᴰ.tail m) = Memᴰ.tail (append_left x xs ys m)

append_right {ℓ} : {A : Type ℓ} (x : A) (xs ys : List A) → Memᴰ x ys → Memᴰ x (xs ++ ys)
append_right x [] ys m = m
append_right x (y ∷ xs) ys m = Memᴰ.tail (append_right x xs ys m)

module _ (u : Unicode) (n : Net) where
  -- The host of the endpoint parses to an address that is none of loopback, unspecified and multicast, and
  -- that a network of an eligible interface among those given contains.
  pub record IsOnLan (is : List (Attached n)) (endpoint : Text) : Type 0 where
    pub ip : n.Ip
    pub parsed : address_of n endpoint ≡ some ip
    pub not_loopback : n.is_loopback ip ≡ false
    pub not_unspecified : n.is_unspecified ip ≡ false
    pub not_multicast : n.is_multicast ip ≡ false
    pub network : n.Network
    pub lan : IsLan u n is network
    pub on_link : n.contains network ip ≡ true

  networks_at-complete :
      (is : List (Attached n)) (i : Attached n) (w : n.Network)
      → Memᴰ i is
      → eligible_interface u i.interface ≡ true
      → Memᴰ w (addrs_of i.addrs)
      → Memᴰ w (networks_at u n is)
  unfolding networks_at
  networks_at-complete [] i w t h m = elim t [ ]
  networks_at-complete (j ∷ is) i w (Memᴰ.head e) h m =
      let same : eligible_interface u j.interface ≡ true =
        ap (λ k. eligible_interface u k.interface) (sym e) ∙ h in
      rw (same, networks_at)
        (append_left w (addrs_of j.addrs) (networks_at u n is)
          (subst (λ k. Memᴰ w (addrs_of k.addrs)) e m))
  networks_at-complete (j ∷ is) i w (Memᴰ.tail t) h m =
      let rest = networks_at-complete is i w t h m in
      elim (Bool-cases (eligible_interface u j.interface)) [
        | inl x ↦ rw (x, networks_at) (append_right w (addrs_of j.addrs) (networks_at u n is) rest)
        | inr x ↦ rw (x, networks_at) rest
      ]

  module _ (is : List (Attached n)) where
    abbrev lans : List n.Network
    lans = active_lan_networks u n (some is)

    is_direct-IsOnLan : (e : Text) → is_direct n (address_of n e) lans ≡ true → IsOnLan is e
    unfolding is_direct_ip
    is_direct-IsOnLan e h = elim (Option-cases (address_of n e)) [
      | inl f ↦ absurd (ground (arith, f, h))
      | inr (ip, f) ↦
          let found : any (λ w. n.contains w ip) lans ≡ true = ground (arith, f, h) in
          let (w, m, c) = any_member (λ w. n.contains w ip) lans found in
          record {
            ip = ip;
            parsed = f;
            not_loopback = ground (arith, f, h);
            not_unspecified = ground (arith, f, h);
            not_multicast = ground (arith, f, h);
            network = w;
            lan = active_lan_networks-IsLan u n is w m;
            on_link = c;
          }
    ]

    IsOnLan-is_direct : (e : Text) → IsOnLan is e → is_direct n (address_of n e) lans ≡ true
    unfolding is_direct_ip active_lan_networks
    IsOnLan-is_direct e v =
        let listed =
          networks_at-complete is v.lan.attached v.network v.lan.listed v.lan.eligible v.lan.has in
        let found = member_any (λ w. n.contains w v.ip) v.network lans listed v.on_link in
        rw v.parsed (ground (arith, v.not_loopback, v.not_unspecified, v.not_multicast, found))

    -- directEndpoint, on the networks that activeLANNetworks gives for the interfaces of the system, chooses
    -- one of the endpoints whenever one of them is on a local network, and it chooses such a one: its
    -- host parses to an address that is neither loopback nor unspecified nor multicast, and that lies in
    -- the network of an address of an eligible interface. Where it chooses none, no endpoint is such.
    pub direct_endpoint-IsOnLan :
        (es : List Text)
        → ((e : Text) × (direct_endpoint n es (active_lan_networks u n (some is)) ≡ some e)
            × Memᴰ e es
            × IsOnLan is e)
          ⊎ ((direct_endpoint n es (active_lan_networks u n (some is)) ≡ none)
              × Each (λ e. ¬ IsOnLan is e) es)
    unfolding direct_endpoint
    direct_endpoint-IsOnLan [] = inr (refl, nil-Each (λ e. ¬ IsOnLan is e))
    direct_endpoint-IsOnLan (f ∷ es) = elim (Bool-cases (is_direct n (address_of n f) lans)) [
      | inl g ↦ inl (f, rw (g, direct_endpoint) refl, Memᴰ.head refl, is_direct-IsOnLan f g)
      | inr g ↦ elim (direct_endpoint-IsOnLan es) [
        | inl (e, x, m, v) ↦ inl (e, rw (g, direct_endpoint) x, Memᴰ.tail m, v)
        | inr (x, none_on) ↦ inr (
          rw (g, direct_endpoint) x,
          cons-Each (λ e. ¬ IsOnLan is e) f es (λ v. cc (g, IsOnLan-is_direct f v)) none_on,
        )
      ]
    ]
