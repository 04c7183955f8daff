-- ===== src/Dns/Subnet/Public.antt =====
-- The subnets that leave the host hold public addresses alone.
use dns_relay.Prelude.{
  ℕ, ◌<◌, ◌≡◌, refl, ◌∙◌, Bool, true, false, not, ◌&&◌, Option, none, some, [], ◌∷◌, arith, ◌==◌,
  inl, inr, Bool-cases, Option-cases, subst,
}
use dns_relay.Prelude.Slices.{Bytes}
use dns_relay.Dns.Text.Affix.{eq_bytes}
use dns_relay.Dns.Ipv4.{Ipv4Addr, parse_ipv4}
use dns_relay.Dns.Ipv4.Octets.{IsAddress, parse_ipv4-IsAddress}
use dns_relay.Dns.Edns.{Ipv4Subnet}
use dns_relay.Dns.Subnet.{
  IpAddr, v4, v6, is_public_ipv4, subnet_of, parse_public_ipv4_subnet, public_ipv4_subnet,
  effective_ipv4_subnet, split_once, public_subnet, subnet_from,
}
use dns_relay.Dns.Subnet.Blocks.{is_special, is_public_ipv4-blocks}

-- Every address of the subnet lies outside the special blocks.
abbrev pub IsPublicSubnet : Ipv4Subnet → Type 0
IsPublicSubnet (a, b, c) =
    (d : ℕ) → d < 256 → is_special (record { a = a; b = b; c = c; d = d }) ≡ false

-- The fourth byte does not matter to `is_public_ipv4`.
is_public_ipv4-last :
    (ip : Ipv4Addr) (d : ℕ) → is_public_ipv4 ip ≡ true → is_public_ipv4 (record ip { d = d }) ≡ true
unfolding is_public_ipv4
is_public_ipv4-last ip d h = ground arith

opposite : (b c : Bool) → b ≡ not c → b ≡ true → c ≡ false
opposite b true same h = (let refuted = same in cc)
opposite b false same h = refl

-- Every client address is made of bytes.
abbrev pub IsClient : IpAddr → Type 0
IsClient (v6 _) = Unit
IsClient (v4 ip) = IsAddress ip

subnet_of-IsPublicSubnet :
    (ip : Ipv4Addr) → IsAddress ip → is_public_ipv4 ip ≡ true → IsPublicSubnet (subnet_of ip)
subnet_of-IsPublicSubnet ip (a, b, c, _) h d k =
    opposite _ _ (is_public_ipv4-blocks (record ip { d = d }) a b c k) (is_public_ipv4-last ip d h)

some_injective {ℓ} : {A : Type ℓ} {x y : A} → some x ≡ some y → x ≡ y
some_injective e = cc

public_ipv4_subnet-IsPublicSubnet :
    (client : IpAddr) (s : Ipv4Subnet)
    → IsClient client
    → public_ipv4_subnet client ≡ some s
    → IsPublicSubnet s
unfolding public_ipv4_subnet
public_ipv4_subnet-IsPublicSubnet (v6 _) s k h = (let refuted = h in cc)
public_ipv4_subnet-IsPublicSubnet (v4 ip) s k h = elim (Bool-cases (is_public_ipv4 ip)) [
  | inl e ↦ subst IsPublicSubnet (some_injective (rw e at h)) (subnet_of-IsPublicSubnet ip k e)
  | inr e ↦ (let refuted = rw e at h in cc)
]

-- The subnet that a query carries holds public addresses alone: one from the client's address does,
-- whatever the client, and the configured and the discovered ones where they do.
pub effective_ipv4_subnet-IsPublicSubnet :
    (override_subnet : Option Ipv4Subnet) (client : IpAddr) (discovered : Option Ipv4Subnet)
    (s : Ipv4Subnet)
    → IsClient client
    → ((t : Ipv4Subnet) → override_subnet ≡ some t → IsPublicSubnet t)
    → ((t : Ipv4Subnet) → discovered ≡ some t → IsPublicSubnet t)
    → effective_ipv4_subnet override_subnet client discovered ≡ some s
    → IsPublicSubnet s
unfolding effective_ipv4_subnet
effective_ipv4_subnet-IsPublicSubnet (some t) client discovered s c o p h = o s h
effective_ipv4_subnet-IsPublicSubnet none client discovered s c o p h =
    elim (Option-cases (public_ipv4_subnet client)) [
      | inl e ↦ p s (rw e at h)
      | inr (t, e) ↦ public_ipv4_subnet-IsPublicSubnet client s c (e ∙ (rw e at h))
    ]

public_subnet-IsPublicSubnet :
    (found : Option Ipv4Addr) (s : Ipv4Subnet)
    → ((ip : Ipv4Addr) → found ≡ some ip → IsAddress ip)
    → public_subnet found ≡ some s
    → IsPublicSubnet s
public_subnet-IsPublicSubnet none s k h = (let refuted = h in cc)
public_subnet-IsPublicSubnet (some ip) s k h = elim (Bool-cases (ip.d == 0 && is_public_ipv4 ip)) [
  | inl e ↦
      subst IsPublicSubnet (some_injective (rw e at h))
        (subnet_of-IsPublicSubnet ip (k ip refl) (ground arith))
  | inr e ↦ (let refuted = rw e at h in cc)
]

-- A subnet that the parser of the settings accepts holds public addresses alone.
pub parse_public_ipv4_subnet-IsPublicSubnet :
    (value : Bytes) (s : Ipv4Subnet) → parse_public_ipv4_subnet value ≡ some s → IsPublicSubnet s
unfolding parse_public_ipv4_subnet
parse_public_ipv4_subnet-IsPublicSubnet value s h = on (split_once b'/' value) h
  where
    on : (parts : Option (Bytes × Bytes)) → subnet_from parts ≡ some s → IsPublicSubnet s
    on none h = (let refuted = h in cc)
    on (some (address, prefix)) h = elim (Bool-cases (not (eq_bytes prefix (b'2' ∷ b'4' ∷ [])))) [
      | inl e ↦ (let refuted = rw e at h in cc)
      | inr e ↦
          public_subnet-IsPublicSubnet (parse_ipv4 address) s (parse_ipv4-IsAddress address)
            (rw e at h)
    ]
