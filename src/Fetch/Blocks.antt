-- ===== src/Fetch/Blocks.antt =====
-- The guard against the registry of address blocks, as networks with a prefix length.
use smooth_agent.Base.{
  ℕ, ◌+◌, ◌*◌, ◌<◌, ◌≡◌, Bool, true, false, List, [], ◌∷◌, arith, any, nat_eqb, leb, ◌||◌, ◌&&◌,
  string_eq,
}
use smooth_agent.Fetch.Guard.{Ipv4, is_blocked_ipv4, octets_eq}

-- The address as a number of 32 bits.
abbrev pub address : Ipv4 → ℕ
address ip = ((ip.o0 * 256 + ip.o1) * 256 + ip.o2) * 256 + ip.o3

abbrev pub IsIpv4 : Ipv4 → Type 0
IsIpv4 ip = (ip.o0 < 256) × (ip.o1 < 256) × (ip.o2 < 256) × (ip.o3 < 256)

-- A network: its octets, and the number of addresses in it.
pub record Network : Type 0 where
  pub base : Ipv4
  pub size : ℕ

abbrev net : ℕ → ℕ → ℕ → ℕ → ℕ → Network
net a b c d size = record { base = record { o0 = a; o1 = b; o2 = c; o3 = d }; size = size }

abbrev pub contains_address : Network → ℕ → Bool
contains_address n a = leb (address n.base) a && leb (a + 1) (address n.base + n.size)

-- This network, private use, shared space, loopback, link-local, documentation and broadcast.
abbrev pub reserved_networks : List Network
reserved_networks =
    net 0 0 0 0 0x1000000
    ∷ net 10 0 0 0 0x1000000
    ∷ net 100 64 0 0 0x400000
    ∷ net 127 0 0 0 0x1000000
    ∷ net 169 254 0 0 0x10000
    ∷ net 172 16 0 0 0x100000
    ∷ net 192 0 2 0 0x100
    ∷ net 192 168 0 0 0x10000
    ∷ net 198 51 100 0 0x100
    ∷ net 203 0 113 0 0x100
    ∷ net 255 255 255 255 1
    ∷ []

-- The tests of the guard, in the order of the networks.
regroup :
    (l p1 p2 p3 k z b d1 d2 d3 c t : Bool)
    → (z ≡ true → t ≡ true)
    → (l || (p1 || p2 || p3) || k || z || b || (d1 || d2 || d3) || c || t)
      ≡ (t || (p1 || (c || (l || (k || (p2 || (d1 || (p3 || (d2 || (d3 || (b || false)))))))))))
regroup l p1 p2 p3 k z b d1 d2 d3 c t h = ground arith

-- Each network by the octets of its addresses.
module _ (ip : Ipv4) (a : ip.o0 < 256) (b : ip.o1 < 256) (c : ip.o2 < 256) (d : ip.o3 < 256) where
  this_network : contains_address (net 0 0 0 0 0x1000000) (address ip) ≡ nat_eqb ip.o0 0
  this_network = ground arith

  private_10 : contains_address (net 10 0 0 0 0x1000000) (address ip) ≡ nat_eqb ip.o0 10
  private_10 = ground arith

  shared :
      contains_address (net 100 64 0 0 0x400000) (address ip)
      ≡ (nat_eqb ip.o0 100 && leb 64 ip.o1 && leb ip.o1 127)
  shared = ground arith

  loopback : contains_address (net 127 0 0 0 0x1000000) (address ip) ≡ nat_eqb ip.o0 127
  loopback = ground arith

  link_local :
      contains_address (net 169 254 0 0 0x10000) (address ip)
      ≡ (nat_eqb ip.o0 169 && nat_eqb ip.o1 254)
  link_local = ground arith

  private_172 :
      contains_address (net 172 16 0 0 0x100000) (address ip)
      ≡ (nat_eqb ip.o0 172 && leb 16 ip.o1 && leb ip.o1 31)
  private_172 = ground arith

  documentation_1 :
      contains_address (net 192 0 2 0 0x100) (address ip)
      ≡ (nat_eqb ip.o0 192 && nat_eqb ip.o1 0 && nat_eqb ip.o2 2)
  documentation_1 = ground arith

  private_192 :
      contains_address (net 192 168 0 0 0x10000) (address ip)
      ≡ (nat_eqb ip.o0 192 && nat_eqb ip.o1 168)
  private_192 = ground arith

  documentation_2 :
      contains_address (net 198 51 100 0 0x100) (address ip)
      ≡ (nat_eqb ip.o0 198 && nat_eqb ip.o1 51 && nat_eqb ip.o2 100)
  documentation_2 = ground arith

  documentation_3 :
      contains_address (net 203 0 113 0 0x100) (address ip)
      ≡ (nat_eqb ip.o0 203 && nat_eqb ip.o1 0 && nat_eqb ip.o2 113)
  documentation_3 = ground arith

  broadcast : contains_address (net 255 255 255 255 1) (address ip) ≡ octets_eq ip 255 255 255 255
  broadcast = ground arith

-- The guard refuses an IPv4 address exactly if it lies in one of the eleven reserved networks.
pub is_blocked_ipv4_lem :
    (ip : Ipv4)
    → IsIpv4 ip
    → is_blocked_ipv4 ip ≡ any (λ n. contains_address n (address ip)) reserved_networks
unfolding is_blocked_ipv4
is_blocked_ipv4_lem ip (a, b, c, d) =
    rw
      (
        this_network ip a b c d,
        private_10 ip a b c d,
        shared ip a b c d,
        loopback ip a b c d,
        link_local ip a b c d,
        private_172 ip a b c d,
        documentation_1 ip a b c d,
        private_192 ip a b c d,
        documentation_2 ip a b c d,
        documentation_3 ip a b c d,
        broadcast ip a b c d,
      )
      (regroup (nat_eqb ip.o0 127) (nat_eqb ip.o0 10)
        (nat_eqb ip.o0 172 && leb 16 ip.o1 && leb ip.o1 31) (nat_eqb ip.o0 192 && nat_eqb ip.o1 168)
        (nat_eqb ip.o0 169 && nat_eqb ip.o1 254) (octets_eq ip 0 0 0 0)
        (octets_eq ip 255 255 255 255) (nat_eqb ip.o0 192 && nat_eqb ip.o1 0 && nat_eqb ip.o2 2)
        (nat_eqb ip.o0 198 && nat_eqb ip.o1 51 && nat_eqb ip.o2 100)
        (nat_eqb ip.o0 203 && nat_eqb ip.o1 0 && nat_eqb ip.o2 113)
        (nat_eqb ip.o0 100 && leb 64 ip.o1 && leb ip.o1 127) (nat_eqb ip.o0 0) (λ z. ground arith))
