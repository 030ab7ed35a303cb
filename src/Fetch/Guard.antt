-- ===== src/Fetch/Guard.antt =====
-- The checks of addresses and URLs. The `url` crate comes as a parameter; the tests of an
-- address are those of Rust's standard library.
use smooth_agent.Base.{
  ℕ, ◌*◌, ◌/◌, ◌%◌, ◌≡◌, String, Bool, Option, none, some, string_eq, ◌==◌, ◌||◌, ◌&&◌, nat_eqb,
  leb, if◌then◌else◌,
}
use smooth_agent.Base.Ascii.{to_ascii_lowercase, ends_with}
use smooth_agent.Base.Outcome.{Outcome, ok, err, ◌>>=◌, ◌>>◌}

-- The four octets, the first one first.
pub record Ipv4 : Type 0 where
  pub o0 : ℕ
  pub o1 : ℕ
  pub o2 : ℕ
  pub o3 : ℕ

-- The eight segments of 16 bits.
pub record Ipv6 : Type 0 where
  pub s0 : ℕ
  pub s1 : ℕ
  pub s2 : ℕ
  pub s3 : ℕ
  pub s4 : ℕ
  pub s5 : ℕ
  pub s6 : ℕ
  pub s7 : ℕ

pub data Host : Type 0 where
  domain : String → Host
  ipv4 : Ipv4 → Host
  ipv6 : Ipv6 → Host

-- A parsed URL is read back from its own text.
pub record UrlCrate : Type 1 where
  pub Url : Type 0
  pub parse : String → Outcome Url
  pub as_str : Url → String
  pub scheme : Url → String
  pub host : Url → Option Host
  pub parse-as_str : (u : Url) → parse (as_str u) ≡ ok u

abbrev pub octets_eq : Ipv4 → ℕ → ℕ → ℕ → ℕ → Bool
octets_eq ip a b c d = nat_eqb ip.o0 a && nat_eqb ip.o1 b && nat_eqb ip.o2 c && nat_eqb ip.o3 d

abbrev pub is_private : Ipv4 → Bool
is_private ip =
    nat_eqb ip.o0 10
    || nat_eqb ip.o0 172 && leb 16 ip.o1 && leb ip.o1 31
    || nat_eqb ip.o0 192 && nat_eqb ip.o1 168

abbrev pub is_documentation : Ipv4 → Bool
is_documentation ip =
    nat_eqb ip.o0 192 && nat_eqb ip.o1 0 && nat_eqb ip.o2 2
    || nat_eqb ip.o0 198 && nat_eqb ip.o1 51 && nat_eqb ip.o2 100
    || nat_eqb ip.o0 203 && nat_eqb ip.o1 0 && nat_eqb ip.o2 113

-- `is_shared_cgnat`
abbrev pub is_shared_cgnat : Ipv4 → Bool
is_shared_cgnat ip = nat_eqb ip.o0 100 && leb 64 ip.o1 && leb ip.o1 127

unfoldable pub is_blocked_ipv4 : Ipv4 → Bool
is_blocked_ipv4 ip =
    nat_eqb ip.o0 127
    || is_private ip
    || nat_eqb ip.o0 169 && nat_eqb ip.o1 254
    || octets_eq ip 0 0 0 0
    || octets_eq ip 255 255 255 255
    || is_documentation ip
    || is_shared_cgnat ip
    || nat_eqb ip.o0 0

-- `to_ipv4`: a compatible or a mapped address.
unfoldable pub to_ipv4 : Ipv6 → Option Ipv4
to_ipv4 ip =
    if nat_eqb ip.s0 0
      && nat_eqb ip.s1 0
      && nat_eqb ip.s2 0
      && nat_eqb ip.s3 0
      && nat_eqb ip.s4 0
      && (nat_eqb ip.s5 0 || nat_eqb ip.s5 0xffff)
    then some (record { o0 = ip.s6 / 256; o1 = ip.s6 % 256; o2 = ip.s7 / 256; o3 = ip.s7 % 256 })
    else none

abbrev pub all_zero_but_last : Ipv6 → Bool
all_zero_but_last ip =
    nat_eqb ip.s0 0
    && nat_eqb ip.s1 0
    && nat_eqb ip.s2 0
    && nat_eqb ip.s3 0
    && nat_eqb ip.s4 0
    && nat_eqb ip.s5 0
    && nat_eqb ip.s6 0

-- A mask of the upper seven or ten bits of a segment drops the lower nine or six.
unfoldable pub is_blocked_ipv6 : Ipv6 → Bool
is_blocked_ipv6 ip =
    all_zero_but_last ip && nat_eqb ip.s7 1
    || all_zero_but_last ip && nat_eqb ip.s7 0
    || nat_eqb (ip.s0 / 512 * 512) 0xfc00
    || nat_eqb (ip.s0 / 64 * 64) 0xfe80

unfoldable pub assert_ipv4_public : Ipv4 → Outcome (Unit {0})
unfolding is_blocked_ipv4
assert_ipv4_public ip =
    if is_blocked_ipv4 ip then err "fetch_url: refusing to fetch non-public IPv4" else ok tt

unfoldable pub assert_ipv6_public : Ipv6 → Outcome (Unit {0})
unfolding to_ipv4 assert_ipv4_public is_blocked_ipv6
assert_ipv6_public ip = elim (to_ipv4 ip) [
  | some v4 ↦ assert_ipv4_public v4
  | none ↦ if is_blocked_ipv6 ip then err "fetch_url: refusing to fetch non-public IPv6" else ok tt
]

abbrev pub is_localhost : String → Bool
is_localhost name =
    let lowered = to_ascii_lowercase name in
    lowered == "localhost" || ends_with lowered ".localhost"

unfoldable pub assert_host_public : Host → Outcome (Unit {0})
unfolding assert_ipv4_public assert_ipv6_public
assert_host_public (domain name) =
    if is_localhost name then err "fetch_url: refusing to fetch localhost" else ok tt
assert_host_public (ipv4 ip) = assert_ipv4_public ip
assert_host_public (ipv6 ip) = assert_ipv6_public ip

module _ (crate : UrlCrate) where
  open crate use {Url, parse, scheme, host}

  abbrev pub host_of : Url → Outcome Host
  host_of url = elim (host url) [ none ↦ err "fetch_url: URL has no host" | some h ↦ ok h ]

  abbrev pub is_http : Url → Bool
  is_http url = scheme url == "http" || scheme url == "https"

  -- The checks of a parsed URL. The messages are given without the texts that they quote.
  unfoldable pub check_url : Url → Outcome Url
  unfolding assert_host_public
  check_url url = do
    h ← if is_http url then host_of url else err "fetch_url: refusing non-http(s) scheme"
    assert_host_public h
    ok url

  unfoldable pub assert_url_is_public : String → Outcome Url
  unfolding check_url
  assert_url_is_public raw_url = do url ← parse raw_url; check_url url
