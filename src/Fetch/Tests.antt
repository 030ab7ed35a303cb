-- ===== src/Fetch/Tests.antt =====
-- Addresses, redirects and pages.
use smooth_agent.Base.{◌≡◌, arith, String, some, [], ◌∷◌, refl, string_eq, ◌==◌, any, if◌then◌else◌}
use smooth_agent.Base.Outcome.{ok, err}
use smooth_agent.Base.Text.{join, is_whitespace}
use smooth_agent.Base.Words.{split_whitespace, word_parts}
use smooth_agent.Base.Ascii.{to_ascii_lowercase, ends_with, strip_prefix}
use smooth_agent.Fetch.Guard.{
  Ipv4, Host, domain, ipv4, UrlCrate, is_blocked_ipv4, assert_url_is_public,
}
use smooth_agent.Fetch.Blocks.{address, contains_address, reserved_networks, is_blocked_ipv4_lem}
use smooth_agent.Fetch.Redirects.{Response, moved, fetch, IsSafe, fetch-IsSafe}
use smooth_agent.Fetch.Html.{strip_markup, html_to_text, find_text, drop_chars}
use smooth_agent.Fetch.Stripping.{IsStripped, strip_markup-IsStripped}

abbrev metadata : Ipv4
metadata = record { o0 = 169; o1 = 254; o2 = 169; o3 = 254 }

is_blocked_ipv4_lem_example :
    is_blocked_ipv4 metadata ≡ any (λ n. contains_address n (address metadata)) reserved_networks
is_blocked_ipv4_lem_example =
    is_blocked_ipv4_lem metadata (omega arith, omega arith, omega arith, omega arith)

-- A URL is its host's name or the metadata address.
abbrev host_named : String → Host
host_named name = if name == "metadata" then ipv4 metadata else domain name

abbrev toy : UrlCrate
toy = record {
  Url = String;
  parse = λ s. ok s;
  as_str = λ u. u;
  scheme = λ u. "http";
  host = λ u. some (host_named u);
  parse-as_str = λ u. refl;
}

abbrev sends_to_metadata : String → Response String String
sends_to_metadata u = moved "metadata"

-- The redirect to the metadata service is not followed.
blocked :
    fetch toy sends_to_metadata 10 "example.com"
    ≡ some (err "fetch_url: refusing to fetch non-public IPv4", "example.com" ∷ [])
unfolding fetch assert_url_is_public to_ascii_lowercase ends_with
blocked = refl

fetch-IsSafe_example : IsSafe toy sends_to_metadata (fetch toy sends_to_metadata 10 "example.com")
fetch-IsSafe_example = fetch-IsSafe toy sends_to_metadata "example.com"

read : html_to_text "<p>Hi <b>there</b></p><script>x<y</script>" ≡ some "Hi there"
unfolding html_to_text to_ascii_lowercase strip_prefix find_text drop_chars join split_whitespace
    word_parts is_whitespace
read = refl

strip_markup-IsStripped_example : IsStripped (strip_markup 5 "a<b")
strip_markup-IsStripped_example = strip_markup-IsStripped 5 "a<b" (omega arith)
