-- ===== src/IpRanges/Examples.antt =====
-- The theorems on private addresses, in src/providers/ip-ranges.ts and src/providers/url-validator.ts, at
-- concrete texts, and tests.
use ai_model_arena.Common.{◌≡◌, refl, true, false, Option, some, List, [], ◌∷◌, arith}
use ai_model_arena.IpRanges.{
  Text, codes, octets, hex_value, same_text, dotted, behind_mapped, strip_zone, strip_brackets,
  is_private_dotted, is_private_text, is_private_ip, normalize_ip,
}
use ai_model_arena.IpRanges.Octets.{is_private_text-octets}
use ai_model_arena.IpRanges.Mapped.{is_private_ip-mapped}
use ai_model_arena.IpRanges.Hosts.{
  is_metadata_hostname, any_suffix, ends_in, Url, assert_public_url, is_internal_dns_suffix,
  bad_port, validate_provider_url, blocked, resolve_public_host,
}
use ai_model_arena.IpRanges.Hosts.Public.{IsAllowed, assert_public_url-IsAllowed}

abbrev same : Text → Text
same t = t

is_private_text-octets_example : is_private_text (octets 172 20 0 1) ≡ true
is_private_text-octets_example =
    is_private_text-octets 172 20 0 1 (omega arith) (omega arith) (omega arith) (omega arith)

abbrev loopback : Text
loopback = codes "[0:0:0:0:0:ffff:7f00:1%eth0]"

is_private_ip-mapped_example : is_private_ip same loopback ≡ true
unfolding hex_value
is_private_ip-mapped_example =
    is_private_ip-mapped true true same loopback (codes "7f00") (codes "1") (some (codes "eth0"))
      refl (refl, (refl, (refl, (refl, tt)))) (refl, tt) refl refl

abbrev web_url : Url
web_url = record {
  protocol = codes "https:";
  username = [];
  password = [];
  hostname = codes "example.org";
  port = some 8443;
  origin = codes "https://example.org:8443";
}

abbrev answer : Text → Option (List Text)
answer t = some (codes "93.184.216.34" ∷ [])

abbrev parse : Text → Option Url
parse t = some web_url

assert_public_url-IsAllowed_example :
    (parse (codes "https://example.org:8443") ≡ some web_url) × IsAllowed same same answer web_url
unfolding assert_public_url is_metadata_hostname is_internal_dns_suffix any_suffix ends_in
    is_private_text dotted normalize_ip behind_mapped strip_zone strip_brackets is_private_dotted
assert_public_url-IsAllowed_example =
    (assert_public_url-IsAllowed same same answer parse (codes "https://example.org:8443")
        web_url).0
      refl

mixed_test :
    resolve_public_host same
      (λ t. some (codes "93.184.216.34" ∷ codes "::ffff:a00:5" ∷ []))
      (codes "example.org")
    ≡ blocked (codes "::ffff:a00:5" ∷ [])
unfolding resolve_public_host is_private_ip is_private_text dotted normalize_ip behind_mapped
    strip_zone strip_brackets is_private_dotted
mixed_test = refl

port_test :
    validate_provider_url same same parse false (codes "https://example.org:8443")
    ≡ bad_port (some 8443)
unfolding validate_provider_url
port_test = refl

-- The name `internal` itself is none of the internal names, though the code compares with a suffix.
bare_suffix_test : is_internal_dns_suffix same (codes "internal") ≡ false
unfolding is_internal_dns_suffix any_suffix same_text ends_in
bare_suffix_test = refl
