-- ===== src/IpRanges/Hosts.antt =====
-- The names of hosts and the answers of the resolver, in src/providers/ip-ranges.ts, and the two gates of
-- src/providers/url-validator.ts. The resolver answers with addresses or fails, the URL parser gives a record
-- or fails: both are arguments.
pub mod Public
use ai_model_arena.Common.{
  ℕ, ◌-◌, ◌≡◌, refl, inl, inr, Bool, true, false, not, ◌&&◌, ◌||◌, Option, none, some, List, [],
  ◌∷◌, if◌then◌else◌, ◌==◌, length, take, All, Bool-cases, ◌++◌, arith, subst, ap,
}
use ai_model_arena.IpRanges.{behind, is_some, Text, codes, same_text, normalize_ip, is_private_ip}

abbrev metadata_hostnames : List Text
metadata_hostnames =
    codes "metadata.google.internal"
    ∷ codes "metadata.google.internal."
    ∷ codes "metadata.azure.com"
    ∷ codes "metadata.azure.com."
    ∷ codes "metadata.tencentyun.com"
    ∷ codes "metadata.tencentyun.com."
    ∷ []

abbrev blocked_hostnames : List Text
blocked_hostnames = codes "localhost" ∷ codes "localhost." ∷ []

abbrev pub internal_dns_suffixes : List Text
internal_dns_suffixes =
    codes ".local"
    ∷ codes ".local."
    ∷ codes ".internal"
    ∷ codes ".internal."
    ∷ codes ".svc"
    ∷ codes ".svc."
    ∷ codes ".svc.cluster.local"
    ∷ codes ".svc.cluster.local."
    ∷ codes ".kubernetes.local"
    ∷ []

unfoldable pub has_text : List Text → Text → Bool
has_text [] t = false
has_text (h ∷ hs) t = same_text h t || has_text hs t

-- `endsWith`.
unfoldable pub ends_in : Text → Text → Bool
ends_in suffix [] = same_text suffix []
ends_in suffix (c ∷ t) = same_text suffix (c ∷ t) || ends_in suffix t

unfoldable pub any_suffix : List Text → Text → Bool
any_suffix [] t = false
any_suffix (s ∷ ss) t = (same_text t (take (length s - 1) s) || ends_in s t) || any_suffix ss t

-- `lower` is `toLowerCase`.
unfoldable pub is_metadata_hostname : (Text → Text) → Text → Bool
unfolding has_text
is_metadata_hostname lower hostname = has_text metadata_hostnames (lower hostname)

unfoldable pub is_internal_dns_suffix : (Text → Text) → Text → Bool
is_internal_dns_suffix lower hostname = any_suffix internal_dns_suffixes (lower hostname)

unfoldable pub is_private_host : (Text → Text) → (Text → Text) → Text → Bool
unfolding has_text is_private_ip
is_private_host lower clean hostname =
    let l = lower hostname in
    has_text blocked_hostnames l
    || (is_metadata_hostname lower l || (is_internal_dns_suffix lower l || is_private_ip clean l))

pub data Resolution : Type 0 where
  dns_failed : Resolution
  no_records : Resolution
  blocked : List Text → Resolution
  public_address : Text → Resolution

pub private_of : (Text → Text) → List Text → List Text
private_of clean [] = []
private_of clean (a ∷ more) =
    let rest = private_of clean more in if is_private_ip clean a then a ∷ rest else rest

-- From the addresses that are private and the first address.
pub judge : List Text → Text → Resolution
judge [] first = public_address first
judge (b ∷ bs) first = blocked (b ∷ bs)

pub judge_answers : (Text → Text) → Option (List Text) → Resolution
unfolding private_of judge
judge_answers clean none = dns_failed
judge_answers clean (some []) = no_records
judge_answers clean (some (a ∷ rest)) = judge (private_of clean (a ∷ rest)) a

unfoldable pub resolve_public_host : (Text → Text) → (Text → Option (List Text)) → Text → Resolution
unfolding judge_answers
resolve_public_host clean lookup hostname =
    judge_answers clean (lookup (normalize_ip clean hostname))

-- A parsed URL. The port is `none` when the text has none.
pub record Url : Type 0 where
  pub protocol : Text
  pub username : Text
  pub password : Text
  pub hostname : Text
  pub port : Option ℕ
  pub origin : Text

pub data UrlValidation : Type 0 where
  invalid_url : UrlValidation
  not_https : UrlValidation
  bad_port : Option ℕ → UrlValidation
  blocked_address : UrlValidation
  valid : Text → UrlValidation

is_bad_port : Option ℕ → Bool
is_bad_port none = false
is_bad_port (some p) = not (p == 443) && not (p == 80)

-- `^https?://`, in either case.
has_scheme : (Text → Text) → Text → Bool
unfolding behind
has_scheme lower raw =
    is_some (behind (codes "http://") (lower raw))
    || is_some (behind (codes "https://") (lower raw))

parse_url : (Text → Text) → (Text → Option Url) → Text → Option Url
unfolding has_scheme
parse_url lower parse raw = elim (parse raw) [
  | some u ↦ some u
  | none ↦ if has_scheme lower raw then none else parse (codes "https://" ++ raw)
]

module _ (lower clean : Text → Text) where
  validate_parsed : Bool → Option Url → UrlValidation
  unfolding same_text is_private_host is_bad_port
  validate_parsed allow_http none = invalid_url
  validate_parsed allow_http (some u) =
      if not (same_text u.protocol (codes "https:")) && not allow_http
      then not_https
      else if is_bad_port u.port
      then bad_port u.port
      else if is_private_host lower clean (lower u.hostname)
      then blocked_address
      else valid u.origin

  unfoldable pub validate_provider_url : (Text → Option Url) → Bool → Text → UrlValidation
  unfolding parse_url validate_parsed
  validate_provider_url parse allow_http raw =
      validate_parsed allow_http (parse_url lower parse raw)

-- What `assertPublicUrl` throws, or the URL.
pub data Gate : Type 0 where
  unparsed : Gate
  unsupported_protocol : Gate
  has_credentials : Gate
  private_host : Gate
  unresolved : Resolution → Gate
  allowed : Url → Gate

is_empty : Text → Bool
is_empty [] = true
is_empty (c ∷ t) = false

pub after_resolution : Url → Resolution → Gate
after_resolution u dns_failed = unresolved dns_failed
after_resolution u no_records = unresolved no_records
after_resolution u (blocked rest) = unresolved (blocked rest)
after_resolution u (public_address a) = allowed u

pub is_web : Url → Bool
unfolding same_text
is_web u = same_text u.protocol (codes "http:") || same_text u.protocol (codes "https:")

pub has_userinfo : Url → Bool
unfolding is_empty
has_userinfo u = not (is_empty u.username) || not (is_empty u.password)

module _ (lower clean : Text → Text) (lookup : Text → Option (List Text)) where
  pub assert_parsed : Option Url → Gate
  unfolding is_web has_userinfo is_private_host after_resolution resolve_public_host
  assert_parsed none = unparsed
  assert_parsed (some u) =
      if not (is_web u)
      then unsupported_protocol
      else if has_userinfo u
      then has_credentials
      else if is_private_host lower clean u.hostname
      then private_host
      else after_resolution u (resolve_public_host clean lookup u.hostname)

  unfoldable pub assert_public_url : (Text → Option Url) → Text → Gate
  unfolding assert_parsed
  assert_public_url parse raw = assert_parsed (parse raw)
