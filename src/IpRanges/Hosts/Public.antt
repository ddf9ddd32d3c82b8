-- ===== src/IpRanges/Hosts/Public.antt =====
-- What the two gates on hosts and URLs let pass, in src/providers/ip-ranges.ts and
-- src/providers/url-validator.ts.
use ai_model_arena.Common.{
  ◌∙◌, ◌↔◌, ◌≡◌, refl, inl, inr, Bool, true, false, not, Option, none, some, List, [], ◌∷◌,
  if◌then◌else◌, All, Bool-cases, arith, subst, ap,
}
use ai_model_arena.IpRanges.{Text, normalize_ip, is_private_ip}
use ai_model_arena.IpRanges.Hosts.{
  Resolution, dns_failed, no_records, blocked, public_address, Url, unsupported_protocol,
  has_credentials, private_host, allowed, private_of, judge, judge_answers, resolve_public_host,
  after_resolution, is_web, has_userinfo, is_private_host, assert_parsed, assert_public_url,
}

-- The answer of the resolver has `a` first, and no private address.
pub ArePublic : (Text → Text) → Option (List Text) → Text → Type 0
ArePublic clean answer a =
    (rest : List Text) × ((answer ≡ some (a ∷ rest))
      × All (λ (b : Text). is_private_ip clean b ≡ false) (a ∷ rest))

private_of-none :
    (clean : Text → Text) (xs : List Text)
    → private_of clean xs ≡ []
    → All (λ (b : Text). is_private_ip clean b ≡ false) xs
unfolding private_of
private_of-none clean [] e = tt
private_of-none clean (a ∷ rest) e = elim (Bool-cases (is_private_ip clean a)) [
  | inl h ↦ grind arith
  | inr h ↦ (h, private_of-none clean rest (grind arith))
]

private_of-All :
    (clean : Text → Text) (xs : List Text)
    → All (λ (b : Text). is_private_ip clean b ≡ false) xs
    → private_of clean xs ≡ []
unfolding private_of
private_of-All clean [] h = refl
private_of-All clean (a ∷ rest) h = rw (h.0) (private_of-All clean rest (h.1))

judge_lem : (xs : List Text) (a b : Text) → judge xs a ≡ public_address b → (xs ≡ []) × (a ≡ b)
unfolding judge
judge_lem [] a b e = (refl, grind arith)
judge_lem (x ∷ xs) a b e = grind arith

judge_answers_lem :
    (clean : Text → Text) (answer : Option (List Text)) (a : Text)
    → judge_answers clean answer ≡ public_address a
    → ArePublic clean answer a
unfolding judge_answers ArePublic
judge_answers_lem clean none a e = grind arith
judge_answers_lem clean (some []) a e = grind arith
judge_answers_lem clean (some (b ∷ rest)) a e =
    let (none_private, same) = judge_lem (private_of clean (b ∷ rest)) b a e in
    subst (λ (x : Text). ArePublic clean (some (b ∷ rest)) x) same
      (rest, (refl, private_of-none clean (b ∷ rest) none_private))

-- A host resolves to a public address only if that address is the first answer of the resolver and no
-- answer is private.
pub resolve_public_host-ArePublic :
    (clean : Text → Text) (lookup : Text → Option (List Text)) (hostname a : Text)
    → resolve_public_host clean lookup hostname ≡ public_address a
    → ArePublic clean (lookup (normalize_ip clean hostname)) a
unfolding resolve_public_host
resolve_public_host-ArePublic clean lookup hostname a e =
    judge_answers_lem clean (lookup (normalize_ip clean hostname)) a e

after_resolution_lem :
    (u v : Url) (r : Resolution)
    → after_resolution u r ≡ allowed v
    → (u ≡ v) × ((a : Text) × (r ≡ public_address a))
unfolding after_resolution
after_resolution_lem u v dns_failed e = grind arith
after_resolution_lem u v no_records e = grind arith
after_resolution_lem u v (blocked xs) e = grind arith
after_resolution_lem u v (public_address a) e = (grind arith, (a, refl))

guards_lem :
    (w c p : Bool) (u v : Url) (r : Resolution)
    → (if not w
        then unsupported_protocol
        else if c
        then has_credentials
        else if p
        then private_host
        else after_resolution u r)
      ≡ allowed v
    → (w ≡ true) × ((c ≡ false) × ((p ≡ false) × ((u ≡ v) × ((a : Text) × (r ≡ public_address a)))))
guards_lem false c p u v r e = grind arith
guards_lem true true p u v r e = grind arith
guards_lem true false true u v r e = grind arith
guards_lem true false false u v r e = (refl, (refl, (refl, after_resolution_lem u v r e)))

-- A URL of the web without credentials, whose host is no private one, and of which every answer of the
-- resolver is public.
pub IsAllowed : (Text → Text) → (Text → Text) → (Text → Option (List Text)) → Url → Type 0
IsAllowed lower clean lookup u =
    ((is_web u ≡ true) × (has_userinfo u ≡ false))
    × ((is_private_host lower clean u.hostname ≡ false)
        × ((a : Text) × ArePublic clean (lookup (normalize_ip clean u.hostname)) a))

assert_parsed_lem :
    (lower clean : Text → Text) (lookup : Text → Option (List Text)) (p : Option Url) (v : Url)
    → assert_parsed lower clean lookup p ≡ allowed v
    → (p ≡ some v) × IsAllowed lower clean lookup v
unfolding assert_parsed IsAllowed
assert_parsed_lem lower clean lookup none v e = grind arith
assert_parsed_lem lower clean lookup (some u) v e =
    let (web, (userless, (host_public, (same, found)))) =
      guards_lem (is_web u) (has_userinfo u) (is_private_host lower clean u.hostname) u v
        (resolve_public_host clean lookup u.hostname) e in
    let (a, resolved) = found in
    (
      ap some same,
      subst (IsAllowed lower clean lookup) same (
        (web, userless),
        (host_public, (a, resolve_public_host-ArePublic clean lookup u.hostname a resolved)),
      ),
    )

judge_answers-ArePublic :
    (clean : Text → Text) (answer : Option (List Text)) (a : Text)
    → ArePublic clean answer a
    → judge_answers clean answer ≡ public_address a
unfolding judge_answers judge ArePublic
judge_answers-ArePublic clean answer a (rest, (e, all)) =
    ap (judge_answers clean) e
    ∙ ap (λ (xs : List Text). judge xs a) (private_of-All clean (a ∷ rest) all)

assert_parsed-IsAllowed :
    (lower clean : Text → Text) (lookup : Text → Option (List Text)) (v : Url)
    → IsAllowed lower clean lookup v
    → assert_parsed lower clean lookup (some v) ≡ allowed v
unfolding assert_parsed IsAllowed after_resolution resolve_public_host
assert_parsed-IsAllowed lower clean lookup v ((web, userless), (host_public, (a, answer))) =
    let resolved =
      judge_answers-ArePublic clean (lookup (normalize_ip clean v.hostname)) a answer in
    rw web (rw userless (rw host_public (rw resolved refl)))

-- The gate lets a URL pass exactly when the text parses as this URL, and this is one of the web without credentials,
-- whose host is not private, and of which every answer of the resolver is public.
pub assert_public_url-IsAllowed :
    (lower clean : Text → Text) (lookup : Text → Option (List Text)) (parse : Text → Option Url)
    (raw : Text) (v : Url)
    → (assert_public_url lower clean lookup parse raw ≡ allowed v)
      ↔ ((parse raw ≡ some v) × IsAllowed lower clean lookup v)
unfolding assert_public_url
assert_public_url-IsAllowed lower clean lookup parse raw v = (
  assert_parsed_lem lower clean lookup (parse raw) v,
  λ h.
      ap (assert_parsed lower clean lookup) (h.0)
      ∙ assert_parsed-IsAllowed lower clean lookup v (h.1),
)
