-- ===== src/IpRanges.antt =====
-- The guard against requests to private addresses, in src/providers/ip-ranges.ts and
-- src/providers/url-validator.ts. Texts are lists of UTF-16 code units. Trimming and the lower case, the
-- URL parser and the lookup of names are the platform's: they are arguments.
pub mod Blocks
pub mod Octets
pub mod Mapped
pub mod Hosts
mod Examples
use Prim.Native.Char.{code}
use ai_model_arena.Common.{
  ℕ, zero, suc, ◌+◌, ◌-◌, ◌*◌, ◌/◌, ◌%◌, ◌≡◌, Bool, true, false, not, ◌&&◌, ◌||◌, Option, none,
  some, List, [], ◌∷◌, ◌++◌, if◌then◌else◌, leb, ltb, ◌==◌, String, length, take, drop,
}

abbrev pub Text : Type 0
Text = List ℕ

abbrev pub codes : String → Text
codes String.[] = []
codes (String.◌∷◌ c s) = code c ∷ codes s

unfoldable pub same_text : Text → Text → Bool
same_text [] [] = true
same_text [] (d ∷ ds) = false
same_text (c ∷ cs) [] = false
same_text (c ∷ cs) (d ∷ ds) = c == d && same_text cs ds

-- The rest of a text behind a prefix.
unfoldable pub behind : Text → Text → Option Text
behind [] t = some t
behind (c ∷ p) [] = none
behind (c ∷ p) (d ∷ t) = if c == d then behind p t else none

abbrev pub between : ℕ → ℕ → ℕ → Bool
between lo hi c = leb lo c && leb c hi

abbrev pub is_digit : ℕ → Bool
is_digit c = between b'0' b'9' c

abbrev pub is_hex : ℕ → Bool
is_hex c = is_digit c || between b'a' b'f' c

-- `\d+` at the head of a text: the digits and the rest.
unfoldable pub digits : Text → Text × Text
digits [] = ([], [])
digits (c ∷ t) = let (ds, rest) = digits t in if is_digit c then (c ∷ ds, rest) else ([], c ∷ t)

-- `\d+\.` and what follows, if the digits are followed by the dot.
abbrev dotted_part : Text × Text → Option (Text × Text)
dotted_part ([], rest) = none
dotted_part (d ∷ ds, []) = none
dotted_part (d ∷ ds, c ∷ rest) = if c == b'.' then some (d ∷ ds, rest) else none

abbrev last_part : Text × Text → Option Text
last_part ([], rest) = none
last_part (d ∷ ds, []) = some (d ∷ ds)
last_part (d ∷ ds, c ∷ rest) = none

-- The four parts of `^\d+\.\d+\.\d+\.\d+$`.
pub record Dotted : Type 0 where
  pub a : Text
  pub b : Text
  pub c : Text
  pub d : Text

unfoldable pub dotted : Text → Option Dotted
unfolding digits
dotted t = elim (dotted_part (digits t)) [
  | none ↦ none
  | some (a, t1) ↦ elim (dotted_part (digits t1)) [
    | none ↦ none
    | some (b, t2) ↦ elim (dotted_part (digits t2)) [
      | none ↦ none
      | some (c, t3) ↦ elim (last_part (digits t3)) [
        | none ↦ none
        | some d ↦ some (record { a = a; b = b; c = c; d = d })
      ]
    ]
  ]
]

-- `6[4-9]|[7-9]\d|1[0-1]\d|12[0-7]`, whole.
is_shared : Text → Bool
is_shared (x ∷ y ∷ []) = (x == b'6' && between b'4' b'9' y) || (between b'7' b'9' x && is_digit y)
is_shared (x ∷ y ∷ z ∷ []) =
    x == b'1' && ((between b'0' b'1' y && is_digit z) || (y == b'2' && between b'0' b'7' z))
is_shared _ = false

-- `1[6-9]|2\d|3[01]`, whole.
is_16_to_31 : Text → Bool
is_16_to_31 (x ∷ y ∷ []) =
    (x == b'1' && between b'6' b'9' y)
    || ((x == b'2' && is_digit y) || (x == b'3' && between b'0' b'1' y))
is_16_to_31 _ = false

-- `1[8-9]`, whole.
is_benchmark : Text → Bool
is_benchmark (x ∷ y ∷ []) = x == b'1' && between b'8' b'9' y
is_benchmark _ = false

-- The ranges of IPv4, of which the third and fourth parts are any digits but in `192.0.0.0/24`.
unfoldable pub is_private_dotted : Dotted → Bool
unfolding same_text is_shared is_16_to_31 is_benchmark
is_private_dotted q =
    same_text q.a (codes "0")
    || (same_text q.a (codes "10")
        || ((same_text q.a (codes "100") && is_shared q.b)
            || (same_text q.a (codes "127")
                || ((same_text q.a (codes "169") && same_text q.b (codes "254"))
                    || ((same_text q.a (codes "172") && is_16_to_31 q.b)
                        || ((same_text q.a (codes "192")
                              && (same_text q.b (codes "0") && same_text q.c (codes "0")))
                            || ((same_text q.a (codes "192") && same_text q.b (codes "168"))
                                || (same_text q.a (codes "198") && is_benchmark q.b))))))))

-- `fe[89ab][0-9a-f]:`, `f[cd][0-9a-f]{2}:` and `fe[c-f][0-9a-f]:` at the head of a text in lower case.
is_local_v6 : Text → Bool
is_local_v6 (v ∷ w ∷ x ∷ y ∷ z ∷ rest) =
    v == b'f'
    && (z == b':'
        && (is_hex y
            && ((w == b'e' && (between b'8' b'9' x || between b'a' b'f' x))
                || (between b'c' b'd' w && is_hex x))))
is_local_v6 _ = false

is_private_v6 : Text → Bool
unfolding same_text is_local_v6
is_private_v6 t = same_text t (codes "::1") || (same_text t (codes "::") || is_local_v6 t)

abbrev is_private_v4 : Option Dotted → Bool
is_private_v4 none = false
is_private_v4 (some q) = is_private_dotted q

unfoldable pub is_private_text : Text → Bool
unfolding is_private_v6
is_private_text t = is_private_v4 (dotted t) || is_private_v6 t

ends_with : ℕ → Text → Bool
ends_with c [] = false
ends_with c (d ∷ []) = d == c
ends_with c (d ∷ e ∷ t) = ends_with c (e ∷ t)

abbrev starts_with : ℕ → Text → Bool
starts_with c [] = false
starts_with c (d ∷ t) = d == c

unfoldable pub strip_brackets : Text → Text
unfolding ends_with
strip_brackets t =
    if starts_with b'[' t && ends_with b']' t then drop 1 (take (length t - 1) t) else t

unfoldable pub strip_zone : Text → Text
strip_zone [] = []
strip_zone (c ∷ t) = let rest = c ∷ strip_zone t in if c == b'%' then [] else rest

unfoldable pub behind_mapped : Text → Option Text
unfolding behind
behind_mapped t = elim (behind (codes "::ffff:") t) [
  | some rest ↦ some rest
  | none ↦ behind (codes "0:0:0:0:0:ffff:") t
]

hex_digit : ℕ → ℕ
hex_digit c = if is_digit c then c - b'0' else c - b'a' + 10

-- `parseInt` of hexadecimal digits, after `acc`.
unfoldable pub hex_value : ℕ → Text → ℕ
unfolding hex_digit
hex_value acc [] = acc
hex_value acc (c ∷ t) = hex_value (16 * acc + hex_digit c) t

unfoldable pub hex_digits : Text → Text × Text
hex_digits [] = ([], [])
hex_digits (c ∷ t) =
    let (ds, rest) = hex_digits t in if is_hex c then (c ∷ ds, rest) else ([], c ∷ t)

abbrev pub is_group : Text → Bool
is_group t = ltb 0 (length t) && leb (length t) 4

-- The end of `^([0-9a-f]{1,4}):([0-9a-f]{1,4})$`, then what stands behind its colon, and the whole.
abbrev pair_last : Text → Text × Text → Option (Text × Text)
pair_last hi (lo, rest) =
    if is_group hi && (is_group lo && same_text rest []) then some (hi, lo) else none

abbrev pair_behind : Text → Option Text → Option (Text × Text)
pair_behind hi none = none
pair_behind hi (some t) = pair_last hi (hex_digits t)

abbrev pair_of : Text × Text → Option (Text × Text)
pair_of (hi, rest) = pair_behind hi (behind (codes ":") rest)

unfoldable pub hex_pair : Text → Option (Text × Text)
unfolding hex_digits same_text behind
hex_pair t = pair_of (hex_digits t)

-- The decimal digits of a number below 1000.
unfoldable pub decimal : ℕ → Text
decimal n =
    if ltb n 10
    then (b'0' + n) ∷ []
    else if ltb n 100
    then (b'0' + n / 10) ∷ (b'0' + n % 10) ∷ []
    else (b'0' + n / 100) ∷ (b'0' + n / 10 % 10) ∷ (b'0' + n % 10) ∷ []

abbrev pub octets : ℕ → ℕ → ℕ → ℕ → Text
octets a b c d = decimal a ++ b'.' ∷ (decimal b ++ b'.' ∷ (decimal c ++ b'.' ∷ decimal d))

abbrev pub from_words : ℕ → ℕ → Text
from_words hi lo = octets (hi / 256 % 256) (hi % 256) (lo / 256 % 256) (lo % 256)

abbrev pub is_some {ℓ} : {A : Type ℓ} → Option A → Bool
is_some none = false
is_some (some x) = true

unmap : Text → Option Text → Text
unfolding dotted hex_pair decimal hex_value
unmap ip none = ip
unmap ip (some rest) = if is_some (dotted rest) then rest else elim (hex_pair rest) [
  | none ↦ ip
  | some (hi, lo) ↦ from_words (hex_value 0 hi) (hex_value 0 lo)
]

-- `clean` trims and lowers the case.
unfoldable pub normalize_ip : (Text → Text) → Text → Text
unfolding unmap
normalize_ip clean raw =
    let ip = strip_zone (strip_brackets (clean raw)) in unmap ip (behind_mapped ip)

unfoldable pub is_private_ip : (Text → Text) → Text → Bool
is_private_ip clean raw = is_private_text (normalize_ip clean raw)
