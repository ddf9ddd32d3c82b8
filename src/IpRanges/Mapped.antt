-- ===== src/IpRanges/Mapped.antt =====
-- IPv4 addresses in the form of IPv6 that the platform's URL parser writes, in src/providers/ip-ranges.ts.
use ai_model_arena.Common.{
  Bool, Option, take, drop, take-append, length-append, suc, length, ℕ, ◌+◌, ◌*◌, ◌/◌, ◌%◌, ◌<◌,
  ◌≡◌, refl, ◌-◌, ◌∙◌, sym, ap, inl, inr, true, false, none, some, [], ◌∷◌, ◌++◌, ◌==◌, All,
  All-append, arith, Bool-cases, ==_iff,
}
use ai_model_arena.IpRanges.{
  ends_with, Text, codes, same_text, behind, is_digit, is_hex, digits, dotted_part, dotted,
  is_private_text, strip_brackets, strip_zone, behind_mapped, hex_digit, hex_value, hex_digits,
  hex_pair, pair_of, pair_last, is_group, from_words, is_some, unmap, normalize_ip, is_private_ip,
}
use ai_model_arena.IpRanges.Blocks.{address, in_private_block}
use ai_model_arena.IpRanges.Octets.{is_private_text-octets}

abbrev pub AreHex : Text → Type 0
AreHex = All (λ (c : ℕ). is_hex c ≡ true)

-- The two forms of the prefix.
abbrev pub prefix : (expanded : Bool) → Text
prefix false = codes "::ffff:"
prefix true = codes "0:0:0:0:0:ffff:"

-- The text of a mapped address, from its last two groups.
abbrev pub mapped : (expanded : Bool) → Text → Text → Text
mapped expanded hi lo = prefix expanded ++ (hi ++ b':' ∷ lo)

-- A zone id behind the address, if there is one.
abbrev pub zoned : Option Text → Text
zoned none = []
zoned (some suffix) = b'%' ∷ suffix

abbrev pub bracketed : Bool → Text → Text
bracketed false t = t
bracketed true t = b'[' ∷ (t ++ b']' ∷ [])

AreNot : ℕ → Text → Type 0
AreNot d = All (λ (c : ℕ). (c == d) ≡ false)

AreHex-AreNot : (d : ℕ) (t : Text) → is_hex d ≡ false → AreHex t → AreNot d t
unfolding AreNot
AreHex-AreNot d [] k h = tt
AreHex-AreNot d (c ∷ t) k (e, h) = (
  elim (Bool-cases (c == d)) [
    | inl same ↦ let clash : true ≡ false = sym e ∙ ap is_hex ((==_iff c d).0 same) ∙ k in cc
    | inr n ↦ n
  ],
  AreHex-AreNot d t k h,
)

strip_zone-AreNot :
    (t : Text) (suffix : Option Text) → AreNot b'%' t → strip_zone (t ++ zoned suffix) ≡ t
unfolding AreNot strip_zone
strip_zone-AreNot [] none h = refl
strip_zone-AreNot [] (some suffix) h = refl
strip_zone-AreNot (c ∷ t) suffix (e, h) = rw e (ap (λ s. c ∷ s) (strip_zone-AreNot t suffix h))

digits-AreNot : (d : ℕ) (t : Text) → AreNot d t → AreNot d (digits t).1
unfolding AreNot digits
digits-AreNot d [] h = tt
digits-AreNot d (c ∷ t) h = elim (Bool-cases (is_digit c)) [
  | inl e ↦ rw e (digits-AreNot d t h.1)
  | inr e ↦ rw e h
]

dotted_part-AreNot : (ds rest : Text) → AreNot b'.' rest → dotted_part (ds, rest) ≡ none
unfolding AreNot
dotted_part-AreNot [] rest h = refl
dotted_part-AreNot (d ∷ ds) [] h = refl
dotted_part-AreNot (d ∷ ds) (c ∷ rest) h = rw h.0 refl

-- Without a dot a text is not four numbers.
dotted-AreNot : (t : Text) → AreNot b'.' t → is_some (dotted t) ≡ false
unfolding dotted
dotted-AreNot t h =
    rw (dotted_part-AreNot (digits t).0 (digits t).1 (digits-AreNot b'.' t h), dotted) refl

hex_digits-append :
    (ds rest : Text) (c : ℕ)
    → AreHex ds
    → is_hex c ≡ false
    → hex_digits (ds ++ c ∷ rest) ≡ (ds, c ∷ rest)
unfolding hex_digits
hex_digits-append [] rest c h k = rw k refl
hex_digits-append (d ∷ ds) rest c (e, h) k = rw (e, hex_digits-append ds rest c h k) refl

hex_digits_all : (ds : Text) → AreHex ds → hex_digits ds ≡ (ds, [])
unfolding hex_digits
hex_digits_all [] h = refl
hex_digits_all (d ∷ ds) (e, h) = rw (e, hex_digits_all ds h) refl

hex_pair_lem :
    (hi lo : Text)
    → AreHex hi
    → AreHex lo
    → is_group hi ≡ true
    → is_group lo ≡ true
    → hex_pair (hi ++ b':' ∷ lo) ≡ some (hi, lo)
unfolding hex_pair same_text behind
hex_pair_lem hi lo h l g k =
    ap pair_of (hex_digits-append hi lo b':' h refl)
    ∙ ap (pair_last hi) (hex_digits_all lo l)
    ∙ rw (g, k) refl

hex_digit-lt : (c : ℕ) → is_hex c ≡ true → hex_digit c < 16
unfolding hex_digit
hex_digit-lt c h = ground arith

hex_value-lt : (t : Text) → AreHex t → is_group t ≡ true → hex_value 0 t < 65536
unfolding hex_value
hex_value-lt [] h g = ground arith
hex_value-lt (a ∷ []) (e, h) g = omega (arith, hex_digit-lt a e)
hex_value-lt (a ∷ b ∷ []) (e, (f, h)) g = omega (arith, hex_digit-lt a e, hex_digit-lt b f)
hex_value-lt (a ∷ b ∷ c ∷ []) (e, (f, (k, h))) g =
    omega (arith, hex_digit-lt a e, hex_digit-lt b f, hex_digit-lt c k)
hex_value-lt (a ∷ b ∷ c ∷ d ∷ []) (e, (f, (k, (l, h)))) g =
    omega (arith, hex_digit-lt a e, hex_digit-lt b f, hex_digit-lt c k, hex_digit-lt d l)
hex_value-lt (a ∷ b ∷ c ∷ d ∷ e ∷ t) h g = ground arith

ends_with-append : (c : ℕ) (t : Text) → ends_with c (t ++ c ∷ []) ≡ true
unfolding ends_with
ends_with-append c [] = ground arith
ends_with-append c (d ∷ []) = ground arith
ends_with-append c (d ∷ e ∷ t) = ends_with-append c (e ∷ t)

take-last :
    (t : Text) (c : ℕ) → take (suc (length (t ++ c ∷ [])) - 1) (b'[' ∷ (t ++ c ∷ [])) ≡ b'[' ∷ t
take-last t c =
    let size : suc (length (t ++ c ∷ [])) - 1 ≡ suc (length t) =
      omega (arith, length-append t (c ∷ [])) in
    ap (λ (n : ℕ). take n (b'[' ∷ (t ++ c ∷ []))) size
    ∙ ap (λ (s : Text). b'[' ∷ s) (take-append t (c ∷ []))

strip_brackets-mapped :
    (brackets expanded : Bool) (hi lo : Text) (suffix : Option Text)
    → strip_brackets (bracketed brackets (mapped expanded hi lo ++ zoned suffix))
      ≡ mapped expanded hi lo ++ zoned suffix
unfolding strip_brackets ends_with
strip_brackets-mapped true expanded hi lo suffix =
    let t = mapped expanded hi lo ++ zoned suffix in
    rw (ends_with-append b']' (b'[' ∷ t)) (ap (drop 1) (take-last t b']'))
strip_brackets-mapped false false hi lo suffix = refl
strip_brackets-mapped false true hi lo suffix = refl

prefix-AreNot : (expanded : Bool) → AreNot b'%' (prefix expanded)
unfolding AreNot
prefix-AreNot false = (refl, (refl, (refl, (refl, (refl, (refl, (refl, tt)))))))
prefix-AreNot true = (
  refl,
  (
    refl,
    (
      refl,
      (
        refl,
        (refl, (refl, (refl, (refl, (refl, (refl, (refl, (refl, (refl, (refl, (refl, tt))))))))))),
      ),
    ),
  ),
)

mapped-AreNot :
    (expanded : Bool) (hi lo : Text) → AreHex hi → AreHex lo → AreNot b'%' (mapped expanded hi lo)
unfolding AreNot
mapped-AreNot expanded hi lo h l =
    All-append (λ (c : ℕ). (c == b'%') ≡ false) (prefix expanded) (hi ++ b':' ∷ lo)
      (prefix-AreNot expanded)
      (All-append (λ (c : ℕ). (c == b'%') ≡ false) hi (b':' ∷ lo) (AreHex-AreNot b'%' hi refl h)
        (refl, AreHex-AreNot b'%' lo refl l))

behind-mapped : (expanded : Bool) (t : Text) → behind_mapped (prefix expanded ++ t) ≡ some t
unfolding behind_mapped
behind-mapped false t = refl
behind-mapped true t = refl

pair-AreNot : (hi lo : Text) → AreHex hi → AreHex lo → AreNot b'.' (hi ++ b':' ∷ lo)
unfolding AreNot
pair-AreNot hi lo h l =
    All-append (λ (c : ℕ). (c == b'.') ≡ false) hi (b':' ∷ lo) (AreHex-AreNot b'.' hi refl h)
      (refl, AreHex-AreNot b'.' lo refl l)

unmap_lem :
    (ip hi lo : Text)
    → AreHex hi
    → AreHex lo
    → is_group hi ≡ true
    → is_group lo ≡ true
    → unmap ip (some (hi ++ b':' ∷ lo)) ≡ from_words (hex_value 0 hi) (hex_value 0 lo)
unfolding unmap
unmap_lem ip hi lo h l g k =
    rw (dotted-AreNot (hi ++ b':' ∷ lo) (pair-AreNot hi lo h l))
      (rw (hex_pair_lem hi lo h l g k) refl)

normalize_ip-mapped :
    (brackets expanded : Bool) (clean : Text → Text) (raw hi lo : Text) (suffix : Option Text)
    → clean raw ≡ bracketed brackets (mapped expanded hi lo ++ zoned suffix)
    → AreHex hi
    → AreHex lo
    → is_group hi ≡ true
    → is_group lo ≡ true
    → normalize_ip clean raw ≡ from_words (hex_value 0 hi) (hex_value 0 lo)
unfolding normalize_ip
normalize_ip-mapped brackets expanded clean raw hi lo suffix e h l g k =
    let stripped : strip_zone (strip_brackets (clean raw)) ≡ mapped expanded hi lo =
      ap (λ (t : Text). strip_zone (strip_brackets t)) e
      ∙ ap strip_zone (strip_brackets-mapped brackets expanded hi lo suffix)
      ∙ strip_zone-AreNot (mapped expanded hi lo) suffix (mapped-AreNot expanded hi lo h l) in
    ap (λ (t : Text). unmap t (behind_mapped t)) stripped
    ∙ ap (unmap (mapped expanded hi lo)) (behind-mapped expanded (hi ++ b':' ∷ lo))
    ∙ unmap_lem (mapped expanded hi lo) hi lo h l g k

words_lem :
    (hi lo : ℕ)
    → hi < 65536
    → lo < 65536
    → address (hi / 256 % 256) (hi % 256) (lo / 256 % 256) (lo % 256) ≡ hi * 65536 + lo
words_lem hi lo h l = omega arith

-- An address of IPv4 in the form of IPv6, short or expanded, with its two last groups in hexadecimal, in
-- brackets or not and with a zone id or not, is private exactly when the number of the two groups is in
-- one of the nine blocks.
pub is_private_ip-mapped :
    (brackets expanded : Bool) (clean : Text → Text) (raw hi lo : Text) (suffix : Option Text)
    → clean raw ≡ bracketed brackets (mapped expanded hi lo ++ zoned suffix)
    → AreHex hi
    → AreHex lo
    → is_group hi ≡ true
    → is_group lo ≡ true
    → is_private_ip clean raw ≡ in_private_block (hex_value 0 hi * 65536 + hex_value 0 lo)
unfolding is_private_ip
is_private_ip-mapped brackets expanded clean raw hi lo suffix e h l g k =
    let x = hex_value 0 hi in
    let y = hex_value 0 lo in
    ap is_private_text (normalize_ip-mapped brackets expanded clean raw hi lo suffix e h l g k)
    ∙ is_private_text-octets (x / 256 % 256) (x % 256) (y / 256 % 256) (y % 256) (omega arith)
        (omega arith) (omega arith) (omega arith)
    ∙ ap in_private_block (words_lem x y (hex_value-lt hi h g) (hex_value-lt lo l k))
