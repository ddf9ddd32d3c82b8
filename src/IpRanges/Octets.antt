-- ===== src/IpRanges/Octets.antt =====
-- The texts of IPv4 addresses that src/providers/ip-ranges.ts calls private.
use ai_model_arena.Common.{
  ℕ, ◌+◌, ◌/◌, ◌%◌, ◌<◌, ◌≡◌, refl, ◌∙◌, ap, subst, inl, inr, Bool, true, false, some, [], ◌∷◌,
  ◌++◌, ltb, ◌==◌, All, arith, Bool-cases,
}
use ai_model_arena.IpRanges.{
  Text, same_text, is_digit, digits, dotted_part, last_part, dotted, is_local_v6, is_private_v6,
  is_private_v4, is_private_text, decimal, octets,
}
use ai_model_arena.IpRanges.Blocks.{
  address, in_private_block, is_private_dotted_lem, private_octets_lem,
}

-- Digits, and what stands behind them.
AreDigits : Text → Type 0
AreDigits = All (λ (c : ℕ). is_digit c ≡ true)

decimal-AreDigits : (n : ℕ) → n < 256 → AreDigits (decimal n)
unfolding AreDigits decimal
decimal-AreDigits n h = elim (Bool-cases (ltb n 10)) [
  | inl e ↦ rw e (ground arith, tt)
  | inr e ↦ rw e (elim (Bool-cases (ltb n 100)) [
    | inl k ↦ rw k (ground arith, (ground arith, tt))
    | inr k ↦ rw k (ground arith, (ground arith, (ground arith, tt)))
  ])
]

digits-append :
    (ds rest : Text) (c : ℕ)
    → AreDigits ds
    → is_digit c ≡ false
    → digits (ds ++ c ∷ rest) ≡ (ds, c ∷ rest)
unfolding AreDigits digits
digits-append [] rest c h k = rw k refl
digits-append (d ∷ ds) rest c (e, h) k = rw (e, digits-append ds rest c h k) refl

digits_all : (ds : Text) → AreDigits ds → digits ds ≡ (ds, [])
unfolding AreDigits digits
digits_all [] h = refl
digits_all (d ∷ ds) (e, h) = rw (e, digits_all ds h) refl

decimal_cons : (n : ℕ) → (x : ℕ) × (t : Text) × (decimal n ≡ x ∷ t)
unfolding decimal
decimal_cons n = elim (Bool-cases (ltb n 10)) [
  | inl e ↦ rw e (b'0' + n, [], refl)
  | inr e ↦ rw e (elim (Bool-cases (ltb n 100)) [
    | inl k ↦ rw k (b'0' + n / 10, (b'0' + n % 10) ∷ [], refl)
    | inr k ↦ rw k (b'0' + n / 100, (b'0' + n / 10 % 10) ∷ (b'0' + n % 10) ∷ [], refl)
  ])
]

dotted_part-decimal :
    (n : ℕ) (rest : Text)
    → n < 256
    → dotted_part (digits (decimal n ++ b'.' ∷ rest)) ≡ some (decimal n, rest)
dotted_part-decimal n rest h =
    let (x, t, e) = decimal_cons n in
    ap dotted_part (digits-append (decimal n) rest b'.' (decimal-AreDigits n h) refl) ∙ rw e refl

last_part-decimal : (n : ℕ) → n < 256 → last_part (digits (decimal n)) ≡ some (decimal n)
last_part-decimal n h =
    let (x, t, e) = decimal_cons n in
    ap last_part (digits_all (decimal n) (decimal-AreDigits n h)) ∙ rw e refl

dotted-octets :
    (a b c d : ℕ)
    → a < 256
    → b < 256
    → c < 256
    → d < 256
    → dotted (octets a b c d)
      ≡ some (record { a = decimal a; b = decimal b; c = decimal c; d = decimal d })
unfolding dotted
dotted-octets a b c d ha hb hc hd =
    rw (dotted_part-decimal a (decimal b ++ b'.' ∷ (decimal c ++ b'.' ∷ decimal d)) ha, dotted)
      (rw (dotted_part-decimal b (decimal c ++ b'.' ∷ decimal d) hb)
        (rw (dotted_part-decimal c (decimal d) hc) (rw (last_part-decimal d hd) refl)))

is_local_v6-digit : (c : ℕ) (t : Text) → is_digit c ≡ true → is_local_v6 (c ∷ t) ≡ false
unfolding is_local_v6
is_local_v6-digit c [] h = refl
is_local_v6-digit c (w ∷ []) h = refl
is_local_v6-digit c (w ∷ x ∷ []) h = refl
is_local_v6-digit c (w ∷ x ∷ y ∷ []) h = refl
is_local_v6-digit c (w ∷ x ∷ y ∷ z ∷ t) h =
    let other : (c == b'f') ≡ false = ground arith in rw other refl

is_private_v6-digit : (c : ℕ) (t : Text) → is_digit c ≡ true → is_private_v6 (c ∷ t) ≡ false
unfolding is_private_v6 same_text
is_private_v6-digit c t h =
    let other : (c == b':') ≡ false = ground arith in rw (other, is_local_v6-digit c t h) refl

is_private_v6-octets : (n : ℕ) (t : Text) → n < 256 → is_private_v6 (decimal n ++ t) ≡ false
is_private_v6-octets n t h =
    let (x, ds, e) = decimal_cons n in
    let all : AreDigits (x ∷ ds) = subst AreDigits e (decimal-AreDigits n h) in
    ap (λ (s : Text). is_private_v6 (s ++ t)) e
    ∙ is_private_v6-digit x (ds ++ t) (unfold AreDigits in all.0)

is_private_text-parts :
    (t : Text) (b : Bool)
    → is_private_v4 (dotted t) ≡ b
    → is_private_v6 t ≡ false
    → is_private_text t ≡ b
unfolding is_private_text
is_private_text-parts t true h k = rw h refl
is_private_text-parts t false h k = rw h k

-- The text of an IPv4 address is private exactly when the address is in one of the nine blocks.
pub is_private_text-octets :
    (a b c d : ℕ)
    → a < 256
    → b < 256
    → c < 256
    → d < 256
    → is_private_text (octets a b c d) ≡ in_private_block (address a b c d)
is_private_text-octets a b c d ha hb hc hd =
    is_private_text-parts (octets a b c d) (in_private_block (address a b c d))
      (ap is_private_v4 (dotted-octets a b c d ha hb hc hd)
        ∙ is_private_dotted_lem a b c (decimal d) ha hb hc
        ∙ private_octets_lem a b c d ha hb hc hd)
      (is_private_v6-octets a (b'.' ∷ (decimal b ++ b'.' ∷ (decimal c ++ b'.' ∷ decimal d))) ha)
