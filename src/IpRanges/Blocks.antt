-- ===== src/IpRanges/Blocks.antt =====
-- The blocks of private IPv4 addresses in src/providers/ip-ranges.ts, as tests on octets and on 32-bit numbers.
use ai_model_arena.Common.{
  ℕ, zero, suc, ◌+◌, ◌*◌, ◌/◌, ◌<◌, ◌≡◌, refl, ◌∙◌, sym, ap, Bool, true, false, not, ◌&&◌, ◌||◌,
  ◌==◌, arith,
}
use ai_model_arena.IpRanges.{
  Text, codes, same_text, between, is_shared, is_16_to_31, is_benchmark, is_private_dotted, decimal,
}

abbrev pub address : ℕ → ℕ → ℕ → ℕ → ℕ
address a b c d = ((a * 256 + b) * 256 + c) * 256 + d

-- 0.0.0.0/8, 10.0.0.0/8, 100.64.0.0/10, 127.0.0.0/8, 169.254.0.0/16, 172.16.0.0/12, 192.0.0.0/24,
-- 192.168.0.0/16 and 198.18.0.0/15, each by the number that its addresses have above the free bits.
abbrev pub in_private_block : ℕ → Bool
in_private_block x =
    (x / 0x1000000 == 0)
    || ((x / 0x1000000 == 10)
        || ((x / 0x400000 == 401)
            || ((x / 0x1000000 == 127)
                || ((x / 0x10000 == 43518)
                    || ((x / 0x100000 == 2753)
                        || ((x / 0x100 == 12582912)
                            || ((x / 0x10000 == 49320) || (x / 0x20000 == 25353))))))))

-- The same by octets.
abbrev private_octets : ℕ → ℕ → ℕ → Bool
private_octets a b c =
    (a == 0)
    || ((a == 10)
        || (((a == 100) && between 64 127 b)
            || ((a == 127)
                || (((a == 169) && (b == 254))
                    || (((a == 172) && between 16 31 b)
                        || (((a == 192) && ((b == 0) && (c == 0)))
                            || (((a == 192) && (b == 168)) || ((a == 198) && between 18 19 b))))))))

all_below : ℕ → (ℕ → Bool) → Bool
all_below zero p = true
all_below (suc n) p = p n && all_below n p

all_below_sound : (n x : ℕ) (p : ℕ → Bool) → all_below n p ≡ true → x < n → p x ≡ true
unfolding all_below
all_below_sound zero x p h lt = absurd (omega arith)
all_below_sound (suc n) x p h lt = ground (arith, all_below_sound n x p)

abbrev same_bool : Bool → Bool → Bool
same_bool true b = b
same_bool false b = not b

same_bool_eq : (a b : Bool) → same_bool a b ≡ true → a ≡ b
same_bool_eq true b h = sym h
same_bool_eq false true h = cc
same_bool_eq false false h = refl

-- Two tests that agree on every octet.
agree :
    (f g : ℕ → Bool)
    → all_below 256 (λ n. same_bool (f n) (g n)) ≡ true
    → (n : ℕ) → n < 256
    → f n ≡ g n
agree f g h n lt =
    same_bool_eq (f n) (g n) (all_below_sound 256 n (λ k. same_bool (f k) (g k)) h lt)

-- The decimal texts of two octets are the same for the same octet only.
decimal_table :
    all_below 256 (λ k. all_below 256 (λ n. same_bool (same_text (decimal n) (decimal k)) (n == k)))
    ≡ true
unfolding same_text decimal all_below
decimal_table = refl

same_text-decimal : (n k : ℕ) → n < 256 → k < 256 → same_text (decimal n) (decimal k) ≡ (n == k)
same_text-decimal n k h l =
    agree (λ m. same_text (decimal m) (decimal k)) (λ m. m == k)
      (all_below_sound 256 k
        (λ j. all_below 256 (λ m. same_bool (same_text (decimal m) (decimal j)) (m == j)))
        decimal_table l)
      n h

is_octet :
    (n k : ℕ) (t : Text) → n < 256 → k < 256 → decimal k ≡ t → same_text (decimal n) t ≡ (n == k)
is_octet n k t h l e = ap (same_text (decimal n)) (sym e) ∙ same_text-decimal n k h l

module _ (n : ℕ) (h : n < 256) where
  is_shared_lem : is_shared (decimal n) ≡ between 64 127 n
  unfolding is_shared decimal all_below
  is_shared_lem = agree (λ k. is_shared (decimal k)) (between 64 127) refl n h

  is_16_to_31_lem : is_16_to_31 (decimal n) ≡ between 16 31 n
  unfolding is_16_to_31 decimal all_below
  is_16_to_31_lem = agree (λ k. is_16_to_31 (decimal k)) (between 16 31) refl n h

  is_benchmark_lem : is_benchmark (decimal n) ≡ between 18 19 n
  unfolding is_benchmark decimal all_below
  is_benchmark_lem = agree (λ k. is_benchmark (decimal k)) (between 18 19) refl n h

pub is_private_dotted_lem :
    (a b c : ℕ) (d : Text)
    → a < 256
    → b < 256
    → c < 256
    → is_private_dotted (record { a = decimal a; b = decimal b; c = decimal c; d = d })
      ≡ private_octets a b c
unfolding is_private_dotted
is_private_dotted_lem a b c d ha hb hc =
    rw
      (
        is_octet a 0 (codes "0") ha (omega arith) (unfold decimal in refl),
        is_octet a 10 (codes "10") ha (omega arith) (unfold decimal in refl),
        is_octet a 100 (codes "100") ha (omega arith) (unfold decimal in refl),
        is_octet a 127 (codes "127") ha (omega arith) (unfold decimal in refl),
        is_octet a 169 (codes "169") ha (omega arith) (unfold decimal in refl),
        is_octet a 172 (codes "172") ha (omega arith) (unfold decimal in refl),
        is_octet a 192 (codes "192") ha (omega arith) (unfold decimal in refl),
        is_octet a 198 (codes "198") ha (omega arith) (unfold decimal in refl),
        is_octet b 0 (codes "0") hb (omega arith) (unfold decimal in refl),
        is_octet b 168 (codes "168") hb (omega arith) (unfold decimal in refl),
        is_octet b 254 (codes "254") hb (omega arith) (unfold decimal in refl),
        is_octet c 0 (codes "0") hc (omega arith) (unfold decimal in refl),
        is_shared_lem b hb,
        is_16_to_31_lem b hb,
        is_benchmark_lem b hb,
      )
      refl

pub private_octets_lem :
    (a b c d : ℕ)
    → a < 256
    → b < 256
    → c < 256
    → d < 256
    → private_octets a b c ≡ in_private_block (address a b c d)
private_octets_lem a b c d ha hb hc hd =
    let x = address a b c d in
    let by_8 : x / 0x1000000 ≡ a = omega arith in
    let b10 : (x / 0x400000 == 401) ≡ ((a == 100) && between 64 127 b) = ground arith in
    let b16 : (x / 0x10000 == 43518) ≡ ((a == 169) && (b == 254)) = ground arith in
    let b12 : (x / 0x100000 == 2753) ≡ ((a == 172) && between 16 31 b) = ground arith in
    let b24 : (x / 0x100 == 12582912) ≡ ((a == 192) && ((b == 0) && (c == 0))) = ground arith in
    let b17 : (x / 0x10000 == 49320) ≡ ((a == 192) && (b == 168)) = ground arith in
    let b15 : (x / 0x20000 == 25353) ≡ ((a == 198) && between 18 19 b) = ground arith in
    rw (by_8, b10, b16, b12, b24, b17, b15) refl
