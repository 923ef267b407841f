-- ===== src/Units/Amount/Parse.antt =====
-- Decimal strings with a sign and a point, as units/src/amount.rs reads them in the larger units.
use rust_dogecoin.Common.{
  ℕ, suc, ◌≡◌, ◌≤◌, ◌<◌, ◌-◌, ◌*◌, ◌^◌, List, [], ◌∷◌, ◌++◌, Bool, true, false, length, leb, ◌==◌,
  refl, arith, ◌∙◌, All, if◌then◌else◌, le→ltb-false,
}
use rust_dogecoin.Common.Int.{negsuc}
use rust_dogecoin.Common.Results.{ok, err}
use rust_dogecoin.Units.Amount.{
  Denomination, overflow, precision, parse_unsigned, parse_signed_to_satoshi,
}
use rust_dogecoin.Units.Amount.Decimal.{
  IsDigit, decimal, pointed, parse_digits-pointed, parse_digits_whole,
}

-- A string with its sign.
abbrev pub signed : Bool → List ℕ → List ℕ
signed true s = b'-' ∷ s
signed false s = s

digit_first : (c : ℕ) → IsDigit c → (c == b'-') ≡ false
digit_first c h = ground arith

-- A string that is not empty and does not start with a minus sign, with its sign, is read after it.
parse_signed_lem :
    (neg : Bool) (denom : Denomination) (c : ℕ) (s : List ℕ)
    → (c == b'-') ≡ false
    → length (signed neg (c ∷ s)) ≤ 50
    → parse_signed_to_satoshi (signed neg (c ∷ s)) denom ≡ parse_unsigned neg denom (c ∷ s)
unfolding parse_signed_to_satoshi
parse_signed_lem false denom c s h k = rw (h, le→ltb-false 50 (length (c ∷ s)) k) refl
parse_signed_lem true denom c s h k =
    let more : (length (c ∷ s) == 0) ≡ false = ground arith in
    rw (le→ltb-false 50 (length (b'-' ∷ c ∷ s)) k, more) refl

-- In a unit larger than a satoshi, a string of at most 50 characters, of digits with a point after
-- some of them, with or without a minus sign, and with no more decimals than the unit has, is read
-- as the number that it writes, in satoshis, or as an overflow where it is 2^64 or more.
pub parse_signed_to_satoshi_lem :
    (neg : Bool) (denom : Denomination) (k : ℕ) (whole frac : List ℕ)
    → precision denom ≡ negsuc k
    → All IsDigit whole
    → All IsDigit frac
    → length frac ≤ suc k
    → length (signed neg (pointed whole frac)) ≤ 50
    → parse_signed_to_satoshi (signed neg (pointed whole frac)) denom ≡ (
        if leb (2 ^ 64) (decimal 0 (whole ++ frac) * 10 ^ (suc k - length frac))
        then err (overflow neg)
        else ok (neg, decimal 0 (whole ++ frac) * 10 ^ (suc k - length frac)))
unfolding parse_unsigned
parse_signed_to_satoshi_lem neg denom k whole frac unit a b short len =
    starts whole a len
    ∙ rw (parse_unsigned, unit)
        (parse_digits-pointed neg (suc k) whole frac (omega arith) a b short)
  where
    starts :
        (whole : List ℕ)
        → All IsDigit whole
        → length (signed neg (pointed whole frac)) ≤ 50
        → parse_signed_to_satoshi (signed neg (pointed whole frac)) denom
          ≡ parse_unsigned neg denom (pointed whole frac)
    starts [] a len = parse_signed_lem neg denom b'.' frac refl len
    starts (c ∷ s) (p, a) len =
        parse_signed_lem neg denom c (s ++ b'.' ∷ frac) (digit_first c p) len

-- Digits without a point, in the same units.
pub parse_whole_lem :
    (denom : Denomination) (k : ℕ) (whole : List ℕ)
    → precision denom ≡ negsuc k
    → All IsDigit whole
    → 0 < length whole
    → length whole ≤ 50
    → parse_signed_to_satoshi whole denom ≡ (
        if leb (2 ^ 64) (decimal 0 whole * 10 ^ suc k)
        then err (overflow false)
        else ok (false, decimal 0 whole * 10 ^ suc k))
unfolding parse_unsigned
parse_whole_lem denom k [] unit a start len = absurd (omega (arith, start))
parse_whole_lem denom k (c ∷ s) unit (p, a) start len =
    parse_signed_lem false denom c s (digit_first c p) len
    ∙ rw (parse_unsigned, unit) (parse_digits_whole false (suc k) (c ∷ s) (p, a))
