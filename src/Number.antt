-- ===== src/Number.antt =====
-- `std::from_chars` for `int64_t`, as the program uses it: the longest prefix that is a number.
-- What follows the number is not looked at.
mod Tests
use openstreetmap_cgimap.Double.{result_out_of_range, invalid_argument, parsed, FromChars}
use openstreetmap_cgimap.Prelude.{
  ℕ, ◌+◌, ◌-◌, ◌*◌, ◌^◌, ◌≡◌, refl, Bool, true, false, ◌&&◌, List, [], ◌∷◌, ◌++◌, arith, ltb, leb,
  eqb, if◌then◌else◌, ℕ-Eq, String-Eq,
}
use openstreetmap_cgimap.Prelude.Int.{sub_ℕ, ℤ, pos, ℤ-Eq, IsInt64}
use openstreetmap_cgimap.Types.{ObjectType-Eq, Pair-Eq}

abbrev pub is_digit : ℕ → Bool
is_digit c = leb b'0' c && leb c b'9'

-- The value of the digits that a text begins with, after the digits read so far.
unfoldable pub digits_from : ℕ → List ℕ → ℕ
digits_from acc [] = acc
digits_from acc (c ∷ cs) =
    let rest = digits_from (acc * 10 + (c - b'0')) cs in if is_digit c then rest else acc

abbrev pub starts_with_digit : List ℕ → Bool
starts_with_digit [] = false
starts_with_digit (c ∷ cs) = is_digit c

abbrev pub in_range : Bool → ℤ → FromChars ℤ
in_range b z = if b then parsed z else result_out_of_range

unfoldable pub from_chars_unsigned : List ℕ → FromChars ℤ
unfolding digits_from
from_chars_unsigned cs =
    if starts_with_digit cs
    then in_range (ltb (digits_from 0 cs) (2 ^ 63)) (pos (digits_from 0 cs))
    else invalid_argument

unfoldable pub from_chars_negative : List ℕ → FromChars ℤ
unfolding digits_from
from_chars_negative cs =
    if starts_with_digit cs
    then in_range (leb (digits_from 0 cs) (2 ^ 63)) (sub_ℕ 0 (digits_from 0 cs))
    else invalid_argument

unfoldable pub from_chars_int64 : List ℕ → FromChars ℤ
unfolding from_chars_unsigned from_chars_negative
from_chars_int64 [] = invalid_argument
from_chars_int64 (c ∷ cs) =
    if eqb c b'-' then from_chars_negative cs else from_chars_unsigned (c ∷ cs)

digits_from_rest :
    (acc : ℕ) (cs junk : List ℕ)
    → starts_with_digit junk ≡ false
    → digits_from acc (cs ++ junk) ≡ digits_from acc cs
unfolding digits_from
digits_from_rest acc [] [] h = refl
digits_from_rest acc [] (c ∷ junk) h = ground arith
digits_from_rest acc (c ∷ cs) junk h =
    ground (arith, digits_from_rest (acc * 10 + (c - b'0')) cs junk)

-- Where a text begins with a digit, what follows its digits does not change the number that is
-- read, and is no error. The condition is that what is added does not begin with a digit.
pub from_chars_int64_rest :
    (c : ℕ) (cs junk : List ℕ)
    → is_digit c ≡ true
    → starts_with_digit junk ≡ false
    → from_chars_int64 ((c ∷ cs) ++ junk) ≡ from_chars_int64 (c ∷ cs)
unfolding from_chars_int64
from_chars_int64_rest c cs junk d h = ground (arith, digits_from_rest 0 (c ∷ cs) junk h)

-- A number that is read is an `int64_t`.
pub from_chars_int64-IsInt64 : (cs : List ℕ) (z : ℤ) → from_chars_int64 cs ≡ parsed z → IsInt64 z
unfolding from_chars_int64
from_chars_int64-IsInt64 [] z h = cc
from_chars_int64-IsInt64 (c ∷ cs) z h = ground arith
