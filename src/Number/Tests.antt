-- ===== src/Number/Tests.antt =====
-- Numbers read from concrete texts.
use openstreetmap_cgimap.Prelude.{◌≡◌, refl, [], ◌∷◌, ◌++◌, ℕ-Eq, String-Eq}
use openstreetmap_cgimap.Prelude.Int.{negsuc, ℤ-Eq, IsInt64}
use openstreetmap_cgimap.Types.{ObjectType-Eq, Pair-Eq}
use openstreetmap_cgimap.Number.{from_chars_int64, from_chars_int64_rest, from_chars_int64-IsInt64}
use openstreetmap_cgimap.Double.{parsed, result_out_of_range}
use openstreetmap_cgimap.Prelude.Text.{codes}

smallest : from_chars_int64 (codes "-9223372036854775808") ≡ parsed (negsuc 9223372036854775807)
unfolding from_chars_int64
smallest = refl

one_too_many : from_chars_int64 (codes "9223372036854775808") ≡ result_out_of_range
unfolding from_chars_int64
one_too_many = refl

ignores_the_rest :
    from_chars_int64 ((b'1' ∷ b'2' ∷ []) ++ codes "abc") ≡ from_chars_int64 (b'1' ∷ b'2' ∷ [])
ignores_the_rest = from_chars_int64_rest b'1' (b'2' ∷ []) (codes "abc") refl refl

minus_seven : from_chars_int64 (codes "-7") ≡ parsed (negsuc 6)
unfolding from_chars_int64
minus_seven = refl

minus_seven-IsInt64 : IsInt64 (negsuc 6)
minus_seven-IsInt64 = from_chars_int64-IsInt64 (codes "-7") (negsuc 6) minus_seven
