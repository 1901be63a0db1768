-- ===== src/Types/Str/Tests.antt =====
-- modules/std/core/str.cc on short texts.
use clever.Prelude.{◌≡◌, refl, false, [], ◌∷◌, codes, arith, zero, suc, ◌-◌, ◌^◌}
use clever.Store.{bool, int, obj}
use clever.Types.Args.{TypeNumbers}
use clever.Types.Text.{Bytes}
use clever.Types.Str.{
  done, thrown, crashed, left_alone, value, text, array, Texts, str_at_op, str_add, str_less,
}
use clever.Types.Str.Methods.{
  without_front, without_back, ends_with, str_find, str_find_last, str_ends_with, str_starts_with,
  str_sub_string, str_replace, str_set_char, str_char_at,
}
use clever.Types.Str.Scan.{split, str_split, str_format}
use clever.Types.Str.Parts.{join, join-split}
use clever.Types.Str.Ends.{reported, ends_with-reported}
use clever.Types.Str.Trimmed.{IsTrimmed, trim-IsTrimmed}

abbrev test_types : TypeNumbers
test_types = record { str_type = 2; double_type = 1; array_type = 3; map_type = 4; this_type = 2 }

abbrev objects : Texts
objects = record {
  bytes_of = λ o. elim o [
    | zero ↦ codes ", "
    | suc n ↦ elim n [ zero ↦ codes "b" | suc m ↦ codes "abcd" ]
  ];
  double_text = λ o. codes "0.5";
}

abbrev listing : Bytes
listing = codes "a, b, c"

split_test :
    str_split test_types objects (obj 2 0 ∷ int 1 ∷ []) listing
    ≡ done listing (array (codes "a" ∷ codes "b, c" ∷ []))
unfolding str_split
split_test = refl

find_test : str_find test_types objects (obj 2 1 ∷ []) listing ≡ done listing (value (int 3))
unfolding str_find
find_test = refl

find_last_test :
    str_find_last test_types objects (obj 2 1 ∷ []) listing ≡ done listing (value (int 3))
unfolding str_find_last
find_last_test = refl

-- A needle that is one byte longer than the text.
ends_with_test :
    str_ends_with test_types objects (obj 2 2 ∷ []) (codes "xyz")
    ≡ done (codes "xyz") (value (int 1))
unfolding str_ends_with
ends_with_test = refl

starts_with_test :
    str_starts_with test_types objects (obj 2 1 ∷ []) (codes "bc")
    ≡ done (codes "bc") (value (int 1))
unfolding str_starts_with
starts_with_test = refl

sub_string_test : str_sub_string test_types objects (int 8 ∷ []) listing ≡ crashed
unfolding str_sub_string
sub_string_test = refl

at_end_test : str_at_op listing (int 7) ≡ crashed
unfolding str_at_op
at_end_test = refl

add_test : str_add test_types objects (codes "n") (int (2 ^ 64 - 12)) ≡ text (codes "n-12")
unfolding str_add
add_test = refl

less_test : str_less test_types objects (codes "abd") (obj 2 2) ≡ value (bool false)
unfolding str_less
less_test = refl

replace_test :
    str_replace test_types objects (obj 2 0 ∷ obj 2 2 ∷ []) listing
    ≡ done listing (text (codes "aabcdb, c"))
unfolding str_replace
replace_test = refl

set_char_test :
    str_set_char test_types objects (int 5 ∷ obj 2 2 ∷ []) listing
    ≡ done (codes "a, b,ab") left_alone
unfolding str_set_char
set_char_test = refl

char_at_test : str_char_at test_types objects (int (2 ^ 64 - 1) ∷ []) listing ≡ thrown
unfolding str_char_at
char_at_test = refl

format_test :
    str_format test_types
      (record objects { bytes_of = λ o. codes "<\\1>\\2\\x" })
      (λ v. codes "one")
      (obj 2 0 ∷ int 1 ∷ [])
      []
    ≡ done [] (text (codes "<one>\\x"))
unfolding str_format
format_test = refl

join-split_example : join (codes ", ") (split (codes ", ") 1 listing) ≡ listing
join-split_example = join-split (codes ", ") 1 listing (omega arith)

ends_with-reported_example :
    ends_with (codes "abcd") (codes "xyz") ≡ reported (codes "abcd") (codes "xyz")
ends_with-reported_example =
    ends_with-reported (codes "abcd") (codes "xyz") (omega arith) (omega arith) (omega arith)

trim-IsTrimmed_example :
    IsTrimmed (codes " \ta b\n") (without_back (without_front (codes " \ta b\n")))
trim-IsTrimmed_example = trim-IsTrimmed (codes " \ta b\n")
