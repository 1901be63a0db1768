-- ===== src/Types/Str/Ends.antt =====
-- modules/std/core/str.cc, `startsWith` and `endsWith`.
use clever.Prelude.{
  ℕ, suc, ◌+◌, ◌-◌, ◌≤◌, ◌<◌, ◌%◌, ◌^◌, ◌≡◌, ◌≢◌, refl, ap, ◌∙◌, Bool, true, false, ◌&&◌, ◌||◌,
  Option, none, some, [], ◌∷◌, length, drop, leb, ◌==◌, All, Option-cases, Bool-cases, inl, inr,
  arith,
}
use clever.Types.Int.{word}
use clever.Types.Text.{Bytes, or_npos, is_prefix, is_same, search_last}
use clever.Types.Str.Methods.{ends_with}
use clever.Types.Str.Parts.{c_str-plain}

-- The text ends with the needle.
abbrev pub is_suffix : Bytes → Bytes → Bool
is_suffix needle s =
    leb (length needle) (length s) && is_same (drop (length s - length needle) s) needle

abbrev found_at : ℕ → Option ℕ → Bool
found_at k none = false
found_at k (some i) = i == k

is_prefix-long : (needle s : Bytes) → length s < length needle → is_prefix needle s ≡ false
unfolding is_prefix
is_prefix-long [] s h = absurd (omega arith)
is_prefix-long (d ∷ needle) [] h = refl
is_prefix-long (d ∷ needle) (c ∷ s) h = ground (arith, is_prefix-long needle s)

is_prefix-is_same :
    (needle s : Bytes) → length s ≡ length needle → is_prefix needle s ≡ is_same s needle
unfolding is_prefix is_same
is_prefix-is_same [] [] h = refl
is_prefix-is_same [] (c ∷ s) h = absurd (omega arith)
is_prefix-is_same (d ∷ needle) [] h = absurd (omega arith)
is_prefix-is_same (d ∷ needle) (c ∷ s) h = ground (arith, is_prefix-is_same needle s)

search_last-long : (needle s : Bytes) → length s < length needle → search_last needle s ≡ none
unfolding search_last
search_last-long needle [] h = rw (is_prefix-long needle [] h)
search_last-long needle (c ∷ s) h =
    rw (search_last-long needle s (omega arith), is_prefix-long needle (c ∷ s) h)

search_last-bound : (needle s : Bytes) (i : ℕ) → search_last needle s ≡ some i → i ≤ length s
unfolding search_last
search_last-bound needle [] i h = ground arith
search_last-bound needle (c ∷ s) i h = elim (Option-cases (search_last needle s)) [
  | inl nowhere ↦ ground (arith, nowhere)
  | inr (j, found) ↦ ground (arith, found, search_last-bound needle s j found)
]

drop-later :
    (needle : Bytes) (c : ℕ) (s : Bytes)
    → length needle ≤ length s
    → drop (length (c ∷ s) - length needle) (c ∷ s) ≡ drop (length s - length needle) s
drop-later needle c s h =
    ap (λ n. drop n (c ∷ s)) {y = suc (length s - length needle)} (omega arith)

drop_nothing :
    (needle : Bytes) (c : ℕ) (s : Bytes)
    → length needle ≡ length (c ∷ s)
    → drop (length (c ∷ s) - length needle) (c ∷ s) ≡ c ∷ s
drop_nothing needle c s h = ap (λ n. drop n (c ∷ s)) {y = 0} (omega arith)

found_at-search_last :
    (needle s : Bytes)
    → length needle ≤ length s
    → found_at (length s - length needle) (search_last needle s)
      ≡ is_same (drop (length s - length needle) s) needle
unfolding search_last is_prefix is_same
found_at-search_last [] [] h = refl
found_at-search_last (d ∷ needle) [] h = absurd (omega arith)
found_at-search_last needle (c ∷ s) h = elim (Bool-cases (leb (length needle) (length s))) [
  | inl fits ↦ ground (arith, fits, drop-later needle c s, found_at-search_last needle s)
  | inr whole ↦ ground (
    arith,
    whole,
    drop_nothing needle c s,
    search_last-long needle s,
    is_prefix-is_same needle (c ∷ s),
  )
]

-- The text ends with the needle, or the needle is one byte longer than the text.
abbrev pub reported : Bytes → Bytes → Bool
reported needle s = is_suffix needle s || length needle == length s + 1

module _ (needle s : Bytes) (small : length needle < 2 ^ 63) (small_text : length s < 2 ^ 63) where
  ends_with_fits :
      leb (length needle) (length s) ≡ true
      → (or_npos (search_last needle s) == (length s + (word - length needle)) % word)
        ≡ reported needle s
  ends_with_fits fits = elim (Option-cases (search_last needle s)) [
    | inl nowhere ↦ ground (arith, nowhere, fits, found_at-search_last needle s)
    | inr (i, found) ↦ ground (arith, found, fits, found_at-search_last needle s)
  ]

  ends_with_long :
      leb (length needle) (length s) ≡ false
      → (or_npos (search_last needle s) == (length s + (word - length needle)) % word)
        ≡ reported needle s
  ends_with_long long = ground (arith, long, search_last-long needle s)

-- `endsWith` says yes exactly if the text ends with the needle or the needle is one byte longer than the
-- text, whatever its bytes, for a needle without null bytes and lengths below 2 ^ 63.
pub ends_with-reported :
    (needle s : Bytes)
    → All (λ c. c ≢ 0) needle
    → length needle < 2 ^ 63
    → length s < 2 ^ 63
    → ends_with needle s ≡ reported needle s
unfolding ends_with
ends_with-reported needle s plain small small_text =
    ap (λ t. or_npos (search_last t s) == (length s + (word - length needle)) % word)
      (c_str-plain needle plain)
    ∙ (elim (Bool-cases (leb (length needle) (length s))) [
      | inl fits ↦ ends_with_fits needle s small small_text fits
      | inr long ↦ ends_with_long needle s small small_text long
    ])
