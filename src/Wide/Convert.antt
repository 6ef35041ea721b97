-- ===== src/Wide/Convert.antt =====
-- The conversions of src/strutil.cpp. Characters of `std::string` are bytes; the C library's tests on
-- single characters are parameters.
use wibo.Base.{
  ℕ, zero, suc, ◌+◌, ◌-◌, ◌%◌, ◌^◌, List, [], ◌∷◌, map, ◌&&◌, Option, none, some, ltb, leb, ◌==◌,
  if◌then◌else◌, not, length, get_elem?,
}
use wibo.Base.Int.{ℤ, pos, negsuc}
use wibo.Wide.Cells.{Cells, wstrlen, scan_length}

-- `wcharToLower`, with `towlower`
unfoldable pub wchar_to_lower : (ℕ → ℕ) → ℕ → ℕ
wchar_to_lower towlower ch =
    if leb b'A' ch && leb ch b'Z'
    then (ch + 32) % 2 ^ 16
    else if ltb 0xFFFF (towlower ch)
    then ch
    else towlower ch

-- `wcharToUpper`, with `towupper`
unfoldable pub wchar_to_upper : (ℕ → ℕ) → ℕ → ℕ
wchar_to_upper towupper ch =
    if leb b'a' ch && leb ch b'z'
    then ch - 32
    else if ltb 0xFFFF (towupper ch)
    then ch
    else towupper ch

-- `toLowerInPlace` and `stringToLower`, with `tolower`, whose result is cast to a byte.
unfoldable pub string_to_lower : (ℕ → ℕ) → List ℕ → List ℕ
string_to_lower tolower str = map (λ c. tolower c % 256) str

-- `toUpperInPlace` and `stringToUpper`
unfoldable pub string_to_upper : (ℕ → ℕ) → List ℕ → List ℕ
string_to_upper toupper str = map (λ c. toupper c % 256) str

-- The loop of `wideStringToString`.
unfoldable pub narrow_n : Cells → ℕ → Option (List ℕ)
narrow_n src zero = some []
narrow_n [] (suc n) = none
narrow_n (c ∷ src) (suc n) = elim (narrow_n src n) [ none ↦ none | some cs ↦ some (c % 256 ∷ cs) ]

-- `wideStringToString`; a negative length asks for the string up to its terminator.
unfoldable pub wide_string_to_string : Option Cells → ℤ → Option (List ℕ)
wide_string_to_string none len = some []
wide_string_to_string (some src) (pos n) = narrow_n src n
wide_string_to_string (some src) (negsuc _) = elim (wstrlen (some src)) [
  | none ↦ none
  | some n ↦ narrow_n src n
]

-- The loop of `stringToWideString` and the terminator.
unfoldable pub widen_n : List ℕ → ℕ → Option Cells
widen_n src zero = some (0 ∷ [])
widen_n [] (suc n) = none
widen_n (c ∷ src) (suc n) = elim (widen_n src n) [ none ↦ none | some cs ↦ some (c ∷ cs) ]

-- `stringToWideString`; `none` as the length is (size_t)-1, which asks for `strlen`.
unfoldable pub string_to_wide_string : Option (List ℕ) → Option ℕ → Option Cells
string_to_wide_string none length = some (0 ∷ [])
string_to_wide_string (some src) (some n) = widen_n src n
string_to_wide_string (some src) none = elim (scan_length src) [
  | none ↦ none
  | some n ↦ widen_n src n
]

-- `stringToUtf16`
unfoldable pub string_to_utf16 : List ℕ → List ℕ
string_to_utf16 str = map (λ c. c) str

-- The character at an offset of a `std::string`, whose text is followed by a zero.
abbrev pub char_at : List ℕ → ℕ → ℕ
char_at text i = elim (get_elem? text i) [ none ↦ 0 | some c ↦ c ]

-- The end pointer of `wstrtol` as an offset, from the offset where `strtol` stopped.
unfoldable pub end_offset : List ℕ → ℕ → ℕ
end_offset text stopped = if not (char_at text stopped == 0) then stopped else length text

-- `wstrtol` and `wstrtoul` with the C library's `strtol` or `strtoul`, which answers the value and the
-- offset where it stopped; the end pointer is an offset, `none` for null.
unfoldable pub wstrtol : (List ℕ → ℕ → ℤ × ℕ) → Option Cells → ℕ → Option (ℤ × Option ℕ)
wstrtol strtol none base = some (pos 0, none)
wstrtol strtol (some str) base = elim (wide_string_to_string (some str) (negsuc 0)) [
  | none ↦ none
  | some text ↦ some ((strtol text base).0, some (end_offset text (strtol text base).1))
]
