-- ===== src/Wide/Tests.antt =====
-- Runs of the routines on wide strings.
use wibo.Base.{ℕ, ◌+◌, ◌≡◌, refl, List, [], ◌∷◌, ◌++◌, Option, none, some, arith, min, length}
use wibo.Base.Int.{pos, negsuc}
use wibo.Wide.Cells.{Cells, wstrncmp}
use wibo.Wide.Search.{wstrstr}
use wibo.Wide.Copy.{wstrncpy, wstrcat}
use wibo.Wide.Convert.{string_to_wide_string, wide_string_to_string}
use wibo.Wide.Text.{text, First, IsText}
use wibo.Wide.First.{wstrstr-First}
use wibo.Wide.Copied.{
  Copied, wstrncpy-Copied, wstrcat-text, wide_string_to_string-string_to_wide_string,
}

abbrev banana : List ℕ
banana = b'b' ∷ (b'a' ∷ (b'n' ∷ (b'a' ∷ (b'n' ∷ (b'a' ∷ [])))))

abbrev nan : List ℕ
nan = b'n' ∷ (b'a' ∷ (b'n' ∷ []))

abbrev room : List ℕ
room = 1 ∷ (2 ∷ (3 ∷ (4 ∷ [])))

found_nan : wstrstr (text banana []) (text nan []) ≡ some (some 2)
unfolding wstrstr wibo.Wide.Search.find_from wibo.Wide.Search.matches
found_nan = refl

less : wstrncmp (text nan []) (text banana []) 3 ≡ some (pos 1)
unfolding wstrncmp
less = refl

banana-IsText : IsText banana
banana-IsText =
    (omega arith, (omega arith, (omega arith, (omega arith, (omega arith, (omega arith, refl))))))

nan-IsText : IsText nan
nan-IsText = (omega arith, (omega arith, (omega arith, refl)))

wstrstr-First_example :
    (r : Option ℕ) × ((wstrstr (text banana []) (text nan (7 ∷ [])) ≡ some r) × First nan banana r)
wstrstr-First_example = wstrstr-First banana nan [] (7 ∷ []) banana-IsText nan-IsText

wstrncpy-Copied_example :
    (r : Cells) × ((wstrncpy (some (text banana [])) (some (text nan [])) 5
        ≡ some (min 5 (length nan), some r))
      × Copied 5 nan (text banana []) r)
wstrncpy-Copied_example = wstrncpy-Copied 5 nan [] (text banana []) nan-IsText (omega arith)

wstrcat-text_example :
    (rest : Cells) × ((wstrcat (text nan room) (text nan []) ≡ some (text (nan ++ nan) rest))
      × (length rest + length nan ≡ length room))
wstrcat-text_example = wstrcat-text nan nan room [] nan-IsText nan-IsText (omega arith)

wide_string_to_string-string_to_wide_string_example :
    (w : Cells) × ((string_to_wide_string (some (text nan [])) none ≡ some w)
      × (wide_string_to_string (some w) (negsuc 0) ≡ some nan))
wide_string_to_string-string_to_wide_string_example =
    wide_string_to_string-string_to_wide_string nan []
      (omega arith, (omega arith, (omega arith, refl))) nan-IsText
