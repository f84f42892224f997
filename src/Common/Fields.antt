-- ===== src/Common/Fields.antt =====
-- strings.Fields, strings.SplitN at a colon, and tests on lists of texts.
use Prim.Native.Nat.{ℕ}
use Prim.Native.Char.{code}
use Prim.Native.String.{String}
use mathlib.Core.Bool.{Bool, true, false, ◌&&◌, ◌||◌}
use mathlib.Core.Logic.{ite}
use mathlib.Core.List.{List, [], ◌∷◌}
use better_pg_keeper.Common.Tests.{leb, ◌==◌, if◌then◌else◌}
use better_pg_keeper.Common.Text.{str_dec}

-- unicode.IsSpace
unfoldable pub is_space : ℕ → Bool
is_space c =
    (leb 9 c && leb c 13)
    || (c == 32
        || (c == 0x85
            || (c == 0xa0
                || (c == 0x1680
                    || ((leb 0x2000 c && leb c 0x200a)
                        || (c == 0x2028
                            || (c == 0x2029 || (c == 0x202f || (c == 0x205f || c == 0x3000)))))))))

unfoldable pub add_word : String → List String → List String
add_word String.[] ws = ws
add_word (String.◌∷◌ c w) ws = String.◌∷◌ c w ∷ ws

-- The word that a text starts with, empty if it starts with a space, and the words after it.
unfoldable pub scan_words : String → String × List String
unfolding is_space add_word
scan_words String.[] = ("", [])
scan_words (String.◌∷◌ c s) =
    let (w, ws) = scan_words s in
    if is_space (code c) then ("", add_word w ws) else (String.◌∷◌ c w, ws)

unfoldable pub fields : String → List String
unfolding scan_words add_word
fields s = let (w, ws) = scan_words s in add_word w ws

-- strings.SplitN(s, ":", 2)[0]
unfoldable pub before_colon : String → String
before_colon String.[] = ""
before_colon (String.◌∷◌ c s) =
    let rest = before_colon s in if code c == b':' then "" else String.◌∷◌ c rest

unfoldable pub has_text : String → List String → Bool
has_text k [] = false
has_text k (x ∷ xs) = ite (str_dec x k) true (has_text k xs)

-- Every text of the first list is in the second.
unfoldable pub has_texts : List String → List String → Bool
unfolding has_text
has_texts [] ys = true
has_texts (x ∷ xs) ys = has_text x ys && has_texts xs ys

-- The first list starts the second.
unfoldable pub is_prefix : List String → List String → Bool
is_prefix [] ys = true
is_prefix (x ∷ xs) [] = false
is_prefix (x ∷ xs) (y ∷ ys) = ite (str_dec y x) (is_prefix xs ys) false

unfoldable pub same_texts : List String → List String → Bool
same_texts [] [] = true
same_texts [] (y ∷ ys) = false
same_texts (x ∷ xs) [] = false
same_texts (x ∷ xs) (y ∷ ys) = ite (str_dec x y) (same_texts xs ys) false
