-- ===== src/Common/Text.antt =====
-- Whole texts: a decision of their equality, the text of a format, and keys made of two texts with a
-- separator between them.
use Prim.Native.Nat.{ℕ, Ordering, zero, suc, ◌+◌, ◌/◌, ◌%◌}
use Prim.Native.Char.{Char, code}
use Prim.Native.String
use Prim.Native.String.{String}
use mathlib.Core.Path.{◌≡◌, refl, ap, ap₂, sym}
use native.Mathlib.Omega.{arith}
use native.Mathlib.Decide.{ℕ_discrete}
use mathlib.Core.Bool.{Bool, true, false, false≢true}
use mathlib.Core.Logic.{◌↔◌, ◌≢◌}
use mathlib.Core.List.{List, [], ◌∷◌}
use text.Mathlib.Text.{◌==◌ as str_eq}
use text.Mathlib.TextEquality.{eq_iff}
use text.Mathlib.TextLemmas.{nil-append, cons-append, cons-eq-cons}
use better_pg_keeper.Common.Tests.{ltb, ◌==◌, if◌then◌else◌}

abbrev pub dec_of_iff {ℓ} : {P : Type ℓ} (b : Bool) → ((b ≡ true) ↔ P) → Dec P
dec_of_iff true h = yes (h.0 refl)
dec_of_iff false h = no (λ p. false≢true (h.1 p))

unfoldable pub str_dec : Discrete String
str_dec a b = dec_of_iff (str_eq a b) (eq_iff a b)

-- The parts of a message, one behind the other.
abbrev pub sprint : List String → String
sprint [] = ""
sprint (s ∷ []) = s
sprint (s ∷ t ∷ ts) = String.◌++◌ s (sprint (t ∷ ts))

-- The text does not hold the character.
abbrev pub IsFree : Char → String → Type 0
IsFree c String.[] = Unit
IsFree c (String.◌∷◌ d s) = (d ≢ c) × IsFree c s

-- A text without the separator is what stands before the first separator.
pub split_unique :
    (c : Char) (r r' t t' : String)
    → IsFree c r
    → IsFree c r'
    → String.◌++◌ r (String.◌∷◌ c t) ≡ String.◌++◌ r' (String.◌∷◌ c t')
    → (r ≡ r') × (t ≡ t')
split_unique c String.[] String.[] t t' h h' e =
    let p = simp nil-append at e in (refl, (cons-eq-cons.0 p).1)
split_unique c String.[] (String.◌∷◌ d s) t t' h h' e =
    let p = simp (nil-append, cons-append) at e in absurd (h'.0 (sym (cons-eq-cons.0 p).0))
split_unique c (String.◌∷◌ d s) String.[] t t' h h' e =
    let p = simp (nil-append, cons-append) at e in absurd (h.0 (cons-eq-cons.0 p).0)
split_unique c (String.◌∷◌ d s) (String.◌∷◌ d' s') t t' h h' e =
    let p = simp cons-append at e in
    let (heads, tails) = cons-eq-cons.0 p in
    let (rests, ends) = split_unique c s s' t t' h.1 h'.1 tails in
    (ap₂ String.◌∷◌ heads rests, ends)

-- The digits of %d.
digit : ℕ → String
digit n =
    if n == 0
    then "0"
    else if n == 1
    then "1"
    else if n == 2
    then "2"
    else if n == 3
    then "3"
    else if n == 4
    then "4"
    else if n == 5
    then "5"
    else if n == 6
    then "6"
    else if n == 7
    then "7"
    else if n == 8
    then "8"
    else "9"

decimal_from : (fuel : ℕ) → ℕ → String
unfolding digit
decimal_from zero n = ""
decimal_from (suc f) n =
    let front = decimal_from f (n / 10) in
    if ltb n 10 then digit n else String.◌++◌ front (digit (n % 10))

-- The verb %d; a number has at most as many digits as its value plus one.
unfoldable pub decimal : ℕ → String
unfolding decimal_from
decimal n = decimal_from (n + 1) n

unfoldable pub lacks_char : Char → String → Bool
lacks_char c String.[] = true
lacks_char c (String.◌∷◌ d s) =
    let rest = lacks_char c s in if code d == code c then false else rest

pub IsFree-of : (c : Char) (s : String) → lacks_char c s ≡ true → IsFree c s
unfolding lacks_char
IsFree-of c String.[] h = tt
IsFree-of c (String.◌∷◌ d s) h = elim (ℕ_discrete (code d) (code c)) [
  | yes e ↦ ground (arith, e, h)
  | no n ↦ ((λ e. n (ap code e)), IsFree-of c s (ground (arith, n, h)))
]

abbrev pub code_eq : Char → Char → Bool
code_eq c d = code c == code d

-- The order of texts by their characters, which is that of their bytes in UTF-8.
unfoldable pub str_less : String → String → Bool
str_less s t = elim (String.compare s t) [ Ordering.lt ↦ true | _ ↦ false ]

-- The characters of a text.
abbrev pub codes : String → List ℕ
codes String.[] = []
codes (String.◌∷◌ c s) = code c ∷ codes s
