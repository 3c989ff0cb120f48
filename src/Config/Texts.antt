-- ===== src/Config/Texts.antt =====
-- Texts as the code points that internal/config/worker.go cuts, and as the strings of the other
-- packages. A number that is no code point becomes U+FFFD, as in a Go conversion.
use Prim.Native.Nat.{Ordering, compare}
use Prim.Native.Char.{Char, char, code, IsScalar, IsLt}
use Prim.Native.String.{[] as empty, ◌∷◌ as prepend}
use text.Mathlib.TextEquality.{IsScalar-prop}
use dist_command_exec.Prelude.{ℕ, ◌≡◌, refl, ap, ◌∙◌, String, List, [], ◌∷◌, map}
use dist_command_exec.Config.{Text}

-- IsScalar over its three comparisons.
abbrev BothLt : Ordering → Ordering → Type 0
BothLt Ordering.lt o = IsLt o
BothLt Ordering.eq _ = ⊥
BothLt Ordering.gt _ = ⊥

abbrev Scalar : Ordering → Ordering → Ordering → Type 0
Scalar Ordering.lt _ _ = Unit
Scalar Ordering.eq o p = BothLt o p
Scalar Ordering.gt o p = BothLt o p

decide_lt : (o : Ordering) → Dec (IsLt o)
decide_lt Ordering.lt = yes tt
decide_lt Ordering.eq = no (λ h. h)
decide_lt Ordering.gt = no (λ h. h)

decide_both : (o p : Ordering) → Dec (BothLt o p)
decide_both Ordering.lt p = decide_lt p
decide_both Ordering.eq p = no (λ h. h)
decide_both Ordering.gt p = no (λ h. h)

decide : (o p q : Ordering) → Dec (Scalar o p q)
decide Ordering.lt p q = yes tt
decide Ordering.eq p q = decide_both p q
decide Ordering.gt p q = decide_both p q

char_if : (n : ℕ) → Dec (IsScalar n) → Char
char_if n (yes p) = char n p
char_if n (no p) = char 65533 tt

char_of : ℕ → Char
unfolding decide decide_both decide_lt char_if
char_of n = char_if n (decide (compare n 55296) (compare 57343 n) (compare n 1114112))

unfoldable pub codes : String → Text
codes empty = []
codes (prepend c s) = code c ∷ codes s

unfoldable pub string_of : Text → String
unfolding char_of
string_of [] = empty
string_of (n ∷ s) = prepend (char_of n) (string_of s)

char_if-code : (n : ℕ) (p : IsScalar n) (d : Dec (IsScalar n)) → char_if n d ≡ char n p
unfolding char_if
char_if-code n p (yes q) = ap (char n) (IsScalar-prop n q p)
char_if-code n p (no q) = absurd (q p)

char_of-code : (c : Char) → char_of (code c) ≡ c
unfolding char_of
char_of-code (char n p) =
    char_if-code n p (decide (compare n 55296) (compare 57343 n) (compare n 1114112))

pub string_of-codes : (s : String) → string_of (codes s) ≡ s
unfolding string_of codes
string_of-codes empty = refl
string_of-codes (prepend c s) =
    ap (λ d. prepend d (string_of (codes s))) (char_of-code c)
    ∙ ap (λ t. prepend c t) (string_of-codes s)

pub map-string_of-codes : (ss : List String) → map string_of (map codes ss) ≡ ss
map-string_of-codes [] = refl
map-string_of-codes (s ∷ ss) =
    ap (λ t. t ∷ map string_of (map codes ss)) (string_of-codes s)
    ∙ ap (λ ts. s ∷ ts) (map-string_of-codes ss)
