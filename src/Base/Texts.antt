-- ===== src/Base/Texts.antt =====
-- A JavaScript string as the list of its UTF-16 code units, and the decimal texts of the source:
-- `/^(0|[1-9][0-9]*)$/` and `BigInt` on a text that matches it.
use Prim.Native.Nat.{ℕ, ◌+◌, ◌-◌, ◌*◌}
use Prim.Native.Char.{code}
use Prim.Native.String.{String}
use mathlib.Core.Path.{◌≡◌, refl}
use mathlib.Core.Logic.{◌↔◌}
use mathlib.Core.Bool.{Bool, true, false, ◌&&◌, ◌||◌, not}
use mathlib.Core.Option
use mathlib.Core.Option.{Option, none, some}
use mathlib.Core.List.{List, [], ◌∷◌, reverse}
use native.Mathlib.Omega.{arith}
use agent_cat.Base.Tests.{ltb, leb, ◌==◌, if◌then◌else◌}
use agent_cat.Base.Lists.{any, all}

abbrev pub Text : Type 0
Text = List ℕ

-- The code units of an ASCII literal.
abbrev pub codes : String → Text
codes String.[] = []
codes (String.◌∷◌ c s) = code c ∷ codes s

-- `===` on strings.
unfoldable pub text_eq : Text → Text → Bool
text_eq [] [] = true
text_eq (x ∷ xs) (y ∷ ys) = x == y && text_eq xs ys
text_eq _ _ = false

-- `===` of a string and a literal of the source.
abbrev pub is : Text → String → Bool
is t s = text_eq t (codes s)

pub text_eq_refl : (t : Text) → text_eq t t ≡ true
unfolding text_eq
text_eq_refl [] = refl
text_eq_refl (x ∷ xs) = ground (arith, text_eq_refl xs)

pub text_eq_sound : (s t : Text) → text_eq s t ≡ true → s ≡ t
unfolding text_eq
text_eq_sound [] [] h = refl
text_eq_sound (x ∷ xs) (y ∷ ys) h = ground (arith, text_eq_sound xs ys)
text_eq_sound [] (y ∷ ys) h = cc
text_eq_sound (x ∷ xs) [] h = cc

pub text_eq_iff : (s t : Text) → (text_eq s t ≡ true) ↔ (s ≡ t)
text_eq_iff s t = (text_eq_sound s t, λ e. rw e (text_eq_refl t))

-- `list.includes(text)`.
abbrev pub includes : List Text → Text → Bool
includes ts t = any (λ u. text_eq u t) ts

-- `new Set(texts).size === texts.length`.
abbrev pub distinct : List Text → Bool
distinct [] = true
distinct (t ∷ ts) = not (includes ts t) && distinct ts

abbrev pub is_digit : ℕ → Bool
is_digit c = leb b'0' c && leb c b'9'

-- `/^(0|[1-9][0-9]*)$/.test(text)`.
unfoldable pub is_decimal : Text → Bool
is_decimal [] = false
is_decimal (c ∷ []) = is_digit c
is_decimal (c ∷ d ∷ cs) = leb b'1' c && leb c b'9' && all is_digit (d ∷ cs)

-- The value of decimal digits after a prefix of the value `acc`.
unfoldable pub digits_value : ℕ → Text → ℕ
digits_value acc [] = acc
digits_value acc (c ∷ cs) = digits_value (acc * 10 + (c - b'0')) cs

-- `BigInt(text)` on a text of decimal digits.
abbrev pub big_int : Text → ℕ
big_int = digits_value 0

is_high_surrogate : ℕ → Bool
is_high_surrogate c = leb 0xd800 c && ltb c 0xdc00

is_low_surrogate : ℕ → Bool
is_low_surrogate c = leb 0xdc00 c && ltb c 0xe000

-- The code points of a text, as the string iterator and a `u` regular expression read it: a pair
-- of surrogates is one code point, and a lone surrogate is itself.
unfoldable pub code_points : Text → List ℕ
unfolding is_high_surrogate is_low_surrogate
code_points [] = []
code_points (c ∷ []) = c ∷ []
code_points (c ∷ d ∷ cs) =
    let paired = (0x10000 + (c - 0xd800) * 0x400 + (d - 0xdc00)) ∷ code_points cs in
    let single = c ∷ code_points (d ∷ cs) in
    if is_high_surrogate c && is_low_surrogate d then paired else single

-- What is left of a text after a prefix, and before a suffix, that it must have.
unfoldable pub strip_prefix : Text → Text → Option Text
strip_prefix [] t = some t
strip_prefix (c ∷ cs) [] = none
strip_prefix (c ∷ cs) (d ∷ ds) = if c == d then strip_prefix cs ds else none

abbrev pub strip_suffix : Text → Text → Option Text
strip_suffix suffix t = Option.map reverse (strip_prefix (reverse suffix) (reverse t))

-- `text.startsWith(prefix)`.
abbrev pub starts_with : Text → Text → Bool
starts_with t prefix = elim (strip_prefix prefix t) [ none ↦ false | some rest ↦ true ]

abbrev pub is_empty : Text → Bool
is_empty [] = true
is_empty (c ∷ cs) = false

abbrev pub is_lower_hex : ℕ → Bool
is_lower_hex c = is_digit c || leb b'a' c && leb c b'f'
