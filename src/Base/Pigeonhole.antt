-- ===== src/Base/Pigeonhole.antt =====
-- A list of distinct texts that all stand in a list no longer than it holds every text of that list.
use Prim.Native.Nat.{suc, ◌≤◌}
use mathlib.Core.Path.{◌≡◌}
use mathlib.Core.Logic.{inl, inr}
use mathlib.Core.Bool.{true, false}
use mathlib.Core.List.{List, [], ◌∷◌}
use native.Mathlib.Omega.{arith}
use agent_cat.Base.Tests.{if◌then◌else◌, Bool-cases}
use agent_cat.Base.Lists.{length, All}
use agent_cat.Base.Texts.{Text, text_eq, text_eq_iff, includes, distinct}

erase : Text → List Text → List Text
erase x [] = []
erase x (y ∷ ys) = if text_eq y x then ys else y ∷ erase x ys

abbrev pub AllIn : List Text → List Text → Type 0
AllIn ys xs = All (λ x. includes ys x ≡ true) xs

length-erase :
    (x : Text) (ys : List Text) → includes ys x ≡ true → suc (length (erase x ys)) ≡ length ys
unfolding erase
length-erase x [] h = cc
length-erase x (y ∷ ys) h = ground (arith, length-erase x ys)

includes-erase :
    (x z : Text) (ys : List Text)
    → includes ys z ≡ true
    → text_eq z x ≡ false
    → includes (erase x ys) z ≡ true
unfolding erase
includes-erase x z [] h ne = cc
includes-erase x z (y ∷ ys) h ne =
    ground (arith, includes-erase x z ys, text_eq_iff y x, text_eq_iff y z, text_eq_iff z x)

AllIn-erase :
    (x : Text) (ys zs : List Text) → AllIn ys zs → includes zs x ≡ false → AllIn (erase x ys) zs
AllIn-erase x ys [] h out = tt
AllIn-erase x ys (z ∷ zs) (here, h) out =
    (includes-erase x z ys here (ground arith), AllIn-erase x ys zs h (ground arith))

length-le_of_AllIn : (xs ys : List Text) → distinct xs ≡ true → AllIn ys xs → length xs ≤ length ys
length-le_of_AllIn [] ys d h = omega arith
length-le_of_AllIn (x ∷ xs) ys d (here, h) =
    let out : includes xs x ≡ false = ground arith in
    let rest = length-le_of_AllIn xs (erase x ys) (ground arith) (AllIn-erase x ys xs h out) in
    omega (arith, length-erase x ys here)

pub includes_of_length :
    (xs ys : List Text) (y : Text)
    → distinct xs ≡ true
    → AllIn ys xs
    → length ys ≤ length xs
    → includes ys y ≡ true
    → includes xs y ≡ true
includes_of_length xs ys y d h le here = elim (Bool-cases (includes xs y)) [
  | inl inside ↦ inside
  | inr out ↦
      let fewer = length-le_of_AllIn xs (erase y ys) d (AllIn-erase y ys xs h out) in
      absurd (omega (arith, length-erase y ys here))
]
