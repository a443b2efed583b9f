-- ===== src/Base/Results.antt =====
-- A computation that returns a value or throws: `err` carries what is thrown.
use mathlib.Core.Path.{◌≡◌, refl, subst}
use mathlib.Core.Bool.{Bool, true, false}
use mathlib.Core.Option.{Option, none, some}
use mathlib.Core.Logic.{◌⊎◌, inl, inr}
use agent_cat.Base.Tests.{if◌then◌else◌}

pub data Result (E A : Type 0) : Type 0 where
  err : E → Result E A
  ok : A → Result E A

infixl 5 ◌>>=◌ ◌>>◌
abbrev pub ◌>>=◌ : {E A B : Type 0} → Result E A → (A → Result E B) → Result E B
err thrown >>= next = err thrown
ok value >>= next = next value

abbrev pub ◌>>◌ : {E B : Type 0} → Result E (Unit {0}) → Result E B → Result E B
first >> second = first >>= λ done. second

-- `if (test) throw new Error(e)`.
abbrev pub refuse : {E : Type 0} → Bool → E → Result E (Unit {0})
refuse true e = err e
refuse false e = ok tt

-- `if (value === undefined) throw new Error(e)`.
abbrev pub required : {E A : Type 0} → Option A → E → Result E A
required none e = err e
required (some a) e = ok a

-- What a chain that throws nothing has gone through.
pub >>=-eq-ok :
    {E A B : Type 0} (first : Result E A) (next : A → Result E B) {end : B}
    → (first >>= next) ≡ ok end
    → (value : A) × (first ≡ ok value) × (next value ≡ ok end)
>>=-eq-ok (err thrown) next chain = cc
>>=-eq-ok (ok value) next chain = (value, refl, chain)

pub refuse-eq-ok : {E : Type 0} (b : Bool) (e : E) {u : Unit {0}} → refuse b e ≡ ok u → b ≡ false
refuse-eq-ok true e h = cc
refuse-eq-ok false e h = refl

pub required-eq-ok :
    {E A : Type 0} (o : Option A) (e : E) {a : A} → required o e ≡ ok a → o ≡ some a
required-eq-ok none e h = cc
required-eq-ok (some a) e h = cc

pub bind_assoc :
    {E A B C : Type 0} (first : Result E A) (next : A → Result E B) (last : B → Result E C)
    → ((first >>= next) >>= last) ≡ (first >>= λ value. next value >>= last)
bind_assoc (err thrown) next last = refl
bind_assoc (ok value) next last = refl

HoldsOf : {E A : Type 0} → (A → Type 0) → Result E A → Type 0
HoldsOf P (err thrown) = Unit
HoldsOf P (ok value) = P value

-- What holds of the value that one chain returns holds of the value of an equal one.
pub subst-ok :
    {E A : Type 0} (P : A → Type 0) {a b : A} → ◌≡◌ {A = Result E A} (ok a) (ok b) → P a → P b
unfolding HoldsOf
subst-ok P same holds = subst (HoldsOf P) same holds

-- A chain that goes past a refusal and throws nothing: its test does not hold.
pub refuse-then :
    {E B : Type 0} (b : Bool) (e : E) (rest : Result E B) {r : B}
    → (refuse b e >>= λ done. rest) ≡ ok r
    → (b ≡ false) × (rest ≡ ok r)
refuse-then true e rest h = cc
refuse-then false e rest h = (refl, h)

-- To split on a computed result and keep the equation.
pub Result-cases :
    {E A : Type 0} (r : Result E A) → ((e : E) × (r ≡ err e)) ⊎ ((a : A) × (r ≡ ok a))
Result-cases (err e) = inl (e, refl)
Result-cases (ok a) = inr (a, refl)

-- What a guarded value that is there has gone through.
pub guard-some :
    {A : Type 0} (b : Bool) (a : A) {found : A}
    → (if b then some a else none) ≡ some found
    → (b ≡ true) × (a ≡ found)
guard-some true a h = (refl, cc)
guard-some false a h = cc

SomeOf : {A : Type 0} → (A → Type 0) → Option A → Type 0
SomeOf P none = Unit
SomeOf P (some a) = P a

-- What holds of a value that is there holds of the value of an equal option.
pub subst-some :
    {A : Type 0} (P : A → Type 0) {a b : A} → ◌≡◌ {A = Option A} (some a) (some b) → P a → P b
unfolding SomeOf
subst-some P same holds = subst (SomeOf P) same holds
