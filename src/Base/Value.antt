-- ===== src/Base/Value.antt =====
-- A value that `JSON.parse` can return, and `undefined` for an absent member. A number is kept as
-- far as the source looks at it: an integer, or any other number.
use Prim.Native.String.{String}
use mathlib.Core.Bool.{Bool, true, false}
use mathlib.Core.List.{List, [], ◌∷◌}
use text.Mathlib.Text.{◌==◌}
use agent_cat.Base.Tests.{if◌then◌else◌}
use agent_cat.Base.Texts.{Text}
use agent_cat.Base.Int.{ℤ}

mutual
  pub data Value : Type 0 where
    undefined : Value
    null : Value
    bool : Bool → Value
    int : ℤ → Value
    other_number : Value
    str : Text → Value
    arr : Items → Value
    obj : Members → Value

  pub data Items : Type 0 where
    end : Items
    item : Value → Items → Items

  pub data Members : Type 0 where
    stop : Members
    member : String → Value → Members → Members

abbrev pub items : Items → List Value
items end = []
items (item v vs) = v ∷ items vs

-- `object.name`, and `Object.prototype.hasOwnProperty.call(object, name)`.
unfoldable pub field : String → Members → Value
field name stop = undefined
field name (member k v ms) = if k == name then v else field name ms

unfoldable pub has_own : String → Members → Bool
has_own name stop = false
has_own name (member k v ms) = if k == name then true else has_own name ms
