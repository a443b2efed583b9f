-- ===== src/Base/Keys.antt =====
-- Keys that are compared with `===`.
use mathlib.Core.Path.{◌≡◌}
use mathlib.Core.Logic.{◌↔◌}
use mathlib.Core.Bool.{Bool, true}
use agent_cat.Base.Texts.{Text, text_eq, text_eq_iff}

pub record Eq (A : Type 0) : Type 0 where
  pub same : A → A → Bool
  pub same_iff : (a b : A) → (same a b ≡ true) ↔ (a ≡ b)

instance abbrev pub text_keys : Eq Text
text_keys = record { same = text_eq; same_iff = text_eq_iff }
