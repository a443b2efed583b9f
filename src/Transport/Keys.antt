-- ===== src/Transport/Keys.antt =====
-- The idempotency keys of ext-pi/src/manager/transport.ts: `commandKey` and `validKey`.
use agent_cat.Base.{
  ℕ, ◌≤◌, ◌≡◌, refl, Bool, true, not, ◌&&◌, ◌||◌, List, [], ◌∷◌, ◌++◌, Text, all, length,
  length-append, ltb, leb, lt→ltb, le→leb, arith, and_left, and_right, and_both, ok, ◌>>=◌, refuse,
  refuse-then, subst-ok,
}
use agent_cat.Events.Failure.{unsupported_version, Outcome}
use agent_cat.Events.Syntax.{valid_id, is_id_character}

module _ (token : Text) where
  -- `token` is the base64url text of 16 random bytes.
  unfoldable pub command_key : Text → Outcome Text
  command_key epoch =
      refuse (not (valid_id epoch) || ltb 105 (length epoch)) unsupported_version >>= λ done.
      ok (epoch ++ b'.' ∷ token)

-- `/[\x21-\x7e]/`.
abbrev is_key_character : ℕ → Bool
is_key_character c = leb 0x21 c && leb c 0x7e

unfoldable pub valid_key : Text → Bool
valid_key key = ltb 0 (length key) && leb (length key) 128 && all is_key_character key

-- 16 bytes in base64url: 22 letters, digits, dashes or underscores.
pub record IsToken (token : Text) : Type 0 where
  pub size : length token ≡ 22
  pub characters : all is_id_character token ≡ true

id_character-key : (c : ℕ) → is_id_character c ≡ true → is_key_character c ≡ true
id_character-key c h = ground arith

all-key : (t : Text) → all is_id_character t ≡ true → all is_key_character t ≡ true
all-key [] h = refl
all-key (c ∷ cs) h =
    and_both _ _ (id_character-key c (and_left _ _ h))
      (all-key cs (and_right (is_id_character c) _ h))

all-append :
    {A : Type 0} (test : A → Bool) (xs ys : List A)
    → all test xs ≡ true
    → all test ys ≡ true
    → all test (xs ++ ys) ≡ true
all-append test [] ys h k = k
all-append test (x ∷ xs) ys h k =
    and_both _ _ (and_left _ _ h) (all-append test xs ys (and_right (test x) _ h) k)

key_characters :
    (epoch token : Text)
    → valid_id epoch ≡ true
    → IsToken token
    → all is_key_character (epoch ++ b'.' ∷ token) ≡ true
unfolding valid_id
key_characters epoch token valid token_ok =
    all-append is_key_character epoch (b'.' ∷ token)
      (all-key epoch
        (and_left _ _ (and_left (all is_id_character epoch && leb 1 (length epoch)) _ valid)))
      (all-key token token_ok.characters)

key_size :
    (epoch token : Text)
    → length epoch ≤ 105
    → IsToken token
    → (1 ≤ length (epoch ++ b'.' ∷ token)) × (length (epoch ++ b'.' ∷ token) ≤ 128)
key_size epoch token short token_ok =
    let total = length-append epoch (b'.' ∷ token) in
    (omega (arith, total, token_ok.size, short), omega (arith, total, token_ok.size, short))

built_key-valid :
    (token epoch : Text)
    → IsToken token
    → valid_id epoch ≡ true
    → length epoch ≤ 105
    → valid_key (epoch ++ b'.' ∷ token) ≡ true
unfolding valid_key
built_key-valid token epoch token_ok valid short =
    let (low, high) = key_size epoch token short token_ok in
    and_both _ _ (and_both _ _ (lt→ltb _ _ low) (le→leb _ _ high))
      (key_characters epoch token valid token_ok)

-- The key of a command is one that the transport sends.
pub command_key-valid :
    (token epoch key : Text)
    → IsToken token
    → command_key token epoch ≡ ok key
    → valid_key key ≡ true
unfolding command_key
command_key-valid token epoch key token_ok h =
    let (fit, same) = refuse-then (not (valid_id epoch) || ltb 105 (length epoch)) _ _ h in
    subst-ok (λ k. valid_key k ≡ true) same
      (built_key-valid token epoch token_ok (ground (arith, fit)) (ground (arith, fit)))
