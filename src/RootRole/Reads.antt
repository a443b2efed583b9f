-- ===== src/RootRole/Reads.antt =====
-- The rounds of the reads of a marker in ext-pi/src/root-role.ts.
use agent_cat.Base.{
  ℕ, zero, suc, ◌+◌, ◌-◌, ◌≤◌, ◌≡◌, refl, List, [], ◌∷◌, ◌++◌, Option, none, some, length,
  length-append, leb, le→leb, arith, Result, ok, ◌>>=◌, required, inl, inr, Bool-cases,
}
use agent_cat.RootRole.{Handle, RoleError, cannot_read, read_bytes}

same_next :
    (found : Option (List ℕ)) (end : Result RoleError (List ℕ))
    (first second : ℕ → List ℕ → Result RoleError (List ℕ))
    → ((c : ℕ) (cs : List ℕ) → first c cs ≡ second c cs)
    → (required found cannot_read >>= λ chunk. elim chunk [ [] ↦ end | c ∷ cs ↦ first c cs ])
      ≡ (required found cannot_read >>= λ chunk. elim chunk [ [] ↦ end | c ∷ cs ↦ second c cs ])
same_next none end first second same = refl
same_next (some []) end first second same = refl
same_next (some (c ∷ cs)) end first second same = same c cs

-- A further round changes nothing, once there are as many rounds as the buffer has room for.
enough_rounds :
    (rounds : ℕ) (handle : Handle) (bytes : List ℕ)
    → 257 ≤ rounds + length bytes
    → read_bytes (suc rounds) handle bytes ≡ read_bytes rounds handle bytes
unfolding read_bytes
enough_rounds zero handle bytes enough = rw (le→leb 257 (length bytes) (omega (arith, enough))) refl
enough_rounds (suc rounds) handle bytes enough = elim (Bool-cases (leb 257 (length bytes))) [
  | inl full ↦ rw (full) refl
  | inr room ↦ rw (room) (
      same_next (handle.read (length bytes) (257 - length bytes)) (ok bytes)
        (λ c cs. read_bytes (suc rounds) handle (bytes ++ c ∷ cs))
        (λ c cs. read_bytes rounds handle (bytes ++ c ∷ cs))
        (λ c cs.
          enough_rounds rounds handle (bytes ++ c ∷ cs)
            (omega (arith, enough, length-append bytes (c ∷ cs)))))
]
