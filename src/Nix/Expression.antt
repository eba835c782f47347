-- ===== src/Nix/Expression.antt =====
-- crates/nix/src/validate.rs, `validate_nix_expression`.
use circus.Common.{
  Bool, true, false, ◌≡◌, ◌≢◌, ◌↔◌, ◌≤◌, inl, inr, [], ◌∷◌, ◌++◌, Bytes, codes, Result, ok, err,
  ltb, if◌then◌else◌, length, arith, Bool-cases,
}
use circus.Common.Strings.{starts_with, contains_text, starts_with_iff, contains_text_iff}

-- The messages.
pub data ExpressionError : Type 0 where
  empty too_long null_byte traversal absolute : ExpressionError

abbrev is_empty : Bytes → Bool
is_empty [] = true
is_empty (c ∷ s) = false

unfoldable pub validate_nix_expression : Bytes → Result {0, 0} ExpressionError Unit
validate_nix_expression expr =
    if is_empty expr
    then err empty
    else if ltb 1024 (length expr)
    then err too_long
    else if contains_text (0 ∷ []) expr
    then err null_byte
    else if contains_text (codes "..") expr
    then err traversal
    else if starts_with (b'/' ∷ []) expr
    then err absolute
    else ok tt

-- A text stands nowhere in another.
abbrev pub Without : Bytes → Bytes → Type 0
Without t s = (a b : Bytes) → s ≢ a ++ (t ++ b)

contains_text-eq-false : (t s : Bytes) → (contains_text t s ≡ false) ↔ Without t s
contains_text-eq-false t s =
    let (sound, complete) = contains_text_iff t s in
    (
      λ h a b e. ground (arith, h, complete (a, b, e)),
      λ w. elim (Bool-cases (contains_text t s)) [
        | inl y ↦ let (a, b, e) = sound y in absurd (w a b e)
        | inr n ↦ n
      ],
    )

starts_with-eq-false : (p s : Bytes) → (starts_with p s ≡ false) ↔ ((rest : Bytes) → s ≢ p ++ rest)
starts_with-eq-false p s =
    let (sound, complete) = starts_with_iff p s in
    (
      λ h rest e. ground (arith, h, complete (rest, e)),
      λ w. elim (Bool-cases (starts_with p s)) [
        | inl y ↦ let (rest, e) = sound y in absurd (w rest e)
        | inr n ↦ n
      ],
    )

-- An expression is accepted exactly when it has between 1 and 1024 bytes, no null byte and no `..` in
-- it, and does not begin with a slash.
validate_nix_expression_iff :
    (expr : Bytes)
    → (validate_nix_expression expr ≡ ok tt) ↔ (
        (1 ≤ length expr)
        × (length expr ≤ 1024)
        × Without (0 ∷ []) expr
        × Without (codes "..") expr
        × ((rest : Bytes) → expr ≢ (b'/' ∷ []) ++ rest))
unfolding validate_nix_expression
validate_nix_expression_iff [] = (λ h. cc, λ h. absurd (omega (arith, h.0)))
validate_nix_expression_iff (c ∷ s) =
    let expr = c ∷ s in
    let (z, z') = contains_text-eq-false (0 ∷ []) expr in
    let (d, d') = contains_text-eq-false (codes "..") expr in
    let (l, l') = starts_with-eq-false (b'/' ∷ []) expr in
    (
      λ h. (
        ground (arith, h),
        ground (arith, h),
        z (ground (arith, h)),
        d (ground (arith, h)),
        l (ground (arith, h)),
      ),
      λ (lo, hi, nz, nd, nl). ground (arith, hi, z' nz, d' nd, l' nl),
    )
