-- ===== src/Models/BuildStatus/Codes.antt =====
-- crates/common/src/models.rs: the classes and the integer codes of a `BuildStatus`.
use circus.Common.{◌≡◌, refl, ◌↔◌, true, some, arith, ◌&&◌, subst, List, [], ◌∷◌}
use circus.Common.Int.{ℤ, pos, eq_ℤ}
use circus.Models.BuildStatus.{
  BuildStatus, pending, is_finished, is_success, is_terminal, as_i32, variants, codes_of, from_i32,
  from_exit_code,
}

-- A status is terminal exactly when it is finished, and a status that is a success is terminal.
is_terminal-eq-is_finished :
    (v : BuildStatus)
    → (is_terminal v ≡ is_finished v) × ((is_success v && is_terminal v) ≡ is_success v)
unfolding is_terminal is_finished is_success
is_terminal-eq-is_finished v = ground arith

eq_ℤ_sound : (a b : ℤ) → eq_ℤ a b ≡ true → a ≡ b
eq_ℤ_sound a b h = ground arith

from_i32-as_i32 : (v : BuildStatus) → from_i32 (as_i32 v) ≡ some v
unfolding from_i32 as_i32
from_i32-as_i32 pending = refl
from_i32-as_i32 _ = refl

codes_of_sound :
    (vs : List BuildStatus) (code : ℤ) (v : BuildStatus)
    → codes_of vs code ≡ some v
    → as_i32 v ≡ code
unfolding as_i32
codes_of_sound [] code v h = cc
codes_of_sound (w ∷ vs) code v h =
    ground (arith, eq_ℤ_sound (as_i32 w) code, codes_of_sound vs code v)

-- `from_i32` returns a status on a code exactly when the code is that status's discriminant; every
-- other code, a negative one or one above 14, is refused.
from_i32_exact : (code : ℤ) (v : BuildStatus) → (from_i32 code ≡ some v) ↔ (as_i32 v ≡ code)
from_i32_exact code v = (
  unfold from_i32 in codes_of_sound variants code v,
  λ e. subst (λ c. from_i32 c ≡ some v) e (from_i32-as_i32 v),
)

-- Whatever the exit code, the status is a finished one, and it is a success for the code 0 alone.
pub from_exit_code_classes :
    (code : ℤ)
    → (is_finished (from_exit_code code) ≡ true)
      × ((is_success (from_exit_code code) ≡ true) ↔ (code ≡ pos 0))
unfolding from_exit_code is_finished is_success
from_exit_code_classes code = ground arith
