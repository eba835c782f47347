-- ===== src/Models/BuildStatus.antt =====
-- crates/common/src/models.rs, `BuildStatus`.
pub mod Codes
use circus.Common.Int.{ℤ, pos, negsuc, eq_ℤ}
use circus.Common.{
  ℕ, Bool, true, false, ◌||◌, Option, none, some, ◌==◌, if◌then◌else◌, String, ◌≡◌, refl, List, [],
  ◌∷◌, ParseError, Result, ok, match_arms, match_arms_sound,
}

pub data BuildStatus : Type 0 where
  pending running succeeded failed dependency_failed aborted cancelled failed_with_output timeout
        cached_failure unsupported_system log_limit_exceeded nar_size_limit_exceeded
        non_deterministic oom_killed :
      BuildStatus

unfoldable pub as_db_str : BuildStatus → String
as_db_str pending = "pending"
as_db_str running = "running"
as_db_str succeeded = "succeeded"
as_db_str failed = "failed"
as_db_str dependency_failed = "dependency_failed"
as_db_str aborted = "aborted"
as_db_str cancelled = "cancelled"
as_db_str failed_with_output = "failed_with_output"
as_db_str timeout = "timeout"
as_db_str cached_failure = "cached_failure"
as_db_str unsupported_system = "unsupported_system"
as_db_str log_limit_exceeded = "log_limit_exceeded"
as_db_str nar_size_limit_exceeded = "nar_size_limit_exceeded"
as_db_str non_deterministic = "non_deterministic"
as_db_str oom_killed = "oom_killed"

abbrev arms : List (String × BuildStatus)
arms =
    ("pending", pending)
    ∷ ("running", running)
    ∷ ("succeeded", succeeded)
    ∷ ("failed", failed)
    ∷ ("dependency_failed", dependency_failed)
    ∷ ("aborted", aborted)
    ∷ ("cancelled", cancelled)
    ∷ ("failed_with_output", failed_with_output)
    ∷ ("timeout", timeout)
    ∷ ("cached_failure", cached_failure)
    ∷ ("unsupported_system", unsupported_system)
    ∷ ("log_limit_exceeded", log_limit_exceeded)
    ∷ ("nar_size_limit_exceeded", nar_size_limit_exceeded)
    ∷ ("non_deterministic", non_deterministic)
    ∷ ("oom_killed", oom_killed)
    ∷ []

unfoldable pub from_str : String → Result ParseError BuildStatus
from_str = match_arms "build status" arms

-- What is printed is read back.
pub from_str-as_db_str : (v : BuildStatus) → from_str (as_db_str v) ≡ ok v
unfolding from_str as_db_str
from_str-as_db_str pending = refl
from_str-as_db_str _ = refl

-- Nothing else is read as that value.
pub from_str_sound : (s : String) (v : BuildStatus) → from_str s ≡ ok v → as_db_str v ≡ s
unfolding from_str as_db_str
from_str_sound s v h = match_arms_sound as_db_str "build status" arms s v refl h

-- `!matches!(self, Self::Pending | Self::Running)`.
unfoldable pub is_finished : BuildStatus → Bool
is_finished pending = false
is_finished running = false
is_finished _ = true

unfoldable pub is_success : BuildStatus → Bool
is_success succeeded = true
is_success _ = false

unfoldable pub is_terminal : BuildStatus → Bool
is_terminal succeeded = true
is_terminal failed = true
is_terminal cached_failure = true
is_terminal dependency_failed = true
is_terminal aborted = true
is_terminal cancelled = true
is_terminal failed_with_output = true
is_terminal timeout = true
is_terminal unsupported_system = true
is_terminal log_limit_exceeded = true
is_terminal nar_size_limit_exceeded = true
is_terminal non_deterministic = true
is_terminal oom_killed = true
is_terminal _ = false

-- The discriminants of the `#[repr(i32)]` enum.
unfoldable pub as_i32 : BuildStatus → ℤ
as_i32 pending = pos 0
as_i32 running = pos 1
as_i32 succeeded = pos 2
as_i32 failed = pos 3
as_i32 dependency_failed = pos 4
as_i32 aborted = pos 5
as_i32 cancelled = pos 6
as_i32 failed_with_output = pos 7
as_i32 timeout = pos 8
as_i32 cached_failure = pos 9
as_i32 unsupported_system = pos 10
as_i32 log_limit_exceeded = pos 11
as_i32 nar_size_limit_exceeded = pos 12
as_i32 non_deterministic = pos 13
as_i32 oom_killed = pos 14

-- `Self::try_from(code).ok()`: the value whose discriminant is the code.
abbrev codes_of : List BuildStatus → ℤ → Option BuildStatus
unfolding as_i32
codes_of [] code = none
codes_of (v ∷ vs) code = if eq_ℤ (as_i32 v) code then some v else codes_of vs code

abbrev variants : List BuildStatus
variants =
    pending ∷ running ∷ succeeded ∷ failed ∷ dependency_failed ∷ aborted ∷ cancelled
    ∷ failed_with_output ∷ timeout ∷ cached_failure ∷ unsupported_system ∷ log_limit_exceeded
    ∷ nar_size_limit_exceeded ∷ non_deterministic ∷ oom_killed ∷ []

unfoldable pub from_i32 : ℤ → Option BuildStatus
unfolding codes_of
from_i32 = codes_of variants

-- The arms that are not negative, in the order of the source.
abbrev exit_arms : ℕ → BuildStatus
exit_arms n =
    if n == 0
    then succeeded
    else if n == 2
    then dependency_failed
    else if n == 3 || n == 5
    then aborted
    else if n == 4
    then cancelled
    else if n == 6
    then failed_with_output
    else if n == 7
    then timeout
    else if n == 8
    then cached_failure
    else if n == 9
    then unsupported_system
    else if n == 10
    then log_limit_exceeded
    else if n == 11
    then nar_size_limit_exceeded
    else if n == 12
    then non_deterministic
    else failed

-- Hydra's exit codes; -9 is `negsuc 8`.
unfoldable pub from_exit_code : ℤ → BuildStatus
from_exit_code (pos n) = exit_arms n
from_exit_code (negsuc n) = if n == 8 then oom_killed else failed

unfoldable pub badge : BuildStatus → String × String
badge succeeded = ("Succeeded", "succeeded")
badge failed = ("Failed", "failed")
badge running = ("Running", "running")
badge pending = ("Pending", "pending")
badge cancelled = ("Cancelled", "cancelled")
badge dependency_failed = ("Dependency Failed", "failed")
badge aborted = ("Aborted", "aborted")
badge failed_with_output = ("Failed w/ Output", "failed")
badge timeout = ("Timeout", "failed")
badge cached_failure = ("Cached Failure", "failed")
badge unsupported_system = ("Unsupported System", "skipped")
badge log_limit_exceeded = ("Log Limit", "failed")
badge nar_size_limit_exceeded = ("NAR Size Limit", "failed")
badge non_deterministic = ("Non-deterministic", "failed")
badge oom_killed = ("OOM Killed", "failed")

-- `Display`.
unfoldable pub fmt : BuildStatus → String
fmt pending = "pending"
fmt running = "running"
fmt succeeded = "succeeded"
fmt failed = "failed"
fmt dependency_failed = "dependency failed"
fmt aborted = "aborted"
fmt cancelled = "cancelled"
fmt failed_with_output = "failed with output"
fmt timeout = "timeout"
fmt cached_failure = "cached failure"
fmt unsupported_system = "unsupported system"
fmt log_limit_exceeded = "log limit exceeded"
fmt nar_size_limit_exceeded = "nar size limit exceeded"
fmt non_deterministic = "non-deterministic"
fmt oom_killed = "oom killed"
