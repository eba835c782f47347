-- ===== src/Tests/Cascades.antt =====
-- Tests of the cancellation of a build with all that depend on it.
use circus.Common.{◌≡◌, ◌≢◌, refl, true, List, [], ◌∷◌, inl, ◌==◌, if◌then◌else◌}
use circus.Models.Rows.{Build}
use circus.Rpc.Agent.{Uuid}
use circus.Dispatch.Select.{Answer, answered}
use circus.Builds.{Table, set_cancelled, cancel}
use circus.Builds.Cascade.{
  finished, out_of_fuel, cancel_cascade, cancel_target, cascade, cancel_each, cancel_one,
}
use circus.Builds.Cascade.Ends.{cancel_cascade-Ends}
use circus.Builds.Cascade.Closed.{IsSettled, cancel_cascade-Closed}
use circus.Tests.{kvm_build}

abbrev checks : Build
checks = record kvm_build { id = 8; drv_path = "/nix/store/checks.drv" }

abbrev waiting_rows : Table
waiting_rows = kvm_build ∷ checks ∷ []

-- The checks depend on the build, and by a faulty row the build on the checks.
abbrev dependents : Uuid → Answer (List Uuid)
dependents id = if id == 7 then answered (8 ∷ []) else answered (7 ∷ [])

abbrev gone : List Build
gone = set_cancelled 9000 kvm_build ∷ set_cancelled 9000 checks ∷ []

both_cancelled : cancel_cascade 9000 dependents (λ id. true) 7 waiting_rows ≡ finished gone gone
unfolding cancel_cascade cancel_target cascade cancel_each cancel_one cancel
both_cancelled = refl

cancel_cascade-Ends_example :
    cancel_cascade 9000 dependents (λ id. true) 7 waiting_rows ≢ out_of_fuel
cancel_cascade-Ends_example = cancel_cascade-Ends 9000 dependents (λ id. true) 7 waiting_rows

cancel_cascade-Closed_example : IsSettled gone 8
cancel_cascade-Closed_example =
    cancel_cascade-Closed 9000 dependents (λ id. true) 7 waiting_rows gone gone 7 8 both_cancelled
      (inl refl) (8 ∷ [], refl, inl refl) refl
