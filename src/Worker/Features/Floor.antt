-- ===== src/Worker/Features/Floor.antt =====
-- crates/queue-runner/src/features.rs: no computation loses a feature of the job itself.
use circus.Common.{
  ◌≡◌, ◌↔◌, ◌⊎◌, inl, inr, Bool, true, false, List, [], ◌∷◌, ◌++◌, some, String, eq_iff, Result, ok,
  arith, In, In-append_iff, all, Option-cases, Result-cases, subst, sym,
}
use circus.Models.Rows.{Build, scheduling_features}
use circus.Rpc.Agent.{contains}
use circus.Rpc.Agent.Features.{contains_iff}
use circus.Builds.{Table}
use circus.Dispatch.Caps.{RemoteBuilder, supports_required_features}
use circus.Dispatch.Venue.{VenueContext}
use circus.Worker.{BuildResult, RunAnswers}
use circus.Worker.Execute.{is_skipped, try_builders}
use circus.Worker.Execute.Builders.{RunsOn, RunsOn-ran, try_builders-RunsOn}
use circus.Worker.Features.{
  insert_text, collect_set, with_required_floor, ensure_effective_features,
}

insert_text_iff : (f s : String) (ts : List String) → In f (insert_text s ts) ↔ ((f ≡ s) ⊎ In f ts)
unfolding insert_text
insert_text_iff f s [] = (λ h. h, λ h. h)
insert_text_iff f s (t ∷ ts) = ground (arith, insert_text_iff f s ts, eq_iff s t)

collect_set_iff : (f : String) (ts : List String) → In f (collect_set ts) ↔ In f ts
unfolding collect_set
collect_set_iff f [] = (λ h. h, λ h. h)
collect_set_iff f (t ∷ ts) =
    ground (arith, collect_set_iff f ts, insert_text_iff f t (collect_set ts))

-- The floor adds the features of the job, and nothing else.
with_required_floor_iff :
    (f : String) (computed required : List String)
    → In f (with_required_floor computed required) ↔ (In f computed ⊎ In f required)
unfolding with_required_floor
with_required_floor_iff f computed required =
    ground (arith, collect_set_iff f (computed ++ required), In-append_iff f computed required)

-- A feature of the job stays among those that the build is scheduled on.
ensured_has :
    (computed : Result {0, 0} String (List String)) (persists : Bool) (build : Build) (t : Table)
    (f : String)
    → In f build.required_features
    → In f (scheduling_features build)
    → In f (scheduling_features (ensure_effective_features computed persists build t).build)
unfolding ensure_effective_features scheduling_features
ensured_has computed persists build t f job now = elim (Option-cases build.effective_features) [
  | inr (features, e) ↦ ground (arith, e, now)
  | inl n ↦ elim (Result-cases computed) [
    | inr (e, k) ↦ ground (arith, n, k, now)
    | inl (features, k) ↦
        ground (arith, n, k, job, with_required_floor_iff f features build.required_features)
  ]
]

all_has : (xs ys : List String) (f : String) → all (contains ys) xs ≡ true → In f xs → In f ys
all_has [] ys f h i = elim i [ ]
all_has (x ∷ xs) ys f h (inl e) =
    (contains_iff ys f).0 (subst (λ z. contains ys z ≡ true) (sym e) (ground (arith, h)))
all_has (x ∷ xs) ys f h (inr i) = all_has xs ys f (ground (arith, h)) i

able_has :
    {D : Type 0} (ctx : VenueContext D) (a : RunAnswers) (build : Build) (b : RemoteBuilder)
    (f : String)
    → is_skipped ctx a build b ≡ false
    → In f (scheduling_features build)
    → In f b.supported_features
unfolding is_skipped supports_required_features
able_has ctx a build b f n i =
    all_has (scheduling_features build) b.supported_features f (ground (arith, n)) i

-- Whatever nix computes, and whether or not the result is kept in the row: when the SSH builders are tried
-- with the ensured features and give a result, one builder of the list ran the build (those before it were
-- skipped or failed) and gave that result, and it has every feature of the job itself. The features that
-- the build comes with from an earlier attempt, if any, are taken to include those of the job.
pub builder_has_job_features :
    {D : Type 0} (ctx : VenueContext D) (a : RunAnswers)
    (computed : Result {0, 0} String (List String)) (persists : Bool) (build : Build) (t : Table)
    (builders : List RemoteBuilder) (r : BuildResult)
    → ((f : String) → In f build.required_features → In f (scheduling_features build))
    → let ensured = (ensure_effective_features computed persists build t).build in
      (try_builders ctx a ensured builders).outcome ≡ some r
      → (b : RemoteBuilder) × RunsOn ctx a ensured builders b r
        × (a.remote_run b ≡ ok r)
        × ((f : String) → In f build.required_features → In f b.supported_features)
builder_has_job_features ctx a computed persists build t builders r now out =
    let ensured = (ensure_effective_features computed persists build t).build in
    let (b, on) = try_builders-RunsOn ctx a ensured builders r out in
    let (n, k) = RunsOn-ran ctx a ensured builders b r on in
    (
      b,
      on,
      k,
      λ f job.
          able_has ctx a ensured b f n (ensured_has computed persists build t f job (now f job)),
    )
