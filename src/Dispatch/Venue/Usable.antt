-- ===== src/Dispatch/Venue/Usable.antt =====
-- crates/queue-runner/src/dispatch.rs: which host may take a build.
use circus.Common.{
  ◌≡◌, ◌≢◌, refl, sym, ◌↔◌, ◌⊎◌, inl, inr, true, false, List, [], ◌∷◌, Option, none, some, String,
  arith, In, all, Bool-cases, Option-cases, some_inj, subst,
}
use circus.Rpc.Agent.{contains}
use circus.Rpc.Agent.Features.{contains_iff}
use circus.Dispatch.Caps.{RunnerCaps, serves, supports, supports_required_features, RemoteBuilder}
use circus.Dispatch.Venue.{PsiSnapshot, exceeds, VenueContext, under_pressure, any_builder}

all_contained :
    (xs ys : List String) → (all (contains ys) xs ≡ true) ↔ ((x : String) → In x xs → In x ys)
all_contained [] ys = (λ h x i. absurd i, λ h. refl)
all_contained (x ∷ xs) ys = (
  λ h y i. elim i [
    | inl e ↦ subst (λ z. In z ys) (sym e) ((contains_iff ys x).0 (ground (arith, h)))
    | inr later ↦ (all_contained xs ys).0 (ground (arith, h)) y later
  ],
  λ h.
      let first = (contains_iff ys x).1 (h x (inl refl)) in
      let rest = (all_contained xs ys).1 (λ y i. h y (inr i)) in ground (arith, first, rest),
)

-- The runner host takes a build: it builds at all, the system is one of its own (if one is named), and it
-- has every feature.
pub record IsOpen (caps : RunnerCaps) (system : Option String) (features : List String)
    : Type 0 where
  pub enabled : caps.enabled ≡ true
  pub listed : (s : String) → system ≡ some s → In s caps.systems
  pub equipped : (f : String) → In f features → In f caps.features

serves_sound :
    (systems : List String) (system : Option String) (s : String)
    → serves systems system ≡ true
    → system ≡ some s
    → In s systems
serves_sound systems none s h e = cc
serves_sound systems (some t) s h e =
    subst (λ z. In z systems) (some_inj e) ((contains_iff systems t).0 h)

serves_complete :
    (systems : List String) (system : Option String)
    → ((s : String) → system ≡ some s → In s systems)
    → serves systems system ≡ true
serves_complete systems none h = refl
serves_complete systems (some s) h = (contains_iff systems s).1 (h s refl)

pub supports_iff :
    (caps : RunnerCaps) (system : Option String) (features : List String)
    → (supports caps system features ≡ true) ↔ IsOpen caps system features
unfolding supports
supports_iff caps system features = (
  λ h. record {
    enabled = ground (arith, h);
    listed = λ s e. serves_sound caps.systems system s (ground (arith, h)) e;
    equipped = (all_contained features caps.features).0 (ground (arith, h));
  },
  λ o.
      let on = o.enabled in
      let fits = serves_complete caps.systems system o.listed in
      let has = (all_contained features caps.features).1 o.equipped in
      ground (arith, on, fits, has),
)

module _ {D : Type 0} (ctx : VenueContext D) where
  -- The builder is not known to be under pressure: no reading of it is above the threshold.
  pub data IsCalm (b : RemoteBuilder) : Type 0 where
    no_threshold : ctx.psi_threshold ≡ none → IsCalm b
    no_reading : ctx.pressure_of b.ssh_uri ≡ none → IsCalm b
    below :
        (t : D) (snap : PsiSnapshot D)
        → ctx.psi_threshold ≡ some t
        → ctx.pressure_of b.ssh_uri ≡ some snap
        → ctx.above snap.cpu_avg10 t ≡ false
        → ctx.above snap.memory_avg10 t ≡ false
        → ctx.above snap.io_avg10 t ≡ false
        → IsCalm b

  under_pressure-IsCalm : (b : RemoteBuilder) → under_pressure ctx b ≡ false → IsCalm b
  unfolding under_pressure exceeds
  under_pressure-IsCalm b h = elim (Option-cases ctx.psi_threshold) [
    | inl n ↦ no_threshold n
    | inr (t, e) ↦ elim (Option-cases (ctx.pressure_of b.ssh_uri)) [
      | inl n ↦ no_reading n
      | inr (snap, k) ↦
          let calm : exceeds ctx.above snap t ≡ false = ground (arith, e, k, h) in
          below t snap e k (ground (arith, calm)) (ground (arith, calm)) (ground (arith, calm))
    ]
  ]

  IsCalm-under_pressure : (b : RemoteBuilder) → IsCalm b → under_pressure ctx b ≡ false
  unfolding under_pressure exceeds
  IsCalm-under_pressure b (no_threshold n) = ground (arith, n)
  IsCalm-under_pressure b (no_reading n) = elim (Option-cases ctx.psi_threshold) [
    | inl m ↦ ground (arith, m)
    | inr (t, e) ↦ ground (arith, n, e)
  ]
  IsCalm-under_pressure b (below t snap e k c m i) = ground (arith, e, k, c, m, i)

  -- An SSH builder that may take a build with these features: its host key is pinned where that is
  -- demanded, it has every feature, the build needs all that the builder insists on, and it is calm.
  pub record IsUsable (features : List String) (b : RemoteBuilder) : Type 0 where
    pub pinned : (ctx.require_host_key ≡ false) ⊎ (b.public_host_key ≢ none)
    pub equipped : (f : String) → In f features → In f b.supported_features
    pub wanted : (f : String) → In f b.mandatory_features → In f features
    pub calm : IsCalm b

  able_iff :
      (features : List String) (b : RemoteBuilder)
      → (supports_required_features features b.supported_features b.mandatory_features ≡ true) ↔ (
          ((f : String) → In f features → In f b.supported_features)
          × ((f : String) → In f b.mandatory_features → In f features))
  unfolding supports_required_features
  able_iff features b = (
    λ h. (
      (all_contained features b.supported_features).0 (ground (arith, h)),
      (all_contained b.mandatory_features features).0 (ground (arith, h)),
    ),
    λ (has, insists).
        let x = (all_contained features b.supported_features).1 has in
        let y = (all_contained b.mandatory_features features).1 insists in ground (arith, x, y),
  )

  usable_here :
      (features : List String) (b : RemoteBuilder) (bs : List RemoteBuilder)
      → IsUsable features b
      → any_builder ctx features (b ∷ bs) ≡ true
  unfolding any_builder
  usable_here features b bs u =
      let able = (able_iff features b).1 (u.equipped, u.wanted) in
      let calm = IsCalm-under_pressure b u.calm in ground (arith, u.pinned, able, calm)

  IsUsable-of_head :
      (features : List String) (b : RemoteBuilder) (bs : List RemoteBuilder)
      → any_builder ctx features (b ∷ bs) ≡ true
      → any_builder ctx features bs ≡ false
      → IsUsable features b
  unfolding any_builder
  IsUsable-of_head features b bs h n =
      let able : supports_required_features features b.supported_features b.mandatory_features
          ≡ true =
        ground arith in
      let (has, insists) = (able_iff features b).0 able in
      record {
        pinned = ground arith;
        equipped = has;
        wanted = insists;
        calm = under_pressure-IsCalm b (ground arith);
      }

  pub any_builder_sound :
      (features : List String) (bs : List RemoteBuilder)
      → any_builder ctx features bs ≡ true
      → (b : RemoteBuilder) × In b bs × IsUsable features b
  any_builder_sound features [] h = unfold any_builder in cc
  any_builder_sound features (b ∷ bs) h = elim (Bool-cases (any_builder ctx features bs)) [
    | inl later ↦ let (c, m, u) = any_builder_sound features bs later in (c, inr m, u)
    | inr none_later ↦ (b, inl refl, IsUsable-of_head features b bs h none_later)
  ]

  any_builder_later :
      (features : List String) (b : RemoteBuilder) (bs : List RemoteBuilder)
      → any_builder ctx features bs ≡ true
      → any_builder ctx features (b ∷ bs) ≡ true
  unfolding any_builder
  any_builder_later features b bs h = ground arith

  pub any_builder_complete :
      (features : List String) (bs : List RemoteBuilder) (b : RemoteBuilder)
      → In b bs
      → IsUsable features b
      → any_builder ctx features bs ≡ true
  any_builder_complete features [] b m u = absurd m
  any_builder_complete features (c ∷ bs) b (inl e) u =
      usable_here features c bs (subst (IsUsable features) e u)
  any_builder_complete features (c ∷ bs) b (inr m) u =
      any_builder_later features c bs (any_builder_complete features bs b m u)

  -- The loop over the SSH builders finds one exactly when a builder of the list has a pinned host key
  -- (where that is demanded), can run the features, and is not known to be under pressure.
  any_builder_iff :
      (features : List String) (bs : List RemoteBuilder)
      → (any_builder ctx features bs ≡ true) ↔ ((b : RemoteBuilder) × In b bs × IsUsable features b)
  any_builder_iff features bs =
      (any_builder_sound features bs, λ (b, m, u). any_builder_complete features bs b m u)
