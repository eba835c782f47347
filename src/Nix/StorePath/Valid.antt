-- ===== src/Nix/StorePath/Valid.antt =====
-- crates/nix/src/store.rs: which paths `StorePath::parse` accepts.
use circus.Common.{
  ℕ, suc, ◌≡◌, ◌≢◌, ◌↔◌, ◌<◌, refl, ap, inl, inr, [], ◌∷◌, ◌++◌, Bytes, ok, arith, length,
  replicate, Bool-cases, ◌==◌,
}
use circus.Common.Strings.{contains_text, starts_with_iff, contains_text_iff}
use circus.Nix.StorePath.{slash, unless_last, trim_end_slashes, dots, is_valid, parse}

-- A text is what is left of it and a run of slashes.
trimmed_rest : (s : Bytes) → (n : ℕ) × (s ≡ trim_end_slashes s ++ replicate n slash)
unfolding trim_end_slashes
trimmed_rest [] = (0, refl)
trimmed_rest (c ∷ s) = let (n, e) = trimmed_rest s in go c s (trim_end_slashes s) n e
  where
    go :
        (c : ℕ) (s t : Bytes) (n : ℕ)
        → s ≡ t ++ replicate n slash
        → (m : ℕ) × (c ∷ s ≡ unless_last c t ++ replicate m slash)
    go c s [] n e = elim (Bool-cases (c == slash)) [
      | inl h ↦ (suc n, ground (arith, e, h))
      | inr h ↦ (n, ground (arith, e, h))
    ]
    go c s (d ∷ t) n e = (n, ap (λ x. c ∷ x) e)

not_after : (s t : Bytes) → trim_end_slashes s ≢ t ++ (slash ∷ [])
unfolding trim_end_slashes
not_after [] [] e = cc
not_after [] (x ∷ t) e = cc
not_after (c ∷ s) t e = go c (trim_end_slashes s) (not_after s) t e
  where
    go :
        (c : ℕ) (r : Bytes)
        → ((t : Bytes) → r ≢ t ++ (slash ∷ []))
        → (t : Bytes) → unless_last c r ≢ t ++ (slash ∷ [])
    go c [] h [] e = ground (arith, e)
    go c [] h (x ∷ []) e = ground (arith, e)
    go c [] h (x ∷ y ∷ t) e = ground (arith, e)
    go c (d ∷ r) h [] e = ground (arith, e)
    go c (d ∷ r) h (x ∷ t) e = h t (ground (arith, e))

-- What the store directory is trimmed to is the directory without a run of slashes at its end, and
-- ends in no slash itself.
trim_end_slashes_exact :
    (s : Bytes)
    → ((n : ℕ) × (s ≡ trim_end_slashes s ++ replicate n slash))
      × ((t : Bytes) → trim_end_slashes s ≢ t ++ (slash ∷ []))
trim_end_slashes_exact s = (trimmed_rest s, not_after s)

-- `StorePath::parse` accepts a path, and keeps it as it is, exactly when the path is the store
-- directory without its trailing slashes, a slash and any rest, with no `..` anywhere in it, and is
-- shorter than 512 bytes.
pub parse_iff_valid :
    (path store_dir p : Bytes)
    → (parse path store_dir ≡ ok p) ↔ (
        (path ≡ p)
        × ((rest : Bytes) × (path ≡ (trim_end_slashes store_dir ++ (slash ∷ [])) ++ rest))
        × (¬ ((a b : Bytes) × (path ≡ a ++ (dots ++ b))))
        × (length path < 512))
unfolding parse is_valid
parse_iff_valid path store_dir p =
    let (s1, s2) = starts_with_iff (trim_end_slashes store_dir ++ (slash ∷ [])) path in
    let (c1, c2) = contains_text_iff dots path in
    (
      λ h. (
        ground (arith, h),
        s1 (ground (arith, h)),
        (λ m. ground (arith, h, c2 m)),
        ground (arith, h),
      ),
      λ (e, under, clean, short). elim (Bool-cases (contains_text dots path)) [
        | inl bad ↦ absurd (clean (c1 bad))
        | inr good ↦ ground (arith, e, s2 under, good, short)
      ],
    )
