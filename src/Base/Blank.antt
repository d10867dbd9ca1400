-- ===== src/Base/Blank.antt =====
-- strings.TrimSpace leaves nothing exactly of the texts that hold only white space.
use Prim.Native.Nat.{ℕ}
use mathlib.Core.Path.{◌≡◌, refl, sym, ap, ◌∙◌}
use mathlib.Core.Logic.{◌↔◌, ◌≢◌, ◌⊎◌, inl, inr}
use mathlib.Core.Bool.{true, false}
use mathlib.Core.List.{[], ◌∷◌, ◌++◌, reverse, reverse-cons, reverse-reverse}
use native.Mathlib.Omega.{arith}
use jobmaster.Base.Tests.{Bool-cases}
use jobmaster.Base.Lists.{All}
use jobmaster.Base.Texts.{Text, text_eq_iff, is_space, trim_left, trim_space, is_blank}

abbrev pub IsSpaces : Text → Type 0
IsSpaces s = All (λ c. is_space c ≡ true) s

-- `is_space` stays shut in these.
trim_left_of_IsSpaces : (s : Text) → IsSpaces s → trim_left s ≡ []
unfolding trim_left
trim_left_of_IsSpaces [] h = refl
trim_left_of_IsSpaces (c ∷ s) (h, hs) = rw h (trim_left_of_IsSpaces s hs)

-- What is left begins with a character that is no space.
trim_left_cases :
    (s : Text) → IsSpaces s ⊎ ((c : ℕ) × (r : Text) × (trim_left s ≡ c ∷ r) × (is_space c ≡ false))
unfolding trim_left
trim_left_cases [] = inl tt
trim_left_cases (c ∷ s) = elim (Bool-cases (is_space c)) [
  | inr solid ↦ inr (c, s, rw solid, solid)
  | inl blank ↦ elim (trim_left_cases s) [
    | inl rest ↦ inl (blank, rest)
    | inr (d, r, e, solid) ↦ inr (d, r, rw blank e, solid)
  ]
]

trim_left-ne-nil : (s : Text) (c : _) → is_space c ≡ false → trim_left (s ++ c ∷ []) ≢ []
unfolding trim_left
trim_left-ne-nil [] c h = rw h (cc)
trim_left-ne-nil (d ∷ s) c h = ground (arith, trim_left-ne-nil s c h)

reverse-ne-nil : (s : Text) → s ≢ [] → reverse s ≢ []
reverse-ne-nil s h e = h (sym (reverse-reverse s) ∙ ap reverse e)

trim_space-eq-nil_iff : (s : Text) → (trim_space s ≡ []) ↔ IsSpaces s
unfolding trim_space trim_left
trim_space-eq-nil_iff s = elim (trim_left_cases s) [
  | inl blank ↦ (λ _. blank, λ _. rw (trim_left_of_IsSpaces s blank) refl)
  | inr (c, r, e, solid) ↦ (
    λ h. absurd (
        reverse-ne-nil (trim_left (reverse (c ∷ r)))
          (rw reverse-cons (trim_left-ne-nil (reverse r) c solid)) (rw e at h)),
    λ blank. absurd (cc (trim_left_of_IsSpaces s blank)),
  )
]

-- `s == "" || strings.TrimSpace(s) == ""` holds exactly of the texts of white space.
pub is_blank_iff : (s : Text) → (is_blank s ≡ true) ↔ IsSpaces s
unfolding is_blank
is_blank_iff s =
    ground (arith, text_eq_iff s [], text_eq_iff (trim_space s) [], trim_space-eq-nil_iff s)
