-- ===== src/FilePath/Laws.antt =====
-- Joining a plain name to a path adds a component.
use jobmaster.Base.{
  ◌≡◌, sym, ap, ◌≢◌, [], ◌∷◌, ◌++◌, arith, Text, codes, text_eq_iff, All, append_assoc, append-nil,
}
use jobmaster.FilePath.{FilePath, split_from, split_slash, resolve, resolve_all, join}

-- A name of one component: not empty, not "." or "..", and with no slash.
abbrev pub IsName : Text → Type 0
IsName s = (s ≢ []) × (s ≢ codes ".") × (s ≢ codes "..") × All (λ c. c ≢ b'/') s

pub split_from-plain : (cur s : Text) → All (λ c. c ≢ b'/') s → split_from cur s ≡ (cur ++ s) ∷ []
unfolding split_from
split_from-plain cur [] h = ap (λ t. t ∷ []) (sym (append-nil cur))
split_from-plain cur (c ∷ s) (h, hs) =
    ground (arith, split_from-plain (cur ++ c ∷ []) s hs, append_assoc cur (c ∷ []) s)

pub join-name : (p : FilePath) (s : Text) → IsName s → join p s ≡ record p { parts = s ∷ p.parts }
unfolding join split_slash resolve_all resolve
join-name p s (full, dot, dots, plain) =
    rw (split_from-plain [] s plain)
      (ground (arith, text_eq_iff s (codes "."), text_eq_iff s (codes "..")))
