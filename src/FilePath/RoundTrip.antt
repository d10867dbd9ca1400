-- ===== src/FilePath/RoundTrip.antt =====
-- A clean rooted path is read back from its text.
use jobmaster.Base.{
  ◌≡◌, refl, sym, ap, ◌∙◌, Bool, true, List, [], ◌∷◌, ◌++◌, arith, Text, codes, text_eq_iff, All,
}
use jobmaster.FilePath.{
  FilePath, split_from, split_slash, resolve, resolve_all, clean, slashed, path_text, is_rooted,
}
use jobmaster.FilePath.Laws.{IsName, split_from-plain}

split_from-slash :
    (cur s t : Text) → split_from cur (s ++ b'/' ∷ t) ≡ split_from cur s ++ split_from [] t
unfolding split_from
split_from-slash cur [] t = refl
split_from-slash cur (c ∷ s) t =
    ground (arith, split_from-slash [] s t, split_from-slash (cur ++ c ∷ []) s t)

resolve_all-append :
    (r : Bool) (ps xs ys : List Text)
    → resolve_all r ps (xs ++ ys) ≡ resolve_all r (resolve_all r ps xs) ys
unfolding resolve_all
resolve_all-append r ps [] ys = refl
resolve_all-append r ps (x ∷ xs) ys = resolve_all-append r (resolve r ps x) xs ys

resolve-name : (r : Bool) (ps : List Text) (s : Text) → IsName s → resolve r ps s ≡ s ∷ ps
unfolding resolve
resolve-name r ps s (full, dot, dots, plain) =
    ground (arith, text_eq_iff s (codes "."), text_eq_iff s (codes ".."))

resolve_all-slashed :
    (r : Bool) (p : Text) (ps : List Text)
    → All IsName (p ∷ ps)
    → resolve_all r [] (split_slash (slashed (p ∷ ps))) ≡ p ∷ ps
unfolding split_slash resolve_all slashed
resolve_all-slashed r p [] (name, done) =
    rw (split_from-plain [] p name.3) (resolve-name r [] p name)
resolve_all-slashed r p (q ∷ ps) (name, names) =
    ap (resolve_all r []) (
      split_from-slash [] (slashed (q ∷ ps)) p
      ∙ ap (λ parts. split_from [] (slashed (q ∷ ps)) ++ parts) (split_from-plain [] p name.3))
    ∙ resolve_all-append r [] (split_from [] (slashed (q ∷ ps))) (p ∷ [])
    ∙ ap (λ parts. resolve r parts p) (resolve_all-slashed r q ps names)
    ∙ resolve-name r (q ∷ ps) p name

abbrev rooted_at : List Text → FilePath
rooted_at parts = record { rooted = true; parts = parts }

clean-rooted :
    (parts : List Text) → All IsName parts → clean (path_text (rooted_at parts)) ≡ rooted_at parts
unfolding clean path_text split_slash split_from resolve_all resolve slashed is_rooted
clean-rooted [] names = refl
clean-rooted (p ∷ ps) names = ap rooted_at (resolve_all-slashed true p ps names)

pub clean-path_text :
    (p : FilePath) → p.rooted ≡ true → All IsName p.parts → clean (path_text p) ≡ p
clean-path_text p rooted names =
    let e : p ≡ rooted_at p.parts = ap (λ r. record p { rooted = r }) rooted in
    ap (λ q. clean (path_text q)) e ∙ clean-rooted p.parts names ∙ sym e
