-- ===== src/FilePath.antt =====
-- path/filepath as far as it is used: clean paths, and `Join`.
pub mod Laws
pub mod RoundTrip
use jobmaster.Base.{
  Bool, false, ◌||◌, List, [], ◌∷◌, ◌++◌, Text, codes, text_eq, ◌==◌, if◌then◌else◌, is_nil,
}

-- A clean path; the last component stands first.
pub record FilePath : Type 0 where
  pub rooted : Bool
  pub parts : List Text

-- The components between the slashes.
pub split_from : Text → Text → List Text
split_from cur [] = cur ∷ []
split_from cur (c ∷ s) =
    let closed = cur ∷ split_from [] s in
    let longer = split_from (cur ++ c ∷ []) s in if c == b'/' then closed else longer

unfoldable pub split_slash : Text → List Text
unfolding split_from
split_slash s = split_from [] s

-- ".." takes a component off, except at the root and behind another "..".
go_up : Bool → List Text → List Text
go_up rooted [] = if rooted then [] else codes ".." ∷ []
go_up rooted (p ∷ ps) = if text_eq p (codes "..") then codes ".." ∷ p ∷ ps else ps

unfoldable pub resolve : Bool → List Text → Text → List Text
unfolding go_up
resolve rooted parts part =
    if is_nil part || text_eq part (codes ".")
    then parts
    else if text_eq part (codes "..")
    then go_up rooted parts
    else part ∷ parts

unfoldable pub resolve_all : Bool → List Text → List Text → List Text
resolve_all rooted parts [] = parts
resolve_all rooted parts (p ∷ ps) = resolve_all rooted (resolve rooted parts p) ps

is_rooted : Text → Bool
is_rooted [] = false
is_rooted (c ∷ s) = c == b'/'

-- filepath.Clean.
unfoldable pub clean : Text → FilePath
unfolding is_rooted
clean s = record { rooted = is_rooted s; parts = resolve_all (is_rooted s) [] (split_slash s) }

-- filepath.Join of a clean path and one more element.
unfoldable pub join : FilePath → Text → FilePath
join p s = record p { parts = resolve_all p.rooted p.parts (split_slash s) }

-- The components, the first first, with slashes between them.
unfoldable pub slashed : List Text → Text
slashed [] = []
slashed (p ∷ []) = p
slashed (p ∷ ps) = slashed ps ++ b'/' ∷ p

-- A clean path as the string that `Clean`, `Join` and `Abs` return.
unfoldable pub path_text : FilePath → Text
path_text p =
    if p.rooted
    then codes "/" ++ slashed p.parts
    else if is_nil p.parts
    then codes "."
    else slashed p.parts
