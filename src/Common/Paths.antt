-- ===== src/Common/Paths.antt =====
-- path/filepath on Unix: Clean and Join.
use mathlib.Core.List.{reverse}
use locksmith.Common.{◌≡◌, refl, Bool, ◌&&◌, ◌||◌, not, List, [], ◌∷◌, ◌++◌, if◌then◌else◌}
use locksmith.Common.Text.{Text, codes, text_eq, is_empty, has_prefix}
use locksmith.Common.Split.{split_on, join_with}

-- The elements kept so far, last first: "" and "." are dropped, ".." takes the last element away,
-- and stays where there is none to take, except at the root.
unfoldable pub clean_step : Bool → List Text → Text → List Text
clean_step rooted [] e =
    if is_empty e || text_eq e (codes ".")
    then []
    else if text_eq e (codes "..") && rooted
    then []
    else e ∷ []
clean_step rooted (last ∷ kept) e =
    if is_empty e || text_eq e (codes ".")
    then last ∷ kept
    else if text_eq e (codes "..") && not (text_eq last (codes ".."))
    then kept
    else e ∷ last ∷ kept

unfoldable pub clean_loop : Bool → List Text → List Text → List Text
clean_loop rooted kept [] = kept
clean_loop rooted kept (e ∷ es) = clean_loop rooted (clean_step rooted kept e) es

-- filepath.Clean
unfoldable pub clean : Text → Text
clean s =
    let rooted = has_prefix s (codes "/") in
    let body = join_with b'/' (reverse (clean_loop rooted [] (split_on b'/' s))) in
    if rooted then b'/' ∷ body else if is_empty body then codes "." else body

-- filepath.Join of two elements: empty elements are ignored.
unfoldable pub join_path : Text → Text → Text
join_path a b =
    if is_empty a
    then (if is_empty b then [] else clean b)
    else if is_empty b
    then clean a
    else clean (a ++ (b'/' ∷ b))

join_path_test :
    (join_path (codes "/home/u/") (codes ".config/locksmith/../x") ≡ codes "/home/u/.config/x")
    × (join_path (codes "/") (codes "../a//b/.") ≡ codes "/a/b")
    × (join_path (codes "a/..") (codes "../b") ≡ codes "../b")
unfolding join_path clean clean_loop clean_step split_on join_with is_empty text_eq has_prefix
join_path_test = (refl, refl, refl)
