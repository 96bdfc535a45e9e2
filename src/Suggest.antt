-- ===== src/Suggest.antt =====
-- clua/src/compiler/diag_suggest.c: "did you mean" for a misspelled name. A candidate that is
-- NULL is `none`, and so is a distance of -1.
use compiled_lua.Common.{ℕ, zero, suc, ◌+◌, ◌-◌}
use compiled_lua.Common.{◌&&◌, ◌||◌}
use compiled_lua.Common.{Option, none, some, List, [], ◌∷◌, ◌++◌}
use compiled_lua.Common.{ltb, leb, ◌==◌, if◌then◌else◌}
use compiled_lua.Common.{length, get_or, take}
pub mod Best
pub mod Distance
mod Tests
use compiled_lua.Common.Name.{Name, name_eq}

abbrev pub suggest_max_len : ℕ
suggest_max_len = 128

abbrev pub suggest_min_bad_len : ℕ
suggest_min_bad_len = 4

abbrev pub suggest_max_dist : ℕ
suggest_max_dist = 2

unfoldable pub min3 : ℕ → ℕ → ℕ → ℕ
min3 a b c = let m = if ltb a b then a else b in if ltb m c then m else c

-- d[ i ][ j ], where `above` is row i - 1, `above2` row i - 2 and `row` what row i has so far.
unfoldable pub cell : Name → Name → List ℕ → List ℕ → List ℕ → ℕ → ℕ → ℕ
unfolding min3
cell a b above above2 row i j =
    let cost = if get_or a (i - 1) 0 == get_or b (j - 1) 0 then 0 else 1 in
    let best =
      min3 (get_or above j 0 + 1) (get_or row (j - 1) 0 + 1) (get_or above (j - 1) 0 + cost) in
    let trans = get_or above2 (j - 2) 0 + 1 in
    if leb 2 i
      && leb 2 j
      && get_or a (i - 1) 0 == get_or b (j - 2) 0
      && get_or a (i - 2) 0 == get_or b (j - 1) 0
    then if ltb trans best then trans else best
    else best

unfoldable pub fill_row : Name → Name → List ℕ → List ℕ → ℕ → ℕ → ℕ → List ℕ → List ℕ
unfolding cell
fill_row a b above above2 i zero j row = row
fill_row a b above above2 i (suc rounds) j row =
    fill_row a b above above2 i rounds (j + 1) (row ++ cell a b above above2 row i j ∷ [])

-- The rows from `i` on; the last one is the result.
unfoldable pub fill : Name → Name → ℕ → ℕ → List ℕ → List ℕ → List ℕ
unfolding fill_row
fill a b zero i above above2 = above
fill a b (suc rounds) i above above2 =
    fill a b rounds (i + 1) (fill_row a b above above2 i (length b) 1 (i ∷ [])) above

unfoldable pub count_up : ℕ → ℕ → List ℕ
count_up j zero = j ∷ []
count_up j (suc rounds) = j ∷ count_up (j + 1) rounds

unfoldable pub lc_damerau_levenshtein : Name → Name → Option ℕ
unfolding fill count_up
lc_damerau_levenshtein a b =
    if ltb suggest_max_len (length a) || ltb suggest_max_len (length b)
    then none
    else some (get_or (fill a b (length a) 1 (count_up 0 (length b)) []) (length b) 0)

-- The distance of a candidate that the loop does not pass over.
unfoldable pub considered : Name → Option Name → Option ℕ
considered bad none = none
considered bad (some c) = if name_eq c bad then none else elim (lc_damerau_levenshtein bad c) [
  | none ↦ none
  | some d ↦ if ltb suggest_max_dist d then none else some d
]

unfoldable pub pick : Name → List (Option Name) → ℕ → Option Name → Option Name
pick bad [] best_dist best = best
pick bad (c ∷ cs) best_dist best =
    let kept = pick bad cs best_dist best in
    elim (considered bad c) [
      | none ↦ kept
      | some d ↦ if ltb d best_dist then pick bad cs d c else kept
    ]

-- The text that is written, for a buffer of `outsz` bytes; `none` where the result is 0.
unfoldable pub suggest_name : Name → List (Option Name) → ℕ → Option Name
suggest_name bad candidates outsz =
    if outsz == 0
    then none
    else if ltb (length bad) suggest_min_bad_len
    then none
    else elim (pick bad candidates (suggest_max_dist + 1) none) [
      | none ↦ none
      | some best ↦
          some (take (if ltb outsz (length best + 1) then outsz - 1 else length best) best)
    ]
