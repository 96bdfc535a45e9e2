-- ===== src/Suggest/Tests.antt =====
-- Runs of the suggestion.
use compiled_lua.Common.{ℕ, ◌-◌, ◌≤◌, min}
use compiled_lua.Common.{◌≡◌, refl, ◌⊎◌}
use compiled_lua.Common.{Option, none, some, List, [], ◌∷◌, arith}
use compiled_lua.Common.{length, get_or, take}
use compiled_lua.Common.Name.{Name, codes}
use compiled_lua.Suggest.{lc_damerau_levenshtein, suggest_name}
use compiled_lua.Suggest.Distance.{distance, lc_damerau_levenshtein_lem}
use compiled_lua.Suggest.Best.{AllFrom, First, suggest_name_lem}

swap_test : lc_damerau_levenshtein (codes "pritn") (codes "print") ≡ some 1
unfolding lc_damerau_levenshtein
swap_test = refl

abbrev pool : List (Option Name)
pool = some (codes "pairs") ∷ none ∷ some (codes "print") ∷ []

suggest_name_lem_example :
    ((suggest_name (codes "pritn") pool 64 ≡ none) × AllFrom (codes "pritn") pool 3)
    ⊎ ((k : ℕ) × (d : ℕ) × (best : Name) × (get_or pool k none ≡ some best)
        × (d ≤ 2)
        × First (codes "pritn") pool k d
        × (suggest_name (codes "pritn") pool 64 ≡ some (take (min (64 - 1) (length best)) best)))
suggest_name_lem_example = suggest_name_lem (codes "pritn") pool 64 (omega arith) (omega arith)

lc_damerau_levenshtein_lem_example :
    lc_damerau_levenshtein (codes "pritn") (codes "print")
    ≡ some (distance (codes "pritn") (codes "print") 5 5)
lc_damerau_levenshtein_lem_example =
    lc_damerau_levenshtein_lem (codes "pritn") (codes "print") (omega arith) (omega arith)
