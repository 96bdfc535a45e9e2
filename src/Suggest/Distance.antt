-- ===== src/Suggest/Distance.antt =====
-- clua/src/compiler/diag_suggest.c, `lc_damerau_levenshtein`: the table against the distance by
-- recursion on the prefixes.
use compiled_lua.Common.{ℕ, zero, suc, ◌+◌, ◌-◌, ◌≤◌, ◌<◌, min}
use compiled_lua.Common.{◌≡◌, refl, ap, ◌∙◌, ◌⊎◌, inl, inr, Bool, true, false, ◌&&◌}
use compiled_lua.Common.{some, List, [], ◌∷◌, ◌++◌, arith}
use compiled_lua.Common.{ltb, leb, ◌==◌, if◌then◌else◌, ltb→lt, Bool-cases}
use compiled_lua.Common.{length, length-append, get_or}
use compiled_lua.Common.{get_or-append_right, get_or-append_left}
use mathlib.Core.Path.{subst}
use compiled_lua.Common.Name.{Name}
use compiled_lua.Suggest.{
  suggest_max_len, min3, cell, fill_row, fill, count_up, lc_damerau_levenshtein,
}

-- The last characters of two prefixes are deleted, inserted, or replaced where they differ.
abbrev edit : ℕ → ℕ → ℕ → ℕ → ℕ → ℕ
edit x y del ins sub = min (min (del + 1) (ins + 1)) (sub + (if x == y then 0 else 1))

-- The distance of the first `i` characters of `a` from the first `j` of `b`, where two characters
-- that stand next to each other may also change places.
unfoldable pub distance : Name → Name → ℕ → ℕ → ℕ
distance a b zero j = j
distance a b (suc i) zero = suc i
distance a b (suc zero) (suc j) =
    edit (get_or a 0 0) (get_or b j 0) (suc j) (distance a b (suc zero) j) j
distance a b (suc (suc i)) (suc zero) =
    edit (get_or a (suc i) 0) (get_or b 0 0) (distance a b (suc i) (suc zero)) (suc (suc i)) (suc i)
distance a b (suc (suc i)) (suc (suc j)) =
    let best =
      edit (get_or a (suc i) 0) (get_or b (suc j) 0) (distance a b (suc i) (suc (suc j)))
        (distance a b (suc (suc i)) (suc j)) (distance a b (suc i) (suc j)) in
    if get_or a (suc i) 0 == get_or b j 0 && get_or a i 0 == get_or b (suc j) 0
    then min best (distance a b i j + 1)
    else best

not_below : (a b : ℕ) → ltb a b ≡ false → b ≤ a
not_below a b h = ground arith

pred : (n : ℕ) → suc n - 1 ≡ n
pred n = omega arith

pred2 : (n : ℕ) → suc (suc n) - 2 ≡ n
pred2 n = omega arith

min3-min : (a b c : ℕ) → min3 a b c ≡ min (min a b) c
unfolding min3
min3-min a b c = ground arith

leb-one : (i : ℕ) → i ≡ 0 → leb 2 (suc i) ≡ false
leb-one i e = rw e refl

leb-two : (i : ℕ) → leb 2 (suc (suc i)) ≡ true
leb-two i = ground arith

if-first {ℓ} :
    {A : Type ℓ} (p q r t : Bool) (x y : A) → p ≡ false → (if p && q && r && t then x else y) ≡ y
if-first true q r t x y e = cc e
if-first false q r t x y e = refl

if-second {ℓ} :
    {A : Type ℓ} (p q r t : Bool) (x y : A) → q ≡ false → (if p && q && r && t then x else y) ≡ y
if-second p true r t x y e = cc e
if-second true false r t x y e = refl
if-second false false r t x y e = refl

ltb-min : (t m : ℕ) → (if ltb t m then t else m) ≡ min m t
ltb-min t m = ground arith

cell-plain :
    (a b : Name) (above above2 row : List ℕ) (i j : ℕ)
    → (i ≡ 0) ⊎ (j ≡ 0)
    → cell a b above above2 row (suc i) (suc j)
      ≡ edit
          (get_or a i 0)
          (get_or b j 0)
          (get_or above (suc j) 0)
          (get_or row j 0)
          (get_or above j 0)
unfolding cell
cell-plain a b above above2 row i j edge =
    rw (pred i, pred j, min3-min)
      (elim edge [
        | inl first ↦ if-first (leb 2 (suc i)) _ _ _ _ _ (leb-one i first)
        | inr first ↦ if-second (leb 2 (suc i)) (leb 2 (suc j)) _ _ _ _ (leb-one j first)
      ])

cell-swap :
    (a b : Name) (above above2 row : List ℕ) (i j : ℕ)
    → cell a b above above2 row (suc (suc i)) (suc (suc j)) ≡ (
        let best =
          edit
            (get_or a (suc i) 0)
            (get_or b (suc j) 0)
            (get_or above (suc (suc j)) 0)
            (get_or row (suc j) 0)
            (get_or above (suc j) 0) in
        if get_or a (suc i) 0 == get_or b j 0 && get_or a i 0 == get_or b (suc j) 0
        then min best (get_or above2 j 0 + 1)
        else best)
unfolding cell
cell-swap a b above above2 row i j =
    rw (pred (suc i), pred (suc j), pred2 i, pred2 j, min3-min, leb-two i, leb-two j, ltb-min) refl

-- `row` has the distances of the first `i` characters of `a` from the first `k` of `b`, for `k`
-- below `n`.
record IsRow (a b : Name) (i n : ℕ) (row : List ℕ) : Type 0 where
  size : length row ≡ n
  entry : (k : ℕ) → k < n → get_or row k 0 ≡ distance a b i k

cell-distance :
    (a b : Name) (i j : ℕ) (above above2 row : List ℕ) {n : ℕ}
    → suc j < n
    → IsRow a b i n above
    → ((i' : ℕ) → i ≡ suc i' → IsRow a b i' n above2)
    → IsRow a b (suc i) (suc j) row
    → cell a b above above2 row (suc i) (suc j) ≡ distance a b (suc i) (suc j)
unfolding distance
cell-distance a b zero j above above2 row lt up up2 now =
    cell-plain a b above above2 row zero j (inl refl)
    ∙ rw (up.entry (suc j) lt, up.entry j (omega (arith, lt)), now.entry j (omega arith)) refl
cell-distance a b (suc i) zero above above2 row lt up up2 now =
    cell-plain a b above above2 row (suc i) zero (inr refl)
    ∙ rw (up.entry 1 lt, up.entry 0 (omega (arith, lt)), now.entry 0 (omega arith)) refl
cell-distance a b (suc i) (suc j) above above2 row lt up up2 now =
    let below = up2 i refl in
    cell-swap a b above above2 row i j
    ∙ rw
        (
          up.entry (suc (suc j)) lt,
          up.entry (suc j) (omega (arith, lt)),
          now.entry (suc j) (omega arith),
          below.entry j (omega (arith, lt)),
        )
        refl

IsRow-snoc :
    (a b : Name) (i n : ℕ) (row : List ℕ) (v : ℕ)
    → IsRow a b i n row
    → v ≡ distance a b i n
    → IsRow a b i (suc n) (row ++ v ∷ [])
IsRow-snoc a b i n row v h e = record {
  size = omega (arith, length-append row (v ∷ []), h.size);
  entry = λ k lt. elim (Bool-cases (ltb k n)) [
    | inl before ↦
        let inside = ltb→lt k n before in
        get_or-append_left row (v ∷ []) k 0 (omega (arith, inside, h.size)) ∙ h.entry k inside
    | inr last ↦
        let place : k ≡ length row + 0 = omega (arith, lt, h.size, not_below k n last) in
        let index : n ≡ k = omega (arith, place, h.size) in
        rw place (get_or-append_right row (v ∷ []) 0 0) ∙ e ∙ ap (distance a b i) index
  ];
}

fill_row-IsRow :
    (a b : Name) (above above2 : List ℕ) (i n m rounds j : ℕ) (row : List ℕ)
    → m ≡ suc j + rounds
    → m ≤ n
    → IsRow a b i n above
    → ((i' : ℕ) → i ≡ suc i' → IsRow a b i' n above2)
    → IsRow a b (suc i) (suc j) row
    → IsRow a b (suc i) m (fill_row a b above above2 (suc i) rounds (suc j) row)
unfolding fill_row
fill_row-IsRow a b above above2 i n m zero j row end room up up2 now =
    let whole : suc j ≡ m = omega (arith, end) in subst (λ k. IsRow a b (suc i) k row) whole now
fill_row-IsRow a b above above2 i n m (suc rounds) j row end room up up2 now =
    let v = cell a b above above2 row (suc i) (suc j) in
    let longer =
      IsRow-snoc a b (suc i) (suc j) row v now
        (cell-distance a b i j above above2 row (omega (arith, end, room)) up up2 now) in
    let after : suc j + 1 ≡ suc (suc j) = omega arith in
    rw after (
      fill_row-IsRow a b above above2 i n m rounds (suc j) (row ++ v ∷ []) (omega (arith, end)) room
        up up2 longer)

first-IsRow : (a b : Name) (i : ℕ) → IsRow a b (suc i) 1 (suc i ∷ [])
unfolding distance
first-IsRow a b i = record {
  size = refl;
  entry = λ k lt. (let e : k ≡ 0 = omega (arith, lt) in rw e refl);
}

fill-IsRow :
    (a b : Name) (m rounds i : ℕ) (above above2 : List ℕ)
    → m ≡ i + rounds
    → IsRow a b i (length b + 1) above
    → ((i' : ℕ) → i ≡ suc i' → IsRow a b i' (length b + 1) above2)
    → IsRow a b m (length b + 1) (fill a b rounds (suc i) above above2)
unfolding fill
fill-IsRow a b m zero i above above2 end up up2 =
    let whole : i ≡ m = omega (arith, end) in subst (λ k. IsRow a b k (length b + 1) above) whole up
fill-IsRow a b m (suc rounds) i above above2 end up up2 =
    let row =
      fill_row-IsRow a b above above2 i (length b + 1) (length b + 1) (length b) 0 (suc i ∷ [])
        (omega arith) (omega arith) up up2 (first-IsRow a b i) in
    let after : suc i + 1 ≡ suc (suc i) = omega arith in
    rw after (
      fill-IsRow a b m rounds (suc i) _ above (omega (arith, end)) row (λ i' e.
        (let same : i ≡ i' = omega (arith, e) in
          subst (λ k. IsRow a b k (length b + 1) above) same up)))

length-count_up : (j rounds : ℕ) → length (count_up j rounds) ≡ rounds + 1
unfolding count_up
length-count_up j zero = refl
length-count_up j (suc rounds) = omega (arith, length-count_up (j + 1) rounds)

get_or-count_up : (j rounds k : ℕ) → k < rounds + 1 → get_or (count_up j rounds) k 0 ≡ j + k
unfolding count_up
get_or-count_up j zero zero lt = omega arith
get_or-count_up j zero (suc k) lt = absurd (omega (arith, lt))
get_or-count_up j (suc rounds) zero lt = omega arith
get_or-count_up j (suc rounds) (suc k) lt =
    omega (arith, get_or-count_up (j + 1) rounds k (omega (arith, lt)))

base-IsRow : (a b : Name) → IsRow a b 0 (length b + 1) (count_up 0 (length b))
unfolding distance
base-IsRow a b = record {
  size = length-count_up 0 (length b);
  entry = λ k lt. omega (arith, get_or-count_up 0 (length b) k lt);
}

within_length : (m n : ℕ) → n ≤ m → ltb m n ≡ false
within_length m n le = ground arith

-- For two names of at most 128 characters the table gives the distance by recursion: the least
-- over a deletion, an insertion, a replacement where the last characters differ, and a change of
-- places where the last two stand crosswise, at a cost of one each.
pub lc_damerau_levenshtein_lem :
    (a b : Name)
    → length a ≤ suggest_max_len
    → length b ≤ suggest_max_len
    → lc_damerau_levenshtein a b ≡ some (distance a b (length a) (length b))
unfolding lc_damerau_levenshtein
lc_damerau_levenshtein_lem a b la lb =
    let last =
      fill-IsRow a b (length a) (length a) 0 (count_up 0 (length b)) [] (omega arith)
        (base-IsRow a b) (λ i e. absurd (cc e)) in
    rw
      (
        within_length suggest_max_len (length a) la,
        within_length suggest_max_len (length b) lb,
        last.entry (length b) (omega arith),
      )
      refl
