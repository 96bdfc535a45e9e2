-- ===== src/Archive/Index.antt =====
-- The lookup indexes answer as the scans do: clua/src/link/ar_read.c.
use compiled_lua.Common.{ℕ, ◌^◌, ◌≤◌, ◌<◌}
use compiled_lua.Common.{◌≡◌, refl, ◌∙◌, ◌↔◌, inl, inr, Bool, true}
use compiled_lua.Common.{Option, some, List, arith}
use compiled_lua.Common.{◌==◌, ==_iff, Bool-cases}
use compiled_lua.Common.{length, replicate}
use compiled_lua.Archive.Capacity.{ar_slot_cap_bounds}
use compiled_lua.Archive.Data.{
  IndexState, not_built, built, no_index, Archive, ar_hash_name, ar_hash_u32, ar_slot_cap,
  ar_index_max, indexable, symname_at, hdr_off_at,
}
use compiled_lua.Archive.Lookup.{
  ar_build_sym_index, ar_build_mem_index, with_sym_index, with_mem_index,
}
use compiled_lua.Archive.Probe.{fill}
use compiled_lua.Archive.Slots.{Table, fresh_table, fill-Table}
use compiled_lua.Common.Name.{Name, name_eq, name_eq→eq, name_eq_refl}

pub names_iff : (a b : Name) → (name_eq a b ≡ true) ↔ (a ≡ b)
names_iff a b = (name_eq→eq a b, λ e. rw e (name_eq_refl b))

-- The slots of a state of an index over n entries.
abbrev pub Slotted :
    {K : Type 0} → (ℕ → K) → (K → K → Bool) → (K → ℕ) → ℕ → IndexState → List ℕ → ℕ → Type 0
Slotted key_at eq hash n not_built slots size = Unit
Slotted key_at eq hash n no_index slots size = Unit
Slotted key_at eq hash n built slots size =
    (m : ℕ) × (size ≡ 2 ^ m) × (n < 2 ^ m) × Table key_at eq hash m slots n

-- Each index that is built holds the archive's entries.
pub record IsReady (a : Archive) : Type 0 where
  pub sym_ready :
      Slotted
        (symname_at a)
        name_eq
        ar_hash_name
        (length a.index)
        a.sym_index_state
        a.sym_slots
        a.sym_slot_cap
  pub mem_ready :
      Slotted
        (hdr_off_at a)
        ◌==◌
        ar_hash_u32
        (length a.members)
        a.mem_index_state
        a.mem_slots
        a.mem_slot_cap

-- The archive's contents are the same.
pub record Keeps (a b : Archive) : Type 0 where
  pub same_buf : b.buf ≡ a.buf
  pub same_members : b.members ≡ a.members
  pub same_index : b.index ≡ a.index

pub Keeps-trans : {a b c : Archive} → Keeps a b → Keeps b c → Keeps a c
Keeps-trans k l = record {
  same_buf = l.same_buf ∙ k.same_buf;
  same_members = l.same_members ∙ k.same_members;
  same_index = l.same_index ∙ k.same_index;
}

-- Building an index ends, with the same contents and counters.
abbrev Built : Archive → Option Archive → Type 0
Built a o = (b : Archive) × ((o ≡ some b) × IsReady b × Keeps a b × (b.stats ≡ a.stats))

-- Filling the slots of fresh memory.
built_slots :
    {K : Type 0} (key_at : ℕ → K) (eq : K → K → Bool) (hash : K → ℕ)
    → ((a b : K) → (eq a b ≡ true) ↔ (a ≡ b))
    → (n m : ℕ) → n < 2 ^ m
    → (u : List ℕ) × (fill key_at eq hash n 0 (replicate (2 ^ m) 0) (2 ^ m) ≡ some u)
      × Slotted key_at eq hash n built u (2 ^ m)
built_slots key_at eq hash eq_iff n m less =
    let fresh = fresh_table key_at eq hash m in
    let (u, t, run) = fill-Table key_at eq hash m eq_iff n 0 n fresh (omega arith) less in
    (u, run, (m, refl, less, t))

capacity : (n : ℕ) → indexable n ≡ true → (m : ℕ) × (ar_slot_cap n ≡ some (2 ^ m)) × (n < 2 ^ m)
unfolding indexable
capacity n h =
    let few : n ≤ ar_index_max = ground arith in
    let (m, room, reach, _, _) = ar_slot_cap_bounds n few in (m, room, omega (arith, reach))

module _ (calloc : ℕ → Bool) (a : Archive) (ready : IsReady a) where
  no_sym : Built a (some (record a { sym_index_state = no_index }))
  no_sym = (
    record a { sym_index_state = no_index },
    (
      refl,
      record { sym_ready = tt; mem_ready = ready.mem_ready },
      record { same_buf = refl; same_members = refl; same_index = refl },
      refl,
    ),
  )

  with_sym :
      (m : ℕ) (u : List ℕ)
      → Slotted (symname_at a) name_eq ar_hash_name (length a.index) built u (2 ^ m)
      → Built a (some (record a { sym_slots = u; sym_slot_cap = 2 ^ m; sym_index_state = built }))
  with_sym m u slotted = (
    record a { sym_slots = u; sym_slot_cap = 2 ^ m; sym_index_state = built },
    (
      refl,
      record { sym_ready = slotted; mem_ready = ready.mem_ready },
      record { same_buf = refl; same_members = refl; same_index = refl },
      refl,
    ),
  )

  sym-Built : Built a (ar_build_sym_index calloc a)
  unfolding ar_build_sym_index
  sym-Built = elim (Bool-cases (indexable (length a.index))) [
    | inr out ↦ rw (out, ar_build_sym_index) no_sym
    | inl inside ↦
        let (m, room, less) = capacity (length a.index) inside in
        let (u, run, slotted) =
          built_slots (symname_at a) name_eq ar_hash_name names_iff (length a.index) m less in
        elim (Bool-cases (calloc (2 ^ m))) [
          | inr out ↦ rw (inside, room, out, ar_build_sym_index) no_sym
          | inl memory ↦ rw (inside, room, memory, run, ar_build_sym_index) (with_sym m u slotted)
        ]
  ]

  no_mem : Built a (some (record a { mem_index_state = no_index }))
  no_mem = (
    record a { mem_index_state = no_index },
    (
      refl,
      record { sym_ready = ready.sym_ready; mem_ready = tt },
      record { same_buf = refl; same_members = refl; same_index = refl },
      refl,
    ),
  )

  with_mem :
      (m : ℕ) (u : List ℕ)
      → Slotted (hdr_off_at a) ◌==◌ ar_hash_u32 (length a.members) built u (2 ^ m)
      → Built a (some (record a { mem_slots = u; mem_slot_cap = 2 ^ m; mem_index_state = built }))
  with_mem m u slotted = (
    record a { mem_slots = u; mem_slot_cap = 2 ^ m; mem_index_state = built },
    (
      refl,
      record { sym_ready = ready.sym_ready; mem_ready = slotted },
      record { same_buf = refl; same_members = refl; same_index = refl },
      refl,
    ),
  )

  mem-Built : Built a (ar_build_mem_index calloc a)
  unfolding ar_build_mem_index
  mem-Built = elim (Bool-cases (indexable (length a.members))) [
    | inr out ↦ rw (out, ar_build_mem_index) no_mem
    | inl inside ↦
        let (m, room, less) = capacity (length a.members) inside in
        let (u, run, slotted) =
          built_slots (hdr_off_at a) ◌==◌ ar_hash_u32 ==_iff (length a.members) m less in
        elim (Bool-cases (calloc (2 ^ m))) [
          | inr out ↦ rw (inside, room, out, ar_build_mem_index) no_mem
          | inl memory ↦ rw (inside, room, memory, run, ar_build_mem_index) (with_mem m u slotted)
        ]
  ]

  kept : Built a (some a)
  kept =
      (a, (refl, ready, record { same_buf = refl; same_members = refl; same_index = refl }, refl))

  by_state :
      {o : Option Archive}
      → Built a o
      → (s : IndexState) → Built a (elim s [ not_built ↦ o | built ↦ some a | no_index ↦ some a ])
  by_state done not_built = done
  by_state done built = kept
  by_state done no_index = kept

  -- Before a lookup: the index is built, unless it was tried before.
  pub with_sym_index-Built : Built a (with_sym_index calloc a)
  with_sym_index-Built = by_state sym-Built a.sym_index_state

  pub with_mem_index-Built : Built a (with_mem_index calloc a)
  with_mem_index-Built = by_state mem-Built a.mem_index_state
