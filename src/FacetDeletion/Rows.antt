-- ===== src/FacetDeletion/Rows.antt =====
-- src/server/facet-deletion.ts: what the table of receipts holds behind its statements.
use do_runtime.Common.{
  Option, ℕ, suc, ◌≤◌, ◌<◌, ◌≡◌, ◌≢◌, refl, true, false, none, some, [], ◌∷◌, nat_beq, ltb, lookup,
  nat_eq, beq_refl, Bool-cases, inl, inr, arith,
}
use do_runtime.FacetDeletion.{Receipt, Table, upsert, read, clear}

-- The rows are in the order of their ids.
abbrev pub IsFrom : ℕ → Table → Type 0
IsFrom low [] = Unit
IsFrom low ((k, g) ∷ table) = (low ≤ k) × IsFrom (suc k) table

lookup-IsFrom : (id low : ℕ) (table : Table) → id < low → IsFrom low table → lookup id table ≡ none
lookup-IsFrom id low [] h from = refl
lookup-IsFrom id low ((k, g) ∷ table) h from =
    ground (arith, from.0, lookup-IsFrom id (suc k) table (omega (arith, from.0)) from.1)

pub upsert-read :
    (id low : ℕ) (table : Table)
    → IsFrom low table
    → read id (upsert id table).1 ≡ some (upsert id table).0
unfolding upsert
upsert-read id low [] from = ground arith
upsert-read id low ((k, g) ∷ table) from =
    ground (arith, from.0, upsert-read id (suc k) table from.1)

clear-none : (r : Receipt) (table : Table) → read r.id table ≡ none → clear r table ≡ (false, table)
unfolding clear
clear-none r [] gone = refl
clear-none r ((k, x) ∷ table) gone = elim (Bool-cases (nat_beq k r.id)) [
  | inl same ↦ let never : some x ≡ none = rw same at gone in absurd (cc)
  | inr differ ↦ rw (differ, clear-none r table (rw differ at gone))
]

-- A row of another generation stays.
pub clear_other :
    (r : Receipt) (g low : ℕ) (table : Table)
    → IsFrom low table
    → read r.id table ≡ some g
    → g ≢ r.generation
    → clear r table ≡ (false, table)
unfolding clear
clear_other r g low [] from is_g other = absurd (cc)
clear_other r g low ((k, x) ∷ table) from is_g other = elim (Bool-cases (nat_beq k r.id)) [
  | inl same ↦
      let is_x : some x ≡ some g = rw same at is_g in
      let x_is_g : x ≡ g = cc in
      let apart : nat_beq x r.generation ≡ false = ground (arith, x_is_g, other) in
      let rest =
        clear-none r table (lookup-IsFrom r.id (suc k) table (ground (arith, same)) from.1) in
      rw (apart, rest, same)
  | inr differ ↦ rw (differ, clear_other r g (suc k) table from.1 (rw differ at is_g) other)
]

pub clear_match :
    (r : Receipt) (low : ℕ) (table : Table)
    → IsFrom low table
    → read r.id table ≡ some r.generation
    → ((clear r table).0 ≡ true) × (read r.id (clear r table).1 ≡ none)
unfolding clear
clear_match r low [] from is_g = absurd (cc)
clear_match r low ((k, x) ∷ table) from is_g = elim (Bool-cases (nat_beq k r.id)) [
  | inl same ↦
      let is_x : some x ≡ some r.generation = rw same at is_g in
      let x_is_g : x ≡ r.generation = cc in
      rw (same, x_is_g, beq_refl r.generation)
        (refl, lookup-IsFrom r.id (suc k) table (ground (arith, same)) from.1)
  | inr differ ↦
      let (gone, left) = clear_match r (suc k) table from.1 (rw differ at is_g) in
      rw differ (gone, rw differ left)
]

pub upsert-IsFrom :
    (id low : ℕ) (table : Table) → low ≤ id → IsFrom low table → IsFrom low (upsert id table).1
unfolding upsert
upsert-IsFrom id low [] h from = (h, tt)
upsert-IsFrom id low ((k, g) ∷ table) h from = elim (Bool-cases (nat_beq k id)) [
  | inl same ↦ rw same from
  | inr differ ↦ elim (Bool-cases (ltb id k)) [
    | inl before ↦ rw (differ, before) (h, (ground (arith, before), from.1))
    | inr behind ↦
        rw (differ, behind)
          (from.0, upsert-IsFrom id (suc k) table (ground (arith, differ, behind)) from.1)
  ]
]

-- The generation of a facet's row, and 0 where there is none.
abbrev pub or_zero : Option ℕ → ℕ
or_zero none = 0
or_zero (some g) = g

-- The generation is one more than that of the row before.
pub upsert-suc :
    (id low : ℕ) (table : Table)
    → IsFrom low table
    → (upsert id table).0 ≡ suc (or_zero (read id table))
unfolding upsert
upsert-suc id low [] from = refl
upsert-suc id low ((k, g) ∷ table) from = elim (Bool-cases (nat_beq k id)) [
  | inl same ↦ rw same (omega arith)
  | inr differ ↦ elim (Bool-cases (ltb id k)) [
    | inl before ↦
        let gone = lookup-IsFrom id (suc k) table (ground (arith, before)) from.1 in
        rw (differ, before, gone) refl
    | inr behind ↦ rw (differ, behind) (upsert-suc id (suc k) table from.1)
  ]
]

pub upsert_rest : (id k : ℕ) (table : Table) → k ≢ id → read k (upsert id table).1 ≡ read k table
unfolding upsert
upsert_rest id k [] other = ground (arith, other)
upsert_rest id k ((j, g) ∷ table) other = elim (Bool-cases (nat_beq j id)) [
  | inl same ↦ let apart : nat_beq j k ≡ false = ground (arith, same, other) in rw (same, apart)
  | inr differ ↦ elim (Bool-cases (ltb id j)) [
    | inl before ↦
        let apart : nat_beq id k ≡ false = ground (arith, other) in rw (differ, before, apart)
    | inr behind ↦ rw (differ, behind, upsert_rest id k table other)
  ]
]
