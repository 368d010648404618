-- ===== src/ActorContainer/Facets/Entries.antt =====
-- The map of the facets, and who has the storage of each id.
use mathlib.Core.Path.{subst, fun_ext}
use do_runtime.Common.{
  ℕ, ◌+◌, ◌<◌, ◌≤◌, ◌≡◌, refl, sym, ◌∙◌, Bool, true, false, Option, none, some, List, [], ◌∷◌, ◌++◌,
  String, nat_beq, if◌then◌else◌, lookup, insert, erase, lookup-insert, lookup-erase, IsDistinct,
  insert-IsDistinct, erase-IsDistinct, nat_eq, string_eq, beq_refl, Bool-cases, inl, inr, arith,
  ◌⊎◌,
}
use do_runtime.InputGate.{update}
use do_runtime.ActorContainer.Facets.{Entry}
use do_runtime.ActorContainer.Facets.Marks.{
  Mark, held, freed, holder, is_held, IsExclusive, IsExclusive-append, holder-append, IsLater,
  is_held-later, IsExclusive-later, IsExclusive-drop, holder-drop,
}

abbrev pub Map : Type 0
Map = List (String × ℕ)

abbrev pub failed_in : (ℕ → Entry) → ℕ → Bool
failed_in entries e = (entries e).rejected

module _ (id_of : String → ℕ) (apart : (a b : String) → id_of a ≡ id_of b → a ≡ b) where
  -- The map names entries under their names and ids; each start of a facet follows a teardown, or
  -- a start that has failed; and who has the storage of an id is in the map, unless it has failed.
  pub record IsTidyOn (facets : Map) (entries : ℕ → Entry) (n : ℕ) (trails : ℕ → List Mark)
      : Type 0 where
    pub distinct : IsDistinct facets
    pub named :
        (name : String) (e : ℕ)
        → lookup name facets ≡ some e
        → ((entries e).name ≡ name) × ((entries e).id ≡ id_of name) × (e < n)
    pub fresh : (e : ℕ) → n ≤ e → failed_in entries e ≡ false
    pub exclusive : (id : ℕ) → IsExclusive (failed_in entries) none (trails id)
    pub current :
        (id e : ℕ)
        → holder none (trails id) ≡ some e
        → failed_in entries e ≡ false
        → (lookup (entries e).name facets ≡ some e) × (id_of (entries e).name ≡ id)

  module _ (facets : Map) (entries : ℕ → Entry) (n : ℕ) (trails : ℕ → List Mark)
      (w : IsTidyOn facets entries n trails) where
    pub IsTidyOn-retraced :
        (trails' : ℕ → List Mark)
        → ((k : ℕ) → trails' k ≡ trails k)
        → IsTidyOn facets entries n trails'
    IsTidyOn-retraced trails' same = subst (IsTidyOn facets entries n) (sym (fun_ext same)) w

    -- Behind a teardown nobody has the storage.
    torn-IsExclusive :
        (id k : ℕ)
        → IsExclusive
            (failed_in entries)
            none
            (if nat_beq k id then trails id ++ freed ∷ [] else trails k)
    torn-IsExclusive id k = elim (Bool-cases (nat_beq k id)) [
      | inl same ↦
          rw same (
            IsExclusive-append (failed_in entries) none (trails id) (freed ∷ []) (w.exclusive id)
              tt)
      | inr differ ↦ rw differ (w.exclusive k)
    ]

    torn-holder :
        (id k x : ℕ)
        → holder none (if nat_beq k id then trails id ++ freed ∷ [] else trails k) ≡ some x
        → (nat_beq k id ≡ false) × (holder none (trails k) ≡ some x)
    torn-holder id k x is_x = elim (Bool-cases (nat_beq k id)) [
      | inl same ↦ cc (rw (same, holder-append) at is_x)
      | inr differ ↦ (differ, rw differ at is_x)
    ]

    -- An entry leaves the map, and its id is torn down.
    pub IsTidyOn-torn :
        (name : String) (e : ℕ)
        → lookup name facets ≡ some e
        → IsTidyOn (erase name facets) entries n (λ k.
          if nat_beq k (entries e).id then trails (entries e).id ++ freed ∷ [] else trails k)
    IsTidyOn-torn name e there = record {
      distinct = erase-IsDistinct name facets w.distinct;
      named = λ a x is_x.
          ground (arith, lookup-erase name a facets, w.named a x, string_eq.same_iff name a);
      fresh = w.fresh;
      exclusive = torn-IsExclusive (entries e).id;
      current = λ k x is_x live.
          let (other, was) = torn-holder (entries e).id k x is_x in
          ground (
            arith,
            lookup-erase name (entries x).name facets,
            w.current k x was live,
            w.named name e there,
            string_eq.same_iff name (entries x).name,
          );
    }

    -- An entry that has failed leaves the map.
    pub IsTidyOn-forgotten :
        (name : String) (e : ℕ)
        → lookup name facets ≡ some e
        → failed_in entries e ≡ true
        → IsTidyOn (erase name facets) entries n trails
    IsTidyOn-forgotten name e there lost = record {
      distinct = erase-IsDistinct name facets w.distinct;
      named = λ a x is_x.
          ground (arith, lookup-erase name a facets, w.named a x, string_eq.same_iff name a);
      fresh = w.fresh;
      exclusive = w.exclusive;
      current = λ k x is_x live. ground (
        arith,
        lookup-erase name (entries x).name facets,
        w.current k x is_x live,
        string_eq.same_iff name (entries x).name,
      );
    }

    -- A name that the map does not have: nobody has the storage of its id.
    free_holder :
        (name : String) (h : Option ℕ)
        → lookup name facets ≡ none
        → holder none (trails (id_of name)) ≡ h
        → is_held (failed_in entries) h ≡ false
    free_holder name none free is_h = refl
    free_holder name (some x) free is_h = elim (Bool-cases (failed_in entries x)) [
      | inl lost ↦ rw lost refl
      | inr live ↦
          let (there, on_id) = w.current (id_of name) x is_h live in
          let same : (entries x).name ≡ name = apart (entries x).name name on_id in
          cc (subst (λ a. lookup a facets ≡ some x) same there)
    ]

    -- A new entry under such a name, with the number that is next.
    pub IsTidyOn-added :
        (name : String) (entry : Entry)
        → lookup name facets ≡ none
        → entry.name ≡ name
        → entry.id ≡ id_of name
        → entry.rejected ≡ false
        → IsTidyOn
            (insert name n facets)
            (update entries n entry)
            (n + 1)
            (λ k. if nat_beq k (id_of name) then trails (id_of name) ++ held n ∷ [] else trails k)
    IsTidyOn-added name entry free is_name is_id new =
        let later : IsLater (failed_in entries) (failed_in (update entries n entry)) =
          λ x lost. ground (arith, w.fresh x, lost) in
        record {
          distinct = insert-IsDistinct name n facets w.distinct;
          named = λ a x is_x.
              ground (arith, lookup-insert name a n facets, w.named a x, string_eq.same_iff name a);
          fresh = λ x le. ground (arith, w.fresh x);
          exclusive = λ k. elim (Bool-cases (nat_beq k (id_of name))) [
            | inr differ ↦ rw differ (IsExclusive-later _ _ later none (trails k) (w.exclusive k))
            | inl same ↦ rw same (
                IsExclusive-append (failed_in (update entries n entry)) none (trails (id_of name))
                  (held n ∷ [])
                  (IsExclusive-later _ _ later none (trails (id_of name))
                    (w.exclusive (id_of name)))
                  (
                    is_held-later _ _ later (holder none (trails (id_of name)))
                        (free_holder name (holder none (trails (id_of name))) free refl),
                    tt,
                  ))
          ];
          current = λ k x is_x live. elim (Bool-cases (nat_beq k (id_of name))) [
            | inl same ↦
                let is_n : n ≡ x = cc (rw (same, holder-append) at is_x) in
                ground (arith, lookup-insert name name n facets, beq_refl name)
            | inr differ ↦
                let was = rw differ at is_x in
                let old : failed_in entries x ≡ false = ground (arith, later x) in
                let cur = w.current k x was old in
                ground (
                  arith,
                  cur,
                  w.named (entries x).name x,
                  lookup-insert name (entries x).name n facets,
                  string_eq.same_iff name (entries x).name,
                )
          ];
        }

    -- A handle comes to an entry.
    pub IsTidyOn-handled :
        (e : ℕ) → IsTidyOn facets (update entries e (record (entries e) { handle = true })) n trails
    IsTidyOn-handled e =
        let entries' : ℕ → Entry = update entries e (record (entries e) { handle = true }) in
        let same : (x : ℕ)
            → (failed_in entries' x ≡ failed_in entries x)
              × ((entries' x).name ≡ (entries x).name)
              × ((entries' x).id ≡ (entries x).id) =
          λ x. ground arith in
        record {
          distinct = w.distinct;
          named = λ a x is_x. ground (arith, same x, w.named a x is_x);
          fresh = λ x le. ground (arith, same x, w.fresh x le);
          exclusive = λ k.
              IsExclusive-later (failed_in entries) (failed_in entries')
                (λ x lost. (same x).0 ∙ lost) none (trails k) (w.exclusive k);
          current = λ k x is_x live. ground (arith, same x, w.current k x is_x);
        }

    -- An entry fails, and a start that it had not had yet is dropped.
    pub IsTidyOn-lost :
        (e : ℕ) (trails' : ℕ → List Mark)
        → e < n
        → ((k : ℕ)
            → (trails' k ≡ trails k)
              ⊎ ((xs : List Mark) × (ys : List Mark) × (trails k ≡ xs ++ held e ∷ ys)
                  × (trails' k ≡ xs ++ ys)))
        → IsTidyOn facets (update entries e (record (entries e) { rejected = true })) n trails'
    IsTidyOn-lost e trails' old change =
        let entries' : ℕ → Entry = update entries e (record (entries e) { rejected = true }) in
        let same : (x : ℕ)
            → (failed_in entries' x ≡ (if nat_beq x e then true else failed_in entries x))
              × ((entries' x).name ≡ (entries x).name)
              × ((entries' x).id ≡ (entries x).id) =
          λ x. ground arith in
        let later : IsLater (failed_in entries) (failed_in entries') =
          λ x lost. ground (arith, same x) in
        let gone : failed_in entries' e ≡ true = ground (arith, same e) in
        record {
          distinct = w.distinct;
          named = λ a x is_x. ground (arith, same x, w.named a x is_x);
          fresh = λ x le. ground (arith, same x, w.fresh x le);
          exclusive = λ k. elim (change k) [
            | inl is ↦ rw is (
                IsExclusive-later (failed_in entries) (failed_in entries') later none (trails k)
                  (w.exclusive k))
            | inr (xs, ys, was, is) ↦ rw is (
                IsExclusive-drop (failed_in entries) (failed_in entries') later xs e ys gone
                  (rw was at (w.exclusive k)))
          ];
          current = λ k x is_x live.
              let had : holder none (trails k) ≡ some x = elim (change k) [
                | inl is ↦ rw is at is_x
                | inr (xs, ys, was, is) ↦ rw was (
                    holder-drop (failed_in entries) (failed_in entries') later xs e ys x
                      (rw was at (w.exclusive k)) (rw is at is_x) live)
              ] in
              ground (arith, same x, w.current k x had);
        }
