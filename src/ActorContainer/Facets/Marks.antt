-- ===== src/ActorContainer/Facets/Marks.antt =====
-- Who has the storage of an id: the starts and the teardowns of the id, in their order.
use do_runtime.Common.{
  ℕ, ◌≡◌, refl, Bool, true, false, not, Option, none, some, List, [], ◌∷◌, ◌++◌, ◌⊎◌, inl, inr,
  arith,
}

pub data Mark : Type 0 where
  held : ℕ → Mark
  freed : Mark

-- The entry that was started last, if no teardown has followed.
abbrev pub holder : Option ℕ → List Mark → Option ℕ
holder h [] = h
holder h (held e ∷ ms) = holder (some e) ms
holder h (freed ∷ ms) = holder none ms

module _ (failed : ℕ → Bool) where
  abbrev pub is_held : Option ℕ → Bool
  is_held none = false
  is_held (some e) = not (failed e)

  -- Each start follows a teardown, or a start that has failed.
  abbrev pub IsExclusive : Option ℕ → List Mark → Type 0
  IsExclusive h [] = Unit
  IsExclusive h (held e ∷ ms) = (is_held h ≡ false) × IsExclusive (some e) ms
  IsExclusive h (freed ∷ ms) = IsExclusive none ms

  pub IsExclusive-append :
      (h : Option ℕ) (xs ys : List Mark)
      → IsExclusive h xs
      → IsExclusive (holder h xs) ys
      → IsExclusive h (xs ++ ys)
  IsExclusive-append h [] ys v w = w
  IsExclusive-append h (held e ∷ xs) ys v w = (v.0, IsExclusive-append (some e) xs ys v.1 w)
  IsExclusive-append h (freed ∷ xs) ys v w = IsExclusive-append none xs ys v w

  pub append-IsExclusive :
      (h : Option ℕ) (xs ys : List Mark)
      → IsExclusive h (xs ++ ys)
      → IsExclusive h xs × IsExclusive (holder h xs) ys
  append-IsExclusive h [] ys w = (tt, w)
  append-IsExclusive h (held e ∷ xs) ys w =
      let (first, rest) = append-IsExclusive (some e) xs ys w.1 in ((w.0, first), rest)
  append-IsExclusive h (freed ∷ xs) ys w = append-IsExclusive none xs ys w

  pub IsExclusive-same :
      (h h' : Option ℕ) (ms : List Mark)
      → is_held h ≡ is_held h'
      → IsExclusive h ms
      → IsExclusive h' ms
  IsExclusive-same h h' [] e w = tt
  IsExclusive-same h h' (held x ∷ ms) e w = (cc, w.1)
  IsExclusive-same h h' (freed ∷ ms) e w = w

pub holder-append :
    (h : Option ℕ) (xs ys : List Mark) → holder h (xs ++ ys) ≡ holder (holder h xs) ys
holder-append h [] ys = refl
holder-append h (held e ∷ xs) ys = holder-append (some e) xs ys
holder-append h (freed ∷ xs) ys = holder-append none xs ys

-- The holder at the end comes from the marks, or is the one at the start.
pub holder-cases :
    (h h' : Option ℕ) (ms : List Mark)
    → (holder h ms ≡ holder h' ms) ⊎ ((holder h ms ≡ h) × (holder h' ms ≡ h'))
holder-cases h h' [] = inr (refl, refl)
holder-cases h h' (held e ∷ ms) = inl refl
holder-cases h h' (freed ∷ ms) = inl refl

abbrev pub IsLater : (ℕ → Bool) → (ℕ → Bool) → Type 0
IsLater f f' = (e : ℕ) → f e ≡ true → f' e ≡ true

module _ (f f' : ℕ → Bool) (later : IsLater f f') where
  pub is_held-later : (h : Option ℕ) → is_held f h ≡ false → is_held f' h ≡ false
  is_held-later none w = refl
  is_held-later (some e) w = ground (arith, later e)

  pub IsExclusive-later : (h : Option ℕ) (ms : List Mark) → IsExclusive f h ms → IsExclusive f' h ms
  IsExclusive-later h [] w = tt
  IsExclusive-later h (held e ∷ ms) w = (is_held-later h w.0, IsExclusive-later (some e) ms w.1)
  IsExclusive-later h (freed ∷ ms) w = IsExclusive-later none ms w

  -- A start that has failed may be left out.
  pub IsExclusive-drop :
      (xs : List Mark) (e : ℕ) (ys : List Mark)
      → f' e ≡ true
      → IsExclusive f none (xs ++ held e ∷ ys)
      → IsExclusive f' none (xs ++ ys)
  IsExclusive-drop xs e ys lost w =
      let (before, (here, after)) = append-IsExclusive f none xs (held e ∷ ys) w in
      IsExclusive-append f' none xs ys (IsExclusive-later none xs before) (
        IsExclusive-same f' (some e) (holder none xs) ys
          (ground (arith, is_held-later (holder none xs) here))
          (IsExclusive-later (some e) ys after))

  pub holder-drop :
      (xs : List Mark) (e : ℕ) (ys : List Mark) (k : ℕ)
      → IsExclusive f none (xs ++ held e ∷ ys)
      → holder none (xs ++ ys) ≡ some k
      → f' k ≡ false
      → holder none (xs ++ held e ∷ ys) ≡ some k
  holder-drop xs e ys k w is_k live =
      let (before, (here, after)) = append-IsExclusive f none xs (held e ∷ ys) w in
      let was : holder (holder none xs) ys ≡ some k = rw holder-append at is_k in
      rw holder-append (elim (holder-cases (holder none xs) (some e) ys) [
        | inl same ↦ cc
        | inr (first, second) ↦
            let at_k : holder none xs ≡ some k = cc in
            let gone : is_held f' (some k) ≡ false =
              rw at_k at (is_held-later (holder none xs) here) in
            cc
      ])
