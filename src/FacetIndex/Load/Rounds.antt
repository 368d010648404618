-- ===== src/FacetIndex/Load/Rounds.antt =====
-- One round of the loop against the encoding of one entry, and the loop against a list of entries.
use do_runtime.Common.{
  ℕ, zero, suc, ◌/◌, ◌%◌, ◌≤◌, ◌<◌, ◌≡◌, ◌≢◌, refl, none, List, [], ◌∷◌, ◌++◌, append_assoc, length,
  take, drop, All, length-append, take-append_length, drop-append_length, length-take_le,
  length-take_bound, take-append-drop, lookup, to_le, from_le, child_eq, arith, IsByte, All-drop,
  length-drop, ok, err, from_le-to_le_two, ◌⊎◌, inl, inr,
}
use do_runtime.FacetIndex.{
  IndexError, out_of_fuel, max_id, Entry, Contents, next_id, add, entry_data, Round, stop, throw,
  accept, judge, read_entry, read_entries, too_many,
}
use do_runtime.FacetIndex.Format.{IsAcceptable, Chain, encode_all, add_all}

Round-cases :
    {Name : Type 0} (r : Round Name)
    → (r ≡ stop)
      ⊎ ((x : IndexError) × (r ≡ throw x))
      ⊎ ((e : Entry Name) × (rest : List ℕ) × (r ≡ accept e rest))
Round-cases stop = inl refl
Round-cases (throw x) = inr (inl (x, refl))
Round-cases (accept e rest) = inr (inr (e, rest, refl))

module _ {Name : Type 0} (encode : Name → List ℕ) (decode : List ℕ → Name) where
  judge-accept :
      (c : Contents Name) (e : Entry Name) (rest : List ℕ)
      → IsAcceptable decode c e
      → judge encode decode c e.parent (length e.name_key) (e.name_key ++ rest) ≡ accept e rest
  unfolding judge
  judge-accept c e rest a =
      rw (take-append_length e.name_key rest, drop-append_length e.name_key rest, ← a.decoded)
        (ground (arith, length-append e.name_key rest))

  judge_sound :
      (c : Contents Name) (p n : ℕ) (tail : List ℕ) (e : Entry Name) (rest : List ℕ)
      → judge encode decode c p n tail ≡ accept e rest
      → (e ≡ record { parent = p; name = decode (take n tail); name_key = take n tail })
        × (rest ≡ drop n tail)
        × (0 < n)
        × (n ≤ length tail)
        × (p < next_id c)
        × (next_id c ≤ max_id)
        × (lookup (p, take n tail) c.by_key ≡ none)
  unfolding judge
  judge_sound c p n tail e rest h = ground arith

  pub read_entry-entry_data :
      (c : Contents Name) (e : Entry Name) (rest : List ℕ)
      → IsAcceptable decode c e
      → read_entry encode decode c (entry_data e ++ rest) ≡ accept e rest
  unfolding read_entry entry_data
  read_entry-entry_data c e rest a =
      let p : from_le (to_le 2 e.parent) ≡ e.parent = from_le-to_le_two e.parent (omega arith) in
      let l : from_le (to_le 2 (length e.name_key)) ≡ length e.name_key =
        from_le-to_le_two (length e.name_key) (omega arith) in
      rw (p, l) (judge-accept c e rest a)

  pub read_entry_sound :
      (c : Contents Name) (rest : List ℕ) (e : Entry Name) (rest' : List ℕ)
      → All IsByte rest
      → read_entry encode decode c rest ≡ accept e rest'
      → IsAcceptable decode c e × (rest ≡ entry_data e ++ rest')
  unfolding read_entry entry_data
  read_entry_sound c (p0 ∷ p1 ∷ l0 ∷ l1 ∷ tail) e rest' b h =
      let n = from_le (l0 ∷ l1 ∷ []) in
      let p = from_le (p0 ∷ p1 ∷ []) in
      let (is_e, is_rest, named, fits, rooted, room, fresh) = judge_sound c p n tail e rest' h in
      let l : length (take n tail) ≡ n = length-take_le n tail fits in
      let p0_is : p % 256 ≡ p0 = omega arith in
      let p1_is : p / 256 % 256 ≡ p1 = omega arith in
      let l0_is : n % 256 ≡ l0 = omega arith in
      let l1_is : n / 256 % 256 ≡ l1 = omega arith in
      rw (is_e, is_rest, l)
        (
          record {
            room = room;
            named = omega arith;
            short = omega arith;
            rooted = rooted;
            fresh = fresh;
            decoded = refl;
          },
          cc (take-append-drop n tail),
        )
  read_entry_sound c _ e rest' b h = cc

  read_entry-IsByte :
      (c : Contents Name) (rest : List ℕ) (e : Entry Name) (rest' : List ℕ)
      → All IsByte rest
      → read_entry encode decode c rest ≡ accept e rest'
      → All IsByte rest'
  unfolding read_entry
  read_entry-IsByte c (p0 ∷ p1 ∷ l0 ∷ l1 ∷ tail) e rest' b h =
      rw (judge_sound c _ _ tail e rest' h).1 (All-drop IsByte _ tail b.1.1.1.1)
  read_entry-IsByte c _ e rest' b h = cc

  -- Reading the encodings of acceptable entries adds them, whatever stops the loop behind them.
  pub read_entries-encode_all :
      (fuel : ℕ) (c : Contents Name) (es : List (Entry Name)) (tail : List ℕ)
      → Chain decode c es
      → length es < fuel
      → read_entry encode decode (add_all es c) tail ≡ stop
      → read_entries encode decode fuel c (encode_all es ++ tail) ≡ ok (add_all es c)
  unfolding read_entries
  read_entries-encode_all zero c es tail h f s = absurd (omega arith)
  read_entries-encode_all (suc fuel) c [] tail h f s = rw (s, read_entries)
  read_entries-encode_all (suc fuel) c (e ∷ es) tail h f s =
      rw (append_assoc, read_entry-entry_data c e (encode_all es ++ tail) h.0, read_entries)
        (read_entries-encode_all fuel (add e c) es tail h.1 (omega arith) s)

  -- What the loop returns is what acceptable entries at the front of the bytes add up to.
  pub read_entries_sound :
      (fuel : ℕ) (c : Contents Name) (rest : List ℕ) (c' : Contents Name)
      → All IsByte rest
      → read_entries encode decode fuel c rest ≡ ok c'
      → (es : List (Entry Name)) × (tail : List ℕ) × Chain decode c es
        × (c' ≡ add_all es c)
        × (rest ≡ encode_all es ++ tail)
  unfolding read_entries
  read_entries_sound zero c rest c' b h = cc
  read_entries_sound (suc fuel) c rest c' b h =
      elim (Round-cases (read_entry encode decode c rest)) [
        | inl ends ↦ ([], rest, tt, cc (rw (ends, read_entries) at h), refl)
        | inr (inl (e, throws)) ↦ absurd (cc (rw (throws, read_entries) at h))
        | inr (inr (e, rest', takes)) ↦
            let (fits, is_rest) = read_entry_sound c rest e rest' b takes in
            let (es, tail, chain, is_c', is_rest') =
              read_entries_sound fuel (add e c) rest' c' (read_entry-IsByte c rest e rest' b takes)
                (rw (takes, read_entries) at h) in
            (e ∷ es, tail, (fits, chain), is_c', rw (is_rest, is_rest', append_assoc))
      ]

  read_entry-shorter :
      (c : Contents Name) (rest : List ℕ) (e : Entry Name) (rest' : List ℕ)
      → read_entry encode decode c rest ≡ accept e rest'
      → length rest' < length rest
  unfolding read_entry
  read_entry-shorter c (p0 ∷ p1 ∷ l0 ∷ l1 ∷ tail) e rest' h =
      let n = from_le (l0 ∷ l1 ∷ []) in
      rw (judge_sound c _ _ tail e rest' h).1 (omega (arith, length-drop n tail))
  read_entry-shorter c _ e rest' h = cc

  read_entry_throws :
      (c : Contents Name) (rest : List ℕ) (x : IndexError)
      → read_entry encode decode c rest ≡ throw x
      → x ≡ too_many
  unfolding read_entry
  read_entry_throws c (p0 ∷ p1 ∷ l0 ∷ l1 ∷ tail) x h =
      judge_throws (from_le (p0 ∷ p1 ∷ [])) (from_le (l0 ∷ l1 ∷ [])) h
    where
      judge_throws : (p n : ℕ) → judge encode decode c p n tail ≡ throw x → x ≡ too_many
      judge_throws p n k = unfold judge in ground arith
  read_entry_throws c _ x h = cc

  -- A fuel above the number of bytes lasts.
  pub read_entries_total :
      (fuel : ℕ) (c : Contents Name) (rest : List ℕ)
      → length rest < fuel
      → read_entries encode decode fuel c rest ≢ err out_of_fuel
  unfolding read_entries
  read_entries_total zero c rest f h = absurd (omega arith)
  read_entries_total (suc fuel) c rest f h = elim (Round-cases (read_entry encode decode c rest)) [
    | inl ends ↦ cc (rw (ends, read_entries) at h)
    | inr (inl (x, throws)) ↦ cc (read_entry_throws c rest x throws, rw (throws, read_entries) at h)
    | inr (inr (e, rest', takes)) ↦
        let less = read_entry-shorter c rest e rest' takes in
        read_entries_total fuel (add e c) rest' (omega arith) (rw (takes, read_entries) at h)
  ]

  -- A strict prefix of an entry's encoding ends the loop.
  pub read_entry_torn :
      (c : Contents Name) (e : Entry Name) (k : ℕ)
      → IsAcceptable decode c e
      → k < length (entry_data e)
      → read_entry encode decode c (take k (entry_data e)) ≡ stop
  unfolding read_entry entry_data
  read_entry_torn c e zero a h = refl
  read_entry_torn c e (suc zero) a h = refl
  read_entry_torn c e (suc (suc zero)) a h = refl
  read_entry_torn c e (suc (suc (suc zero))) a h = refl
  read_entry_torn c e (suc (suc (suc (suc j)))) a h =
      let l : from_le (to_le 2 (length e.name_key)) ≡ length e.name_key =
        from_le-to_le_two (length e.name_key) (omega arith) in
      rw l (judge_short (from_le (to_le 2 e.parent)))
    where
      judge_short : (p : ℕ) → judge encode decode c p (length e.name_key) (take j e.name_key) ≡ stop
      judge_short p = unfold judge in ground (arith, length-take_bound j e.name_key, a.room)
