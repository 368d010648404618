-- ===== src/FacetIndex/Load/Open.antt =====
-- Opening a file: after a clean shutdown, after a torn write, and whatever the file holds.
use do_runtime.Common.{
  ℕ, suc, ◌-◌, ◌≤◌, ◌<◌, ◌≡◌, refl, sym, ap, ◌∙◌, List, [], ◌∷◌, ◌++◌, append-nil, length, take,
  drop, All, length-append, take-append_length, length-take_le, drop_past, take-append-drop, to_le,
  from_le, to_le-from_le, child_eq, arith, IsByte, All-drop, All-take, Result, ok, err, ltb, leb,
  nat_beq, if◌then◌else◌, Bool-cases, inl, inr, nat_beq_iff, leb→le,
}
use mathlib.Core.Path.{subst}
use native.Mathlib.Decide.{dec_lt}
use do_runtime.FacetIndex.{
  IndexError, magic_number, magic_length, IndexFile, write, truncate, datasync, Entry, Contents,
  FacetTreeIndex, blank, entry_data, stop, read_entry, read_entries, open_index, cut_tail,
}
use do_runtime.FacetIndex.Format.{
  IsAcceptable, Chain, IsWellFormed, encode_all, add_all, length-encode_all, offset-add_all,
  entries-add_all, offset_lem,
}
use do_runtime.FacetIndex.Load.Rounds.{read_entries-encode_all, read_entries_sound, read_entry_torn}

length-eq-zero : {A : Type 0} (xs : List A) → length xs ≡ 0 → xs ≡ []
length-eq-zero [] h = refl
length-eq-zero (x ∷ xs) h = absurd (omega arith)

-- Bytes behind the entries are cut off again.
kept_bytes :
    (n : ℕ) (front tail : List ℕ) (f : IndexFile)
    → n ≡ length front
    → f.bytes ≡ front ++ tail
    → (if ltb n (length f.bytes) then truncate n f else f).bytes ≡ front
unfolding truncate
kept_bytes n front [] f l h = rw (l, h, append-nil) (ground arith)
kept_bytes n front (b ∷ tail) f l h =
    rw (l, h) (ground (arith, length-append front (b ∷ tail), take-append_length front (b ∷ tail)))

module _ {Name : Type 0} (encode : Name → List ℕ) (decode : List ℕ → Name) where
  -- A file that begins with the magic number and goes on is read by the loop.
  open_index_read :
      (f : IndexFile) (rest : List ℕ)
      → f.bytes ≡ to_le 8 magic_number ++ rest
      → 0 < length rest
      → open_index encode decode f
        ≡ cut_tail f (read_entries encode decode (suc (length f.bytes)) blank rest)
  unfolding open_index
  open_index_read f rest h n =
      rw (h, open_index) (ground (arith, length-append (to_le 8 magic_number) rest))

  abbrev pub IsReopened : FacetTreeIndex Name → IndexFile → Type 0
  IsReopened ix f =
      (ix' : FacetTreeIndex Name) × (open_index encode decode f ≡ ok ix')
      × (ix'.contents ≡ ix.contents)
      × (ix'.file.bytes ≡ ix.file.bytes)

  entries-IsReopened :
      (ix : FacetTreeIndex Name) (f : IndexFile) (tail : List ℕ)
      → IsWellFormed decode ix
      → f.bytes ≡ ix.file.bytes ++ tail
      → read_entry encode decode ix.contents tail ≡ stop
      → 0 < length (encode_all ix.entries ++ tail)
      → IsReopened ix f
  entries-IsReopened ix f tail w h s n =
      let whole : f.bytes ≡ to_le 8 magic_number ++ (encode_all ix.entries ++ tail) =
        rw (h, w.content) in
      let stops : read_entry encode decode (add_all ix.entries blank) tail ≡ stop = rw w.built s in
      let enough : length ix.entries < suc (length f.bytes) =
        rw whole (
          omega
            (arith, length-encode_all ix.entries, length-append (encode_all ix.entries) tail)) in
      let reads : read_entries encode decode (suc (length f.bytes)) blank
            (encode_all ix.entries ++ tail)
          ≡ ok ix.contents =
        read_entries-encode_all encode decode (suc (length f.bytes)) blank ix.entries tail w.chain
          enough stops
        ∙ ap ok w.built in
      (
        record {
          file = if ltb ix.offset (length f.bytes) then truncate ix.offset f else f;
          contents = ix.contents;
        },
        rw (open_index_read f (encode_all ix.entries ++ tail) whole n, reads),
        refl,
        kept_bytes ix.offset ix.file.bytes tail f (offset_lem decode ix w) h,
      )

  blank-IsReopened :
      (ix : FacetTreeIndex Name) (f : IndexFile) (tail : List ℕ)
      → IsWellFormed decode ix
      → f.bytes ≡ ix.file.bytes ++ tail
      → length (encode_all ix.entries ++ tail) ≡ 0
      → IsReopened ix f
  unfolding open_index write datasync
  blank-IsReopened ix f tail w h n =
      let none_there : ix.entries ≡ [] =
        length-eq-zero ix.entries (
          omega
            (arith, length-encode_all ix.entries, length-append (encode_all ix.entries) tail)) in
      let is_magic : f.bytes ≡ to_le 8 magic_number = rw (h, w.content, length-eq-zero _ n) in
      (
        record { file = datasync (write 0 (to_le 8 magic_number) f); contents = blank },
        rw is_magic,
        ap (λ (es : List (Entry Name)). add_all es blank) (sym none_there) ∙ w.built,
        rw (is_magic, w.content, none_there),
      )

  stop-IsReopened :
      (ix : FacetTreeIndex Name) (f : IndexFile) (tail : List ℕ)
      → IsWellFormed decode ix
      → f.bytes ≡ ix.file.bytes ++ tail
      → read_entry encode decode ix.contents tail ≡ stop
      → IsReopened ix f
  stop-IsReopened ix f tail w h s = elim (dec_lt 0 (length (encode_all ix.entries ++ tail))) [
    | yes n ↦ entries-IsReopened ix f tail w h s n
    | no n ↦ blank-IsReopened ix f tail w h (omega arith)
  ]

  -- An index that is well formed is read back from its own file: the same entries under the same
  -- ids, and a file with the same bytes.
  pub open_index-IsWellFormed_reads :
      (ix : FacetTreeIndex Name) → IsWellFormed decode ix → IsReopened ix ix.file
  unfolding read_entry
  open_index-IsWellFormed_reads ix w = stop-IsReopened ix ix.file [] w (rw append-nil) refl

  -- A power failure in the middle of writing an entry leaves a strict prefix of it behind the
  -- synced bytes. The next opening has the index from before that write, and cuts the prefix off.
  pub open_index_torn :
      (ix : FacetTreeIndex Name) (f : IndexFile) (e : Entry Name) (k : ℕ)
      → IsWellFormed decode ix
      → IsAcceptable decode ix.contents e
      → k < length (entry_data e)
      → f.bytes ≡ ix.file.bytes ++ take k (entry_data e)
      → IsReopened ix f
  open_index_torn ix f e k w a short h =
      stop-IsReopened ix f (take k (entry_data e)) w h
        (read_entry_torn encode decode ix.contents e k a short)

  open_new-IsWellFormed :
      (f : IndexFile)
      → length f.bytes ≤ magic_length
      → IsWellFormed decode
          (record { file = datasync (write 0 (to_le 8 magic_number) f); contents = blank })
  unfolding write datasync
  open_new-IsWellFormed f h = record {
    chain = tt;
    built = refl;
    content =
        let no_gap : 0 - length f.bytes ≡ 0 = omega arith in rw (no_gap, drop_past 8 f.bytes h);
  }

  read_back-IsWellFormed :
      (f : IndexFile) (c : Contents Name) (es : List (Entry Name)) (tail : List ℕ)
      → Chain decode blank es
      → c ≡ add_all es blank
      → take 8 f.bytes ≡ to_le 8 magic_number
      → drop 8 f.bytes ≡ encode_all es ++ tail
      → IsWellFormed decode (record {
        file = if ltb c.offset (length f.bytes) then truncate c.offset f else f;
        contents = c;
      })
  read_back-IsWellFormed f c es tail chain is_c front rest =
      let is_es : c.entries ≡ es =
        ap (λ (d : Contents Name). d.entries) is_c ∙ entries-add_all blank es in
      let bytes : f.bytes ≡ (to_le 8 magic_number ++ encode_all es) ++ tail =
        sym (take-append-drop 8 f.bytes) ∙ (rw (front, rest)) in
      let off : c.offset ≡ length (to_le 8 magic_number ++ encode_all es) =
        ap (λ (d : Contents Name). d.offset) is_c ∙ offset-add_all blank es ∙ omega arith in
      record {
        chain = subst (λ l. Chain decode blank l) (sym is_es) chain;
        built = ap (λ (l : List (Entry Name)). add_all l blank) is_es ∙ sym is_c;
        content =
            subst
              (λ l.
                (if ltb c.offset (length f.bytes) then truncate c.offset f else f).bytes
                ≡ to_le 8 magic_number ++ encode_all l)
              (sym is_es)
              (kept_bytes c.offset (to_le 8 magic_number ++ encode_all es) tail f off bytes);
      }

  magic_front :
      (f : IndexFile)
      → All IsByte f.bytes
      → magic_length < length f.bytes
      → from_le (take 8 f.bytes) ≡ magic_number
      → take 8 f.bytes ≡ to_le 8 magic_number
  magic_front f b long m =
      let l : length (take 8 f.bytes) ≡ 8 = length-take_le 8 f.bytes (omega arith) in
      let back = to_le-from_le (take 8 f.bytes) (All-take IsByte 8 f.bytes b) in
      sym (rw (l, m) at back)

  cut_tail-eq-ok :
      (f : IndexFile) (r : Result IndexError (Contents Name)) (ix : FacetTreeIndex Name)
      → cut_tail f r ≡ ok ix
      → (r ≡ ok ix.contents)
        × (ix.file ≡ (if ltb ix.offset (length f.bytes) then truncate ix.offset f else f))
  cut_tail-eq-ok f (err x) ix h = cc
  cut_tail-eq-ok f (ok c) ix h = (cc, cc)

  -- Whatever bytes the file holds, an opening that does not throw yields a well-formed index,
  -- the file of which is then exactly the encoding of its entries.
  pub open_index-IsWellFormed :
      (f : IndexFile) (ix : FacetTreeIndex Name)
      → All IsByte f.bytes
      → open_index encode decode f ≡ ok ix
      → IsWellFormed decode ix
  unfolding open_index
  open_index-IsWellFormed f ix b h = elim (Bool-cases (leb (length f.bytes) magic_length)) [
    | inl short ↦
        let fresh : ix
            ≡ record { file = datasync (write 0 (to_le 8 magic_number) f); contents = blank } =
          cc (rw (short, open_index) at h) in
        rw fresh (open_new-IsWellFormed f (leb→le _ _ short))
    | inr long ↦ elim (Bool-cases (nat_beq (from_le (take 8 f.bytes)) magic_number)) [
      | inl magic ↦
          let (reads, file_is) =
            cut_tail-eq-ok f
              (read_entries encode decode (suc (length f.bytes)) blank (drop 8 f.bytes)) ix
              (rw (long, magic, open_index) at h) in
          let (es, tail, chain, is_c, rest) =
            read_entries_sound encode decode (suc (length f.bytes)) blank (drop 8 f.bytes)
              ix.contents (All-drop IsByte 8 f.bytes b) reads in
          subst (λ fl. IsWellFormed decode (record { file = fl; contents = ix.contents }))
            (sym file_is)
            (read_back-IsWellFormed f ix.contents es tail chain is_c
              (magic_front f b (ground arith) ((nat_beq_iff _ _).0 magic)) rest)
      | inr foreign ↦ absurd (cc (rw (long, foreign, open_index) at h))
    ]
  ]
