-- ===== src/ActorId/Minted.antt =====
-- Which ids a factory makes, and which strings it takes back.
use mathlib.Core.Path.{subst}
use do_runtime.Common.{
  ℕ, zero, suc, ◌+◌, ◌≡◌, ◌↔◌, refl, sym, ap, ◌∙◌, true, Option, none, some, List, [], ◌∷◌, ◌++◌,
  length, take, drop, map, nat_beq, if◌then◌else◌, Result, ok, err, arith, All, IsByte, Bool-cases,
  inl, inr, length-append, length-take_le, take-append-drop, take-append_length, drop-append_length,
  All-append,
}
use do_runtime.ActorId.{
  IdError, wrong_namespace, ActorId, make_id, clear_name, to_hex, to_string, all_hex, is_id_pattern,
  decode, bytes_eq, compute_mac, id_from_name, new_unique_id, checked, id_from_string,
}
use do_runtime.ActorId.Sha256.{hmac_sha256, length-hmac_sha256, hmac_sha256-IsByte}
use do_runtime.ActorId.Hex.{
  lower, decode-to_hex, length-to_hex, all_hex-to_hex, length-decode, decode-IsByte, to_hex-decode,
  bytes_eq_refl, bytes_eq_sound, &&-true,
}

-- 32 bytes, whose second half is the first half of the keyed hash of their first half.
pub record IsMinted (key id : List ℕ) : Type 0 where
  pub size : length id ≡ 32
  pub bytes : All IsByte id
  pub mac : drop 16 id ≡ take 16 (hmac_sha256 key (take 16 id))

take-append_more :
    {A : Type 0} (k n : ℕ) (xs ys : List A)
    → k ≡ length xs + n
    → take k (xs ++ ys) ≡ xs ++ take n ys
take-append_more k n [] ys e = ap (λ (m : ℕ). take m ys) (omega arith)
take-append_more zero n (x ∷ xs) ys e = absurd (omega arith)
take-append_more (suc k) n (x ∷ xs) ys e =
    ap (λ t. x ∷ t) (take-append_more k n xs ys (omega arith))

take_all : (bs : List ℕ) → take (length bs) bs ≡ bs
take_all [] = refl
take_all (b ∷ bs) = ap (λ (t : List ℕ). b ∷ t) (take_all bs)

All-take : (n : ℕ) (bs : List ℕ) → All IsByte bs → All IsByte (take n bs)
All-take zero bs w = tt
All-take (suc n) [] w = tt
All-take (suc n) (b ∷ bs) w = (w.0, All-take n bs w.1)

abbrev minted : List ℕ → List ℕ → List ℕ
minted key base = base ++ take 16 (hmac_sha256 key base)

module _ {Text : Type 0} (key base : List ℕ) (sized : length base ≡ 16) where
  make_id_lem :
      (name : Option Text)
      → make_id (base ++ hmac_sha256 key base) name
        ≡ ok (record { id = minted key base; name = name })
  make_id_lem name =
      let mac = hmac_sha256 key base in
      let long : length (base ++ mac) ≡ 48 =
        omega (arith, length-append {0} base mac, length-hmac_sha256 key base) in
      let cut = take-append_more 32 16 base mac (omega arith) in rw (long, cut) refl

minted-IsMinted :
    (key base : List ℕ) → length base ≡ 16 → All IsByte base → IsMinted key (minted key base)
minted-IsMinted key base sized bytes =
    let mac = hmac_sha256 key base in
    let half = take 16 mac in
    let short : length half ≡ 16 =
      length-take_le 16 mac (omega (arith, length-hmac_sha256 key base)) in
    let front : take 16 (base ++ half) ≡ base =
      ap (λ (n : ℕ). take n (base ++ half)) (sym sized) ∙ take-append_length base half in
    let back : drop 16 (base ++ half) ≡ half =
      ap (λ (n : ℕ). drop n (base ++ half)) (sym sized) ∙ drop-append_length base half in
    record {
      size = omega (arith, length-append {0} base half);
      bytes = All-append IsByte base half bytes (All-take 16 mac (hmac_sha256-IsByte key base));
      mac = back ∙ ap (λ (x : List ℕ). take 16 (hmac_sha256 key x)) (sym front);
    }

-- A decoded string is taken if its second half is the keyed hash of its first half.
module _ {Text : Type 0} (key bytes : List ℕ) (size : length bytes ≡ 32) where
  checked_lem : checked {Text = Text} bytes (compute_mac key bytes) ≡ (
      if bytes_eq (take 16 (hmac_sha256 key (take 16 bytes))) (drop 16 bytes)
      then ok (record { id = minted key (take 16 bytes); name = none })
      else err wrong_namespace)
  checked_lem =
      let base = take 16 bytes in
      let mac = hmac_sha256 key base in
      let sized : length base ≡ 16 = length-take_le 16 bytes (omega arith) in
      let back : drop 16 (base ++ mac) ≡ mac =
        ap (λ (n : ℕ). drop n (base ++ mac)) (sym sized) ∙ drop-append_length base mac in
      rw (back, make_id_lem {Text = Text} key base sized none) refl

IsMinted-eq : (key id : List ℕ) → IsMinted key id → minted key (take 16 id) ≡ id
IsMinted-eq key id w = ap (λ (t : List ℕ). take 16 id ++ t) (sym w.mac) ∙ take-append-drop 16 id

checked-IsMinted :
    {Text : Type 0} (key id : List ℕ)
    → IsMinted key id
    → checked {Text = Text} id (compute_mac key id) ≡ ok (record { id = id; name = none })
checked-IsMinted {Text} key id w =
    let same : bytes_eq (take 16 (hmac_sha256 key (take 16 id))) (drop 16 id) ≡ true =
      rw (w.mac) (bytes_eq_refl (take 16 (hmac_sha256 key (take 16 id)))) in
    checked_lem {Text = Text} key id w.size ∙ rw (same, IsMinted-eq key id w) refl

id_from_string-to_hex :
    {Text : Type 0} (key id : List ℕ)
    → IsMinted key id
    → id_from_string {Text = Text} key (to_hex id) ≡ ok (record { id = id; name = none })
id_from_string-to_hex {Text} key id w =
    let pattern' : is_id_pattern (to_hex id) ≡ true =
      rw (all_hex-to_hex id w.bytes, length-to_hex id, w.size) refl in
    rw (pattern', decode-to_hex id w.bytes) (checked-IsMinted {Text = Text} key id w)

-- What a string and an id have to be for `idFromString` to make the one of the other.
pub record Names {Text : Type 0} (key s : List ℕ) (i : ActorId Text) : Type 0 where
  pub valid : is_id_pattern s ≡ true
  pub minted_by : IsMinted key i.id
  pub unnamed : i.name ≡ none
  pub digits : to_string i ≡ map lower s

is_id_pattern-parts : (s : List ℕ) → is_id_pattern s ≡ true → (length s ≡ 64) × (all_hex s ≡ true)
is_id_pattern-parts s h = (
  ground (arith, &&-true (nat_beq (length s) 64) (all_hex s) h),
  (&&-true (nat_beq (length s) 64) (all_hex s) h).1,
)

checked-Names :
    {Text : Type 0} (key s : List ℕ) (i : ActorId Text)
    → is_id_pattern s ≡ true
    → checked (decode s) (compute_mac key (decode s)) ≡ ok i
    → Names key s i
checked-Names {Text} key s i v h =
    let (sized, digits) = is_id_pattern-parts s v in
    let bytes = decode s in
    let size = length-decode 32 s sized in
    let mac = take 16 (hmac_sha256 key (take 16 bytes)) in
    let made = sym (checked_lem {Text = Text} key bytes size) ∙ h in
    elim (Bool-cases (bytes_eq mac (drop 16 bytes))) [
      | inr differ ↦ cc (rw differ at made)
      | inl same ↦
          let halves = bytes_eq_sound mac (drop 16 bytes) same in
          let w : IsMinted key bytes = record {
            size = size;
            bytes = decode-IsByte s digits;
            mac = sym halves;
          } in
          let is_i : ok (record { id = minted key (take 16 bytes); name = none }) ≡ ok i =
            rw same at made in
          let it : record { id = bytes; name = none } ≡ i = cc (IsMinted-eq key bytes w, is_i) in
          subst (Names key s) it (record {
            valid = v;
            minted_by = w;
            unnamed = refl;
            digits = to_hex-decode 32 s sized digits;
          })
    ]

Names-decode : {Text : Type 0} (key s : List ℕ) (i : ActorId Text) → Names key s i → decode s ≡ i.id
Names-decode key s i w =
    let (sized, digits) = is_id_pattern-parts s w.valid in
    sym (decode-to_hex (decode s) (decode-IsByte s digits))
    ∙ ap decode (to_hex-decode 32 s sized digits ∙ sym w.digits)
    ∙ decode-to_hex i.id w.minted_by.bytes

-- `idFromString` makes an id of a string exactly if the string is 64 hexadecimal digits that are, up
-- to case, what the id prints, the second half of the id is the first half of the keyed hash of its
-- first half, and the id has no name.
pub id_from_string-Names :
    {Text : Type 0} (key s : List ℕ) (i : ActorId Text)
    → (id_from_string key s ≡ ok i) ↔ Names key s i
id_from_string-Names {Text} key s i = (takes, gives)
  where
    takes : id_from_string key s ≡ ok i → Names key s i
    takes h = elim (Bool-cases (is_id_pattern s)) [
      | inl v ↦ checked-Names key s i v (rw v at h)
      | inr bad ↦ cc (rw bad at h)
    ]

    gives : Names key s i → id_from_string key s ≡ ok i
    gives w =
        rw (w.valid, Names-decode key s i w)
          (checked-IsMinted {Text = Text} key i.id w.minted_by ∙ cc (w.unnamed))

-- An id that the factory has made comes back from its string, without its name.
abbrev pub ComesBack :
    {Text : Type 0} → List ℕ → Option Text → Result IdError (ActorId Text) → Type 0
ComesBack {Text} key name made =
    (i : ActorId Text) × (made ≡ ok i)
    × (i.name ≡ name)
    × (id_from_string key (to_string i) ≡ ok (clear_name i))

made-ComesBack :
    {Text : Type 0} (key base : List ℕ) (name : Option Text)
    → length base ≡ 16
    → All IsByte base
    → ComesBack key name (make_id (base ++ hmac_sha256 key base) name)
made-ComesBack key base name sized bytes = (
  record { id = minted key base; name = name },
  make_id_lem key base sized name,
  refl,
  id_from_string-to_hex key (minted key base) (minted-IsMinted key base sized bytes),
)

-- The ids of `idFromName`, for each name and each encoder of text, and of `newUniqueId`, for each
-- 16 random bytes, print a string of which `idFromString` makes the same bytes again, with no name.
pub id_from_string-ComesBack :
    {Text : Type 0} (encode : Text → List ℕ) (key : List ℕ) (name : Text) (entropy : List ℕ)
    → length entropy ≡ 16
    → All IsByte entropy
    → ComesBack key (some name) (id_from_name encode key name)
      × ComesBack {Text = Text} key none (new_unique_id key entropy none)
id_from_string-ComesBack {Text} encode key name entropy sized bytes =
    let hash = hmac_sha256 key (encode name) in
    let half : length (take 16 hash) ≡ 16 =
      length-take_le 16 hash (omega (arith, length-hmac_sha256 key (encode name))) in
    let whole : take 16 entropy ≡ entropy =
      ap (λ (n : ℕ). take n entropy) (sym sized) ∙ take_all entropy in
    (
      made-ComesBack key (take 16 hash) (some name) half
          (All-take 16 hash (hmac_sha256-IsByte key (encode name))),
      subst (λ b. ComesBack {Text = Text} key none (make_id (b ++ hmac_sha256 key b) none))
          (sym whole) (made-ComesBack key entropy none sized bytes),
    )
