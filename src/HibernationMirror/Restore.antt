-- ===== src/HibernationMirror/Restore.antt =====
-- src/server/hibernation-mirror.ts: a mirror comes back from its snapshot.
use mathlib.Core.Path.{subst}
use do_runtime.Common.{
  ℕ, ◌≡◌, refl, sym, ap, ◌∙◌, false, Option, none, some, List, [], ◌∷◌, ◌++◌, String, Result, ok,
  err, nat_beq, lookup, insert, erase, insert_new, nat_eq, IsDistinct, insert-IsDistinct,
  erase-IsDistinct, append-nil, append_assoc, Bool-cases, inl, inr, arith, All,
}
use do_runtime.HibernationMirror.{
  MirroredWebSocket, HibernationAutoResponse, HibernationMirror, MirrorError, rehydrate, construct,
  accepted, set_or_throw, attachment, auto_response, auto_response_timestamp, closed, values,
  snapshot,
}

abbrev pub Entries : Type 0
Entries = List (ℕ × MirroredWebSocket)

-- Each entry stands under its own socket.
abbrev pub IsOwn : ℕ × MirroredWebSocket → Type 0
IsOwn x = x.1.socket ≡ x.0

pub record IsKept (m : HibernationMirror) : Type 0 where
  pub distinct : IsDistinct m.entries
  pub own : All IsOwn m.entries

behind_other :
    (j k : ℕ) (v : MirroredWebSocket) (xs ys : Entries)
    → lookup j (xs ++ (k, v) ∷ ys) ≡ none
    → nat_beq j k ≡ false
behind_other j k v [] ys gone = ground (arith, gone)
behind_other j k v ((i, w) ∷ xs) ys gone = elim (Bool-cases (nat_beq i j)) [
  | inl same ↦ let never : some w ≡ none = rw same at gone in absurd (cc)
  | inr differ ↦ behind_other j k v xs ys (rw differ at gone)
]

new_key :
    (k : ℕ) (v : MirroredWebSocket) (xs ys : Entries)
    → IsDistinct (xs ++ (k, v) ∷ ys)
    → lookup k xs ≡ none
new_key k v [] ys d = refl
new_key k v ((j, w) ∷ xs) ys d = rw (behind_other j k v xs ys d.0) (new_key k v xs ys d.1)

rehydrate_lem :
    (acc rest : Entries)
    → IsDistinct (acc ++ rest)
    → All IsOwn rest
    → rehydrate (values rest) acc ≡ acc ++ rest
unfolding rehydrate values
rehydrate_lem acc [] d own = sym (append-nil acc)
rehydrate_lem acc ((k, v) ∷ rest) d own =
    let more : insert v.socket v acc ≡ acc ++ (k, v) ∷ [] =
      ap (λ (s : ℕ). insert s v acc) own.0 ∙ insert_new k v acc (new_key k v acc rest d) in
    let split : (acc ++ (k, v) ∷ []) ++ rest ≡ acc ++ (k, v) ∷ rest =
      append_assoc acc ((k, v) ∷ []) rest in
    ap (rehydrate (values rest)) more
    ∙ rehydrate_lem (acc ++ (k, v) ∷ []) rest (subst IsDistinct (sym split) d) own.1
    ∙ split

-- A mirror that is built from the snapshot of another, with its pair, is the same mirror: the same
-- sockets in the same order, with their tags, attachments and timestamps.
pub construct-snapshot :
    (m : HibernationMirror) → IsKept m → construct (snapshot m) m.auto_response_pair ≡ m
unfolding construct
construct-snapshot m w =
    ap (λ (es : Entries). record { entries = es; auto_response_pair = m.auto_response_pair })
      (rehydrate_lem [] m.entries w.distinct w.own)

insert-IsOwn :
    (k : ℕ) (v : MirroredWebSocket) (m : Entries)
    → v.socket ≡ k
    → All IsOwn m
    → All IsOwn (insert k v m)
unfolding insert
insert-IsOwn k v [] is_k own = (is_k, tt)
insert-IsOwn k v ((j, w) ∷ m) is_k own = elim (Bool-cases (nat_beq j k)) [
  | inl same ↦ let is_j : j ≡ k = ground (arith, same) in rw same ((is_k ∙ sym is_j), own.1)
  | inr differ ↦ rw differ (own.0, insert-IsOwn k v m is_k own.1)
]

erase-IsOwn : (k : ℕ) (m : Entries) → All IsOwn m → All IsOwn (erase k m)
unfolding erase
erase-IsOwn k [] own = tt
erase-IsOwn k ((j, w) ∷ m) own = elim (Bool-cases (nat_beq j k)) [
  | inl same ↦ rw same (erase-IsOwn k m own.1)
  | inr differ ↦ rw differ (own.0, erase-IsOwn k m own.1)
]

lookup-IsOwn :
    (k : ℕ) (m : Entries) (v : MirroredWebSocket) → All IsOwn m → lookup k m ≡ some v → v.socket ≡ k
lookup-IsOwn k [] v own is_v = absurd (cc)
lookup-IsOwn k ((j, w) ∷ m) v own is_v = elim (Bool-cases (nat_beq j k)) [
  | inl same ↦
      let is_w : some w ≡ some v = rw same at is_v in
      let same_entry : w ≡ v = cc in
      let is_j : j ≡ k = ground (arith, same) in
      ap (λ (x : MirroredWebSocket). x.socket) (sym same_entry) ∙ own.0 ∙ is_j
  | inr differ ↦ lookup-IsOwn k m v own.1 (rw differ at is_v)
]

pub data Use : Type 0 where
  accepting : ℕ → List String → Use
  attaching : ℕ → Option (List ℕ) → Use
  pairing : Option HibernationAutoResponse → Use
  stamping : ℕ → ℕ → Use
  closing : ℕ → Use

-- A call that throws changes nothing.
abbrev pub or_same : Result MirrorError HibernationMirror → HibernationMirror → HibernationMirror
or_same (ok m') m = m'
or_same (err e) m = m

abbrev pub use_once : Use → HibernationMirror → HibernationMirror
use_once (accepting socket tags) m = accepted socket tags m
use_once (attaching socket bytes) m = or_same (attachment socket bytes m) m
use_once (pairing pair) m = auto_response pair m
use_once (stamping socket timestamp) m = or_same (auto_response_timestamp socket timestamp m) m
use_once (closing socket) m = closed socket m

insert-IsKept :
    (k : ℕ) (v : MirroredWebSocket) (m : HibernationMirror)
    → v.socket ≡ k
    → IsKept m
    → IsKept (record m { entries = insert k v m.entries })
insert-IsKept k v m is_k w = record {
  distinct = insert-IsDistinct k v m.entries w.distinct;
  own = insert-IsOwn k v m.entries is_k w.own;
}

set_or_throw-IsKept :
    (o : Option MirroredWebSocket) (e : MirrorError) (k : ℕ)
    (f : MirroredWebSocket → MirroredWebSocket) (m : HibernationMirror)
    → lookup k m.entries ≡ o
    → ((v : MirroredWebSocket) → (f v).socket ≡ v.socket)
    → IsKept m
    → IsKept (or_same (set_or_throw o e k f m) m)
set_or_throw-IsKept none e k f m is_o same w = w
set_or_throw-IsKept (some v) e k f m is_o same w =
    insert-IsKept k (f v) m (same v ∙ lookup-IsOwn k m.entries v w.own is_o) w

-- Every call keeps each entry under its own socket, once.
pub use_once-IsKept : (u : Use) (m : HibernationMirror) → IsKept m → IsKept (use_once u m)
use_once-IsKept (accepting socket tags) m w = insert-IsKept socket _ m refl w
use_once-IsKept (attaching socket bytes) m w =
    set_or_throw-IsKept (lookup socket m.entries) _ socket _ m refl (λ v. refl) w
use_once-IsKept (pairing pair) m w = record { distinct = w.distinct; own = w.own }
use_once-IsKept (stamping socket timestamp) m w =
    set_or_throw-IsKept (lookup socket m.entries) _ socket _ m refl (λ v. refl) w
use_once-IsKept (closing socket) m w = record {
  distinct = erase-IsDistinct socket m.entries w.distinct;
  own = erase-IsOwn socket m.entries w.own;
}
