-- ===== src/ActorId.antt =====
-- src/server/actor-id-impl.ts: `ActorIdImpl` and `ActorIdFactoryImpl`. Bytes and the characters of
-- a string are numbers. `TextEncoder` is a parameter, and `crypto.getRandomValues` the argument
-- that holds the bytes it gives.
pub mod Sha256
pub mod Hex
pub mod Minted
use do_runtime.Common.{
  ℕ, zero, suc, ◌+◌, ◌-◌, ◌*◌, ◌/◌, ◌%◌, Bool, true, false, ◌&&◌, ◌||◌, Option, none, some, List,
  [], ◌∷◌, ◌++◌, map, length, take, drop, replicate, nat_beq, ltb, leb, if◌then◌else◌, Result, ok,
  err, ◌>>=◌,
}
use do_runtime.ActorId.Sha256.{sha256, hmac_sha256, digest_length}

pub data IdError : Type 0 where
  no_jurisdictions invalid_id wrong_namespace short_buffer bad_key : IdError

abbrev pub base_length : ℕ
base_length = digest_length / 2

pub record ActorId (Text : Type 0) : Type 0 where
  pub id : List ℕ
  pub name : Option Text

module _ {Text : Type 0} where
  -- `new ActorIdImpl`: the first 32 bytes of a buffer.
  abbrev pub make_id : List ℕ → Option Text → Result IdError (ActorId Text)
  make_id buffer name =
      if ltb (length buffer) digest_length
      then err short_buffer
      else ok (record { id = take digest_length buffer; name = name })

  abbrev pub clear_name : ActorId Text → ActorId Text
  clear_name i = record i { name = none }

-- `byte.toString(16).padStart(2, "0")`.
abbrev pub hex_digit : ℕ → ℕ
hex_digit d = if ltb d 10 then d + 48 else d + 87

unfoldable pub to_hex : List ℕ → List ℕ
to_hex [] = []
to_hex (b ∷ bs) = hex_digit (b / 16) ∷ hex_digit (b % 16) ∷ to_hex bs

abbrev pub to_string : {Text : Type 0} → ActorId Text → List ℕ
to_string i = to_hex i.id

-- `[0-9a-fA-F]`, and the value of such a digit for `parseInt`.
abbrev pub is_hex : ℕ → Bool
is_hex c = leb 48 c && leb c 57 || leb 65 c && leb c 70 || leb 97 c && leb c 102

abbrev pub digit_value : ℕ → ℕ
digit_value c = if ltb c 58 then c - 48 else if ltb c 71 then c - 55 else c - 87

unfoldable pub all_hex : List ℕ → Bool
all_hex [] = true
all_hex (c ∷ cs) = is_hex c && all_hex cs

abbrev pub is_id_pattern : List ℕ → Bool
is_id_pattern s = nat_beq (length s) 64 && all_hex s

unfoldable pub decode : List ℕ → List ℕ
decode (c ∷ d ∷ cs) = (digit_value c * 16 + digit_value d) ∷ decode cs
decode cs = []

unfoldable pub bytes_eq : List ℕ → List ℕ → Bool
bytes_eq [] [] = true
bytes_eq (a ∷ as') (b ∷ bs) = nat_beq a b && bytes_eq as' bs
bytes_eq [] (b ∷ bs) = false
bytes_eq (a ∷ as') [] = false

-- `equals` compares the bytes, not the names.
abbrev pub equals : {Text : Type 0} → ActorId Text → ActorId Text → Bool
equals i j = bytes_eq i.id j.id

-- `#computeMac`: a buffer of which the first 16 bytes are the base of the id.
abbrev pub compute_mac : List ℕ → List ℕ → List ℕ
compute_mac key id = take base_length id ++ hmac_sha256 key (take base_length id)

-- The constructor with a key, as `cloneWithJurisdiction` calls it.
abbrev pub with_key : List ℕ → Result IdError (List ℕ)
with_key key = if nat_beq (length key) digest_length then ok key else err bad_key

abbrev pub clone_with_jurisdiction : List ℕ → Option (List ℕ) → Result IdError (List ℕ)
clone_with_jurisdiction key (some j) = err no_jurisdictions
clone_with_jurisdiction key none = with_key key

module _ {Text : Type 0} (encode : Text → List ℕ) where
  -- The constructor with the unique key of a namespace.
  abbrev pub factory_key : Text → List ℕ
  factory_key unique_key = sha256 (encode unique_key)

  abbrev pub id_from_name : List ℕ → Text → Result IdError (ActorId Text)
  id_from_name key name = make_id (compute_mac key (hmac_sha256 key (encode name))) (some name)

module _ {Text : Type 0} where
  abbrev pub new_unique_id : List ℕ → List ℕ → Option (List ℕ) → Result IdError (ActorId Text)
  new_unique_id key entropy (some j) = err no_jurisdictions
  new_unique_id key entropy none = make_id (compute_mac key entropy) none

  -- `idFromString`: the pattern, then the second half of the id.
  abbrev checked : List ℕ → List ℕ → Result IdError (ActorId Text)
  checked decoded id =
      if bytes_eq (take base_length (drop base_length id)) (drop base_length decoded)
      then make_id id none
      else err wrong_namespace

  abbrev pub id_from_string : List ℕ → List ℕ → Result IdError (ActorId Text)
  id_from_string key s =
      if is_id_pattern s then checked (decode s) (compute_mac key (decode s)) else err invalid_id
