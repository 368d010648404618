-- ===== src/Examples/ActorIdRuns.antt =====
-- src/server/actor-id-impl.ts and src/server/sha256.ts on concrete inputs.
use Prim.Native.Char.{code}
use do_runtime.Common.{
  take, ℕ, ◌≡◌, ◌↔◌, refl, none, some, String, List, [], ◌∷◌, ok, err, replicate, arith,
}
use do_runtime.ActorId.{
  compute_mac, ActorId, invalid_id, wrong_namespace, to_hex, id_from_name, new_unique_id,
  id_from_string, all_hex, decode, bytes_eq,
}
use do_runtime.ActorId.Sha256.{sha256, hmac_sha256}
use do_runtime.ActorId.Minted.{Names, ComesBack, id_from_string-Names, id_from_string-ComesBack}

abbrev codes : String → List ℕ
codes String.[] = []
codes (String.◌∷◌ c s) = code c ∷ codes s

abbrev text : List ℕ → List ℕ
text cs = cs

-- The digest of "abc" that FIPS 180-4 gives.
abc_hash :
    to_hex (sha256 (97 ∷ 98 ∷ 99 ∷ []))
    ≡ codes "ba7816bf8f01cfea414140de5dae2223b00361a396177a9cb410ff61f20015ad"
unfolding sha256 to_hex
abc_hash = refl

abbrev key : List ℕ
key = replicate 32 7

abbrev entropy : List ℕ
entropy = replicate 16 255

id_from_string-ComesBack_example :
    ComesBack key (some (97 ∷ [])) (id_from_name text key (97 ∷ []))
    × ComesBack {Text = List ℕ} key none (new_unique_id key entropy none)
id_from_string-ComesBack_example =
    id_from_string-ComesBack text key (97 ∷ []) entropy refl (omega arith)

abbrev unique : ActorId (List ℕ)
unique = record { id = take 32 (compute_mac key entropy); name = none }

id_from_string-Names_example :
    (id_from_string key (to_hex unique.id) ≡ ok unique) ↔ Names key (to_hex unique.id) unique
id_from_string-Names_example = id_from_string-Names key (to_hex unique.id) unique

-- A string that is no id, and one of another namespace.
refused :
    (id_from_string {Text = List ℕ} key (replicate 64 48) ≡ err wrong_namespace)
    × (id_from_string {Text = List ℕ} key (replicate 63 48) ≡ err invalid_id)
unfolding all_hex decode bytes_eq hmac_sha256
refused = (refl, refl)
