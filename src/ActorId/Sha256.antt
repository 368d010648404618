-- ===== src/ActorId/Sha256.antt =====
-- src/server/sha256.ts: SHA-256 and HMAC-SHA-256 on lists of bytes. Words have 32 bits.
use Prim.Native.Nat.{bit_and, bit_or, bit_xor}
use do_runtime.Common.{
  ℕ, zero, suc, ◌+◌, ◌-◌, ◌*◌, ◌/◌, ◌%◌, ◌^◌, ◌≡◌, refl, List, [], ◌∷◌, ◌++◌, map, length,
  length-append, take, drop, replicate, ltb, if◌then◌else◌, All, IsByte, arith,
}

abbrev pub digest_length : ℕ
digest_length = 32

abbrev block_length : ℕ
block_length = 64

-- `>>> 0`.
abbrev word : ℕ → ℕ
word v = v % 4294967296

abbrev round_constants : List ℕ
round_constants =
    0x428a2f98 ∷ 0x71374491 ∷ 0xb5c0fbcf ∷ 0xe9b5dba5 ∷ 0x3956c25b ∷ 0x59f111f1 ∷ 0x923f82a4
    ∷ 0xab1c5ed5 ∷ 0xd807aa98 ∷ 0x12835b01 ∷ 0x243185be ∷ 0x550c7dc3 ∷ 0x72be5d74 ∷ 0x80deb1fe
    ∷ 0x9bdc06a7 ∷ 0xc19bf174 ∷ 0xe49b69c1 ∷ 0xefbe4786 ∷ 0x0fc19dc6 ∷ 0x240ca1cc ∷ 0x2de92c6f
    ∷ 0x4a7484aa ∷ 0x5cb0a9dc ∷ 0x76f988da ∷ 0x983e5152 ∷ 0xa831c66d ∷ 0xb00327c8 ∷ 0xbf597fc7
    ∷ 0xc6e00bf3 ∷ 0xd5a79147 ∷ 0x06ca6351 ∷ 0x14292967 ∷ 0x27b70a85 ∷ 0x2e1b2138 ∷ 0x4d2c6dfc
    ∷ 0x53380d13 ∷ 0x650a7354 ∷ 0x766a0abb ∷ 0x81c2c92e ∷ 0x92722c85 ∷ 0xa2bfe8a1 ∷ 0xa81a664b
    ∷ 0xc24b8b70 ∷ 0xc76c51a3 ∷ 0xd192e819 ∷ 0xd6990624 ∷ 0xf40e3585 ∷ 0x106aa070 ∷ 0x19a4c116
    ∷ 0x1e376c08 ∷ 0x2748774c ∷ 0x34b0bcb5 ∷ 0x391c0cb3 ∷ 0x4ed8aa4a ∷ 0x5b9cca4f ∷ 0x682e6ff3
    ∷ 0x748f82ee ∷ 0x78a5636f ∷ 0x84c87814 ∷ 0x8cc70208 ∷ 0x90befffa ∷ 0xa4506ceb ∷ 0xbef9a3f7
    ∷ 0xc67178f2 ∷ []

record Hash : Type 0 where
  a : ℕ
  b : ℕ
  c : ℕ
  d : ℕ
  e : ℕ
  f : ℕ
  g : ℕ
  h : ℕ

abbrev initial_hash : Hash
initial_hash = record {
  a = 0x6a09e667;
  b = 0xbb67ae85;
  c = 0x3c6ef372;
  d = 0xa54ff53a;
  e = 0x510e527f;
  f = 0x9b05688c;
  g = 0x1f83d9ab;
  h = 0x5be0cd19;
}

rotr : ℕ → ℕ → ℕ
rotr v n = bit_or (v / 2 ^ n) (word (v * 2 ^ (32 - n)))

-- The words of a block.
words_of : List ℕ → List ℕ
words_of (p ∷ q ∷ r ∷ s ∷ bytes) = (p * 16777216 + q * 65536 + r * 256 + s) ∷ words_of bytes
words_of bytes = []

-- `at`; past the end, where the source throws, it is 0.
at : List ℕ → ℕ → ℕ
at [] i = 0
at (v ∷ vs) zero = v
at (v ∷ vs) (suc i) = at vs i

next_word : List ℕ → ℕ → ℕ
unfolding rotr at
next_word w i =
    let w15 = at w (i - 15) in
    let w2 = at w (i - 2) in
    let s0 = bit_xor (bit_xor (rotr w15 7) (rotr w15 18)) (w15 / 2 ^ 3) in
    let s1 = bit_xor (bit_xor (rotr w2 17) (rotr w2 19)) (w2 / 2 ^ 10) in
    word (at w (i - 16) + s0 + at w (i - 7) + s1)

-- The rest of the schedule, from the `i`-th word.
schedule : ℕ → ℕ → List ℕ → List ℕ
unfolding next_word
schedule zero i w = w
schedule (suc n) i w = schedule n (i + 1) (w ++ next_word w i ∷ [])

round : ℕ → ℕ → Hash → Hash
unfolding rotr
round k w s =
    let sigma1 = bit_xor (bit_xor (rotr s.e 6) (rotr s.e 11)) (rotr s.e 25) in
    let choice = bit_xor (bit_and s.e s.f) (bit_and (bit_xor s.e 4294967295) s.g) in
    let temp1 = word (s.h + sigma1 + choice + k + w) in
    let sigma0 = bit_xor (bit_xor (rotr s.a 2) (rotr s.a 13)) (rotr s.a 22) in
    let majority = bit_xor (bit_xor (bit_and s.a s.b) (bit_and s.a s.c)) (bit_and s.b s.c) in
    let temp2 = word (sigma0 + majority) in
    record {
      a = word (temp1 + temp2);
      b = s.a;
      c = s.b;
      d = s.c;
      e = word (s.d + temp1);
      f = s.e;
      g = s.f;
      h = s.g;
    }

rounds : List ℕ → List ℕ → Hash → Hash
unfolding round
rounds (k ∷ ks) (w ∷ ws) s = rounds ks ws (round k w s)
rounds [] ws s = s
rounds (k ∷ ks) [] s = s

add_hash : Hash → Hash → Hash
add_hash s t = record {
  a = word (s.a + t.a);
  b = word (s.b + t.b);
  c = word (s.c + t.c);
  d = word (s.d + t.d);
  e = word (s.e + t.e);
  f = word (s.f + t.f);
  g = word (s.g + t.g);
  h = word (s.h + t.h);
}

-- One block.
compress : List ℕ → Hash → Hash
unfolding words_of schedule rounds add_hash
compress block s = add_hash s (rounds round_constants (schedule 48 16 (words_of block)) s)

blocks : ℕ → List ℕ → Hash → Hash
unfolding compress
blocks zero bytes s = s
blocks (suc n) bytes s = blocks n (drop block_length bytes) (compress (take block_length bytes) s)

-- `setUint32`.
abbrev bytes_of : ℕ → List ℕ
bytes_of v = v / 16777216 % 256 ∷ v / 65536 % 256 ∷ v / 256 % 256 ∷ v % 256 ∷ []

abbrev digest_of : Hash → List ℕ
digest_of s =
    bytes_of s.a
    ++ bytes_of s.b
    ++ bytes_of s.c
    ++ bytes_of s.d
    ++ bytes_of s.e
    ++ bytes_of s.f
    ++ bytes_of s.g
    ++ bytes_of s.h

block_count : ℕ → ℕ
block_count n = (n + 9 + 63) / 64

pad : List ℕ → List ℕ
unfolding block_count
pad message =
    let n = length message in
    message
    ++ 0x80 ∷ replicate (block_count n * 64 - 8 - n - 1) 0
    ++ bytes_of (n * 8 / 4294967296)
    ++ bytes_of (n * 8)

unfoldable pub sha256 : List ℕ → List ℕ
unfolding pad block_count blocks
sha256 message = digest_of (blocks (block_count (length message)) (pad message) initial_hash)

-- The key, as one block.
abbrev key_block : List ℕ → List ℕ
key_block key = key ++ replicate (block_length - length key) 0

-- `outer`, with the digest of `inner`.
outer_message : List ℕ → List ℕ → List ℕ
unfolding sha256
outer_message key message =
    let block = key_block (if ltb block_length (length key) then sha256 key else key) in
    map (bit_xor 0x5c) block ++ sha256 (map (bit_xor 0x36) block ++ message)

unfoldable pub hmac_sha256 : List ℕ → List ℕ → List ℕ
unfolding sha256 outer_message
hmac_sha256 key message = sha256 (outer_message key message)

length-sha256 : (message : List ℕ) → length (sha256 message) ≡ digest_length
unfolding sha256
length-sha256 message = refl

sha256-IsByte : (message : List ℕ) → All IsByte (sha256 message)
unfolding sha256
sha256-IsByte message = omega arith

pub length-hmac_sha256 : (key message : List ℕ) → length (hmac_sha256 key message) ≡ digest_length
unfolding hmac_sha256
length-hmac_sha256 key message = length-sha256 (outer_message key message)

pub hmac_sha256-IsByte : (key message : List ℕ) → All IsByte (hmac_sha256 key message)
unfolding hmac_sha256
hmac_sha256-IsByte key message = sha256-IsByte (outer_message key message)

-- The schedule has a word for each number below its end, and `next_word` reads earlier ones.
length-schedule : (n i : ℕ) (w : List ℕ) → length w ≡ i → length (schedule n i w) ≡ n + i
unfolding schedule
length-schedule zero i w e = omega (arith, e)
length-schedule (suc n) i w e =
    let more : length (w ++ next_word w i ∷ []) ≡ i + 1 =
      omega (arith, e, length-append {0} w (next_word w i ∷ [])) in
    omega (arith, length-schedule n (i + 1) (w ++ next_word w i ∷ []) more)
