-- ===== src/Games/Rng.antt =====
-- internal/games/rng.go. The hash of crypto/sha256 is the parameter `sha256`, from the bytes
-- written to the digest's bytes; a seed is a non-negative int64, as `NewSeed` makes it.
use Prim.Native.Char.{code}
use Prim.Native.String.{String}
use podium.Base.{
  ℕ, zero, suc, ◌+◌, ◌-◌, ◌*◌, ◌/◌, ◌%◌, ◌^◌, ◌≤◌, ◌<◌, List, [], ◌∷◌, ◌++◌, arith, ◌==◌, leb,
  if◌then◌else◌, take,
}

abbrev pub codes : String → List ℕ
codes String.[] = []
codes (String.◌∷◌ c s) = code c ∷ codes s

-- binary.BigEndian.PutUint64: the last k bytes of x, the highest first.
unfoldable pub put_uint : ℕ → ℕ → List ℕ
put_uint zero x = []
put_uint (suc k) x = (x / 256 ^ k % 256) ∷ put_uint k x

-- binary.BigEndian.Uint64 of the bytes given.
unfoldable pub read_uint : ℕ → List ℕ → ℕ
read_uint acc [] = acc
read_uint acc (b ∷ bs) = read_uint (acc * 256 + b) bs

abbrev pub Digest : Type 0
Digest = List ℕ → List ℕ

-- NewSeed, from the eight random bytes.
unfoldable pub new_seed : List ℕ → ℕ
unfolding read_uint
new_seed random = read_uint 0 random / 2

unfoldable pub derive : Digest → ℕ → List ℕ → ℕ → ℕ
unfolding put_uint read_uint
derive sha256 seed label index =
    read_uint 0 (take 8 (sha256 (put_uint 8 seed ++ (label ++ put_uint 8 index))))

unfoldable pub derive_intn : Digest → ℕ → List ℕ → ℕ → ℕ → ℕ
derive_intn sha256 seed label index n = if n == 0 then 0 else derive sha256 seed label index % n

unfoldable pub derive_range : Digest → ℕ → List ℕ → ℕ → ℕ → ℕ → ℕ
derive_range sha256 seed label index low high =
    if leb high low then low else low + derive_intn sha256 seed label index (high - low + 1)

pub derive_intn-lt :
    (sha256 : Digest) (seed : ℕ) (label : List ℕ) (index n : ℕ)
    → 0 < n
    → derive_intn sha256 seed label index n < n
unfolding derive_intn
derive_intn-lt sha256 seed label index n h = ground arith

pub derive_range_low :
    (sha256 : Digest) (seed : ℕ) (label : List ℕ) (index low high : ℕ)
    → low ≤ derive_range sha256 seed label index low high
unfolding derive_range
derive_range_low sha256 seed label index low high = ground arith

pub derive_range_high :
    (sha256 : Digest) (seed : ℕ) (label : List ℕ) (index low high : ℕ)
    → low ≤ high
    → derive_range sha256 seed label index low high ≤ high
unfolding derive_range
derive_range_high sha256 seed label index low high h =
    ground (arith, derive_intn-lt sha256 seed label index (high - low + 1))
