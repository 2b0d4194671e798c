-- ===== src/Algos.antt =====
-- algos.h: the algorithms, their names and the aliases of the names.
pub mod Names
mod Tests
use ccminer.Common.{
  ℕ, zero, suc, ◌+◌, Bool, true, false, List, [], ◌∷◌, ◌==◌, if◌then◌else◌, get_or,
}
use ccminer.Common.Int.{ℤ, pos, negsuc}
use ccminer.Cstring.{codes, case_eq}

-- enum sha_algos, less its last member, ALGO_COUNT
pub data ShaAlgos : Type 0 where
  blakecoin blake blake2s allium bmw bastion c11 cryptolight cryptonight deep decred dmd_gr :
      ShaAlgos
  equihash fresh fugue256 groestl heavy hmq1725 hsr keccak keccakc jackpot jha lbry luffa lyra2 :
      ShaAlgos
  lyra2v2 lyra2z mjollnir myr_gr neoscrypt nist5 pentablake phi phi2 polytimos quark qubit :
      ShaAlgos
  scrypt scrypt_jane sha256d sha256t sia sib skein skein2 skunk sonoa s3 timetravel tribus :
      ShaAlgos
  bitcore x11evo x11 x12 x13 x14 x15 x16r x16s x17 vanilla veltor whirlcoin whirlpool : ShaAlgos
  whirlpoolx wildkeccak zr5 monero graft stellite auto : ShaAlgos

abbrev pub algo_count : ℕ
algo_count = 72

-- The number of a member.
abbrev pub to_int : ShaAlgos → ℕ
to_int blakecoin = 0
to_int blake = 1
to_int blake2s = 2
to_int allium = 3
to_int bmw = 4
to_int bastion = 5
to_int c11 = 6
to_int cryptolight = 7
to_int cryptonight = 8
to_int deep = 9
to_int decred = 10
to_int dmd_gr = 11
to_int equihash = 12
to_int fresh = 13
to_int fugue256 = 14
to_int groestl = 15
to_int heavy = 16
to_int hmq1725 = 17
to_int hsr = 18
to_int keccak = 19
to_int keccakc = 20
to_int jackpot = 21
to_int jha = 22
to_int lbry = 23
to_int luffa = 24
to_int lyra2 = 25
to_int lyra2v2 = 26
to_int lyra2z = 27
to_int mjollnir = 28
to_int myr_gr = 29
to_int neoscrypt = 30
to_int nist5 = 31
to_int pentablake = 32
to_int phi = 33
to_int phi2 = 34
to_int polytimos = 35
to_int quark = 36
to_int qubit = 37
to_int scrypt = 38
to_int scrypt_jane = 39
to_int sha256d = 40
to_int sha256t = 41
to_int sia = 42
to_int sib = 43
to_int skein = 44
to_int skein2 = 45
to_int skunk = 46
to_int sonoa = 47
to_int s3 = 48
to_int timetravel = 49
to_int tribus = 50
to_int bitcore = 51
to_int x11evo = 52
to_int x11 = 53
to_int x12 = 54
to_int x13 = 55
to_int x14 = 56
to_int x15 = 57
to_int x16r = 58
to_int x16s = 59
to_int x17 = 60
to_int vanilla = 61
to_int veltor = 62
to_int whirlcoin = 63
to_int whirlpool = 64
to_int whirlpoolx = 65
to_int wildkeccak = 66
to_int zr5 = 67
to_int monero = 68
to_int graft = 69
to_int stellite = 70
to_int auto = 71

abbrev pub algo_names : List (List ℕ)
algo_names =
    codes "blakecoin"
    ∷ codes "blake"
    ∷ codes "blake2s"
    ∷ codes "allium"
    ∷ codes "bmw"
    ∷ codes "bastion"
    ∷ codes "c11"
    ∷ codes "cryptolight"
    ∷ codes "cryptonight"
    ∷ codes "deep"
    ∷ codes "decred"
    ∷ codes "dmd-gr"
    ∷ codes "verus"
    ∷ codes "fresh"
    ∷ codes "fugue256"
    ∷ codes "groestl"
    ∷ codes "heavy"
    ∷ codes "hmq1725"
    ∷ codes "hsr"
    ∷ codes "keccak"
    ∷ codes "keccakc"
    ∷ codes "jackpot"
    ∷ codes "jha"
    ∷ codes "lbry"
    ∷ codes "luffa"
    ∷ codes "lyra2"
    ∷ codes "lyra2v2"
    ∷ codes "lyra2z"
    ∷ codes "mjollnir"
    ∷ codes "myr-gr"
    ∷ codes "neoscrypt"
    ∷ codes "nist5"
    ∷ codes "penta"
    ∷ codes "phi"
    ∷ codes "phi2"
    ∷ codes "polytimos"
    ∷ codes "quark"
    ∷ codes "qubit"
    ∷ codes "scrypt"
    ∷ codes "scrypt-jane"
    ∷ codes "sha256d"
    ∷ codes "sha256t"
    ∷ codes "sia"
    ∷ codes "sib"
    ∷ codes "skein"
    ∷ codes "skein2"
    ∷ codes "skunk"
    ∷ codes "sonoa"
    ∷ codes "s3"
    ∷ codes "timetravel"
    ∷ codes "tribus"
    ∷ codes "bitcore"
    ∷ codes "x11evo"
    ∷ codes "x11"
    ∷ codes "x12"
    ∷ codes "x13"
    ∷ codes "x14"
    ∷ codes "x15"
    ∷ codes "x16r"
    ∷ codes "x16s"
    ∷ codes "x17"
    ∷ codes "vanilla"
    ∷ codes "veltor"
    ∷ codes "whirlcoin"
    ∷ codes "whirlpool"
    ∷ codes "whirlpoolx"
    ∷ codes "wildkeccak"
    ∷ codes "zr5"
    ∷ codes "monero"
    ∷ codes "graft"
    ∷ codes "stellite"
    ∷ codes "auto"
    ∷ codes ""
    ∷ []

-- The first loop of algo_to_int: the rounds left, the index and the names from there on. The
-- result is `algo_count` where no name fits.
find_name : List ℕ → ℕ → ℕ → List (List ℕ) → ℕ
find_name arg zero i names = i
find_name arg (suc left) i [] = i
find_name arg (suc left) i (name ∷ names) =
    if case_eq arg name then i else find_name arg left (i + 1) names

-- The chain of aliases, in its order.
abbrev aliases : List (List ℕ × ℤ)
aliases =
    (codes "all", pos (to_int auto))
    ∷ (codes "cryptonight-light", pos (to_int cryptolight))
    ∷ (codes "cryptonight-lite", pos (to_int cryptolight))
    ∷ (codes "flax", pos (to_int c11))
    ∷ (codes "diamond", pos (to_int dmd_gr))
    ∷ (codes "equi", pos (to_int equihash))
    ∷ (codes "doom", pos (to_int luffa))
    ∷ (codes "hmq17", pos (to_int hmq1725))
    ∷ (codes "hshare", pos (to_int hsr))
    ∷ (codes "lyra2re", pos (to_int lyra2))
    ∷ (codes "lyra2rev2", pos (to_int lyra2v2))
    ∷ (codes "phi1612", pos (to_int phi))
    ∷ (codes "bitcoin", pos (to_int sha256d))
    ∷ (codes "sha256", pos (to_int sha256d))
    ∷ (codes "thorsriddle", pos (to_int veltor))
    ∷ (codes "timetravel10", pos (to_int bitcore))
    ∷ (codes "whirl", pos (to_int whirlpool))
    ∷ (codes "ziftr", pos (to_int zr5))
    ∷ []

find_alias : List ℕ → List (List ℕ × ℤ) → ℤ
find_alias arg [] = negsuc 0
find_alias arg ((name, i) ∷ rest) = if case_eq name arg then i else find_alias arg rest

unfoldable pub algo_to_int : List ℕ → ℤ
unfolding find_name find_alias
algo_to_int arg =
    let i = find_name arg algo_count 0 algo_names in
    if i == algo_count then find_alias arg aliases else pos i

unfoldable pub get_cryptonight_algo : ℕ → ShaAlgos
get_cryptonight_algo fork =
    if fork == 8
    then graft
    else if fork == 7
    then monero
    else if fork == 3
    then stellite
    else cryptonight

-- ccminer.cpp, get_currentalgo: the name of the algorithm in use. Every buffer it is given has room
-- for the name.
unfoldable pub get_currentalgo : ShaAlgos → ℕ → List ℕ
unfolding get_cryptonight_algo
get_currentalgo cryptonight cryptonight_fork =
    get_or algo_names (to_int (get_cryptonight_algo cryptonight_fork)) []
get_currentalgo opt_algo cryptonight_fork = get_or algo_names (to_int opt_algo) []
