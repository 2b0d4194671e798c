-- ===== src/Stratum.antt =====
-- miner.h: the stratum connection and its job; util.cpp: the methods of the protocol that set the
-- difficulty and the extranonce, and the release of a job. The mutexes make each call one step.
-- A JSON value is taken as jansson gives it.
pub mod Extranonce
pub mod Verus
mod Tests
use ccminer.Common.{
  ℕ, suc, ◌+◌, ◌-◌, ◌/◌, Bool, true, false, not, ◌&&◌, ◌||◌, Option, none, some, List, [], ◌∷◌, ltb,
  ◌==◌, if◌then◌else◌, length, get_elem?, replicate,
}
use ccminer.Common.Int.{ℤ, pos, negsuc, eq_int, cast_int}
use ccminer.Common.Memory.{overlay}
use ccminer.Cstring.{codes, text_eq}
use ccminer.Float.{Double, Arith}
use ccminer.Hex.{hex2bin}

mutual
  pub data Json : Type 0 where
    text : List ℕ → Json
    integer : ℤ → Json
    real : Double → Json
    truth : Bool → Json
    array : Items → Json
    null other : Json

  pub data Items : Type 0 where
    nil : Items
    cons : Json → Items → Items

abbrev pub elements : Items → List Json
elements nil = []
elements (cons v items) = v ∷ elements items

-- json_string_value(json_array_get(params, i))
abbrev pub string_at : List Json → ℕ → Option (List ℕ)
string_at params i = elim (get_elem? params i) [ some (text s) ↦ some s | _ ↦ none ]

abbrev pub integer_at : List Json → ℕ → ℤ
integer_at params i = elim (get_elem? params i) [ some (integer n) ↦ n | _ ↦ pos 0 ]

-- json_is_true(json_array_get(params, i))
abbrev pub true_at : List Json → ℕ → Bool
true_at params i = elim (get_elem? params i) [ some (truth b) ↦ b | _ ↦ false ]

-- xnonce2 points into the coinbase, at the offset `xnonce2`.
pub record Job : Type 0 where
  pub job_id : Option (List ℕ)
  pub prevhash : List ℕ
  pub coinbase_size : ℕ
  pub coinbase : List ℕ
  pub xnonce2 : ℕ
  pub merkle : List (List ℕ)
  pub version : List ℕ
  pub nbits : List ℕ
  pub ntime : List ℕ
  pub extra : List ℕ
  pub clean : Bool
  pub height : ℕ
  pub shares_count : ℕ
  pub diff : Double
  pub solution : List ℕ

pub record Stratum : Type 0 where
  pub url : List ℕ
  pub next_diff : Double
  pub sharediff : Double
  pub xnonce1_size : ℕ
  pub xnonce1 : List ℕ
  pub xnonce2_size : ℕ
  pub job : Job
  pub pooln : ℕ
  pub rpc2 : Bool
  pub is_equihash : Bool
  pub srvtime_diff : ℤ

-- memset(&job, 0, sizeof(struct stratum_job))
abbrev pub no_job : Job
no_job = record {
  job_id = none;
  prevhash = replicate 32 0;
  coinbase_size = 0;
  coinbase = [];
  xnonce2 = 0;
  merkle = [];
  version = replicate 4 0;
  nbits = replicate 4 0;
  ntime = replicate 4 0;
  extra = replicate 64 0;
  clean = false;
  height = 0;
  shares_count = 0;
  diff = 0;
  solution = replicate 1344 0;
}

unfoldable pub stratum_free_job : Stratum → Stratum
stratum_free_job sctx = record sctx { job = no_job }

-- json_number_value of the first parameter
number_at : Arith → Option Json → Double
number_at fp (some (real d)) = d
number_at fp (some (integer (pos n))) = fp.of_int n
number_at fp (some (integer (negsuc n))) = fp.mul fp.minus_one (fp.of_int (suc n))
number_at fp _ = fp.of_int 0

unfoldable pub stratum_set_difficulty : Arith → List Json → Stratum → Stratum × Bool
unfolding number_at
stratum_set_difficulty fp params sctx =
    let diff = number_at fp (get_elem? params 0) in
    if fp.le diff (fp.of_int 0) then (sctx, false) else (record sctx { next_diff = diff }, true)

-- The label `skip_n2`: both sizes are known.
set_extranonce : List ℕ → ℕ → Stratum → Stratum
set_extranonce xnonce1 xn2_size sctx =
    let size = length xnonce1 / 2 in
    record sctx {
      xnonce1_size = size;
      xnonce1 = overlay (hex2bin xnonce1 size).0 (replicate size 0);
      xnonce2_size = xn2_size;
    }

-- The pool leaves the size of the second part open: Verus pools may, others may not.
open_size : List ℕ → List ℕ → Stratum → Stratum × Bool
unfolding set_extranonce
open_size algo xnonce1 sctx =
    let xn1_size = length xnonce1 / 2 in
    if not (text_eq algo (codes "verus"))
    then (sctx, false)
    else if ltb xn1_size 3 || ltb 12 xn1_size
    then (sctx, false)
    else (set_extranonce xnonce1 (32 - xn1_size) sctx, true)

given_size : ℤ → List ℕ → Stratum → Stratum × Bool
unfolding set_extranonce
given_size (pos n) xnonce1 sctx =
    if ltb n 2 || ltb 16 n then (sctx, false) else (set_extranonce xnonce1 n sctx, true)
given_size (negsuc n) xnonce1 sctx = (sctx, false)

-- The size is cast to an int before it is tested.
extranonce_of : List ℕ → List Json → ℕ → Stratum → Option (List ℕ) → Stratum × Bool
unfolding open_size given_size
extranonce_of algo params pndx sctx none = (sctx, false)
extranonce_of algo params pndx sctx (some xnonce1) =
    let xn2_size = cast_int (integer_at params (pndx + 1)) in
    if eq_int xn2_size (pos 0)
    then open_size algo xnonce1 sctx
    else given_size xn2_size xnonce1 sctx

-- `algo` is the name that get_currentalgo gives.
unfoldable pub stratum_parse_extranonce : List ℕ → List Json → ℕ → Stratum → Stratum × Bool
unfolding extranonce_of
stratum_parse_extranonce algo params pndx sctx =
    extranonce_of algo params pndx sctx (string_at params pndx)
