-- ===== src/Upstream/Blocks.antt =====
-- ccminer.cpp: get_blocktemplate and gbt_work_decode, which ask a server for the height of the chain.
use ccminer.Common.{
  ℕ, ◌-◌, ◌%◌, ◌^◌, Bool, true, false, not, ◌&&◌, Option, none, some, ltb, ◌==◌, if◌then◌else◌,
}
use ccminer.Common.Int.{ℤ, pos, negsuc}
use ccminer.Pools.{Miner}
use ccminer.Session.{no_value}
use ccminer.Stratum.{Json, integer}

-- The members "error" and "height" of the result.
pub record Template : Type 0 where
  pub error : Option Json
  pub height : Option Json

-- The cast to uint32_t
abbrev to_word : ℤ → ℕ
to_word (pos n) = n % 2 ^ 32
to_word (negsuc n) = 2 ^ 32 - 1 - n % 2 ^ 32

-- The height is told, and taken over into the work in hand, unless the messages are off.
with_height : Bool → Option Json → Miner → Miner × Bool × ℕ
with_height opt_quiet (some (integer n)) m =
    let height = to_word n in
    let told : Miner = record m { g_work = record (m.g_work) { height = height } } in
    (if not opt_quiet && ltb m.g_work.height height then told else m, true, height)
with_height opt_quiet _ m = (m, true, 0)

-- The globals, the result, and the height of the work.
unfoldable pub gbt_work_decode : Bool → Template → ℕ → Miner → Miner × Bool × ℕ
unfolding with_height
gbt_work_decode opt_quiet val height m =
    if not (no_value val.error)
    then (record m { allow_gbt = false }, false, height)
    else if height == 0
    then with_height opt_quiet val.height m
    else (m, true, height)

-- An answer, or NULL; the members of NULL are NULL.
abbrev members : Option Template → Template
members none = record { error = none; height = none }
members (some val) = val

abbrev is_null : Option Template → Bool
is_null none = true
is_null (some val) = false

-- `is_lost` is `curl_err == -1`.
unfoldable pub get_blocktemplate : Bool → Bool → Option Template → ℕ → Miner → Miner × Bool × ℕ
unfolding gbt_work_decode
get_blocktemplate opt_quiet is_lost val height m =
    if not m.allow_gbt
    then (m, false, height)
    else if is_null val && is_lost
    then (record m { allow_gbt = false }, false, height)
    else gbt_work_decode opt_quiet (members val) height m
