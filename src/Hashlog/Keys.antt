-- ===== src/Hashlog/Keys.antt =====
-- The keys of the log: a job's number above, a nonce below.
use ccminer.Common.{ℕ, ◌+◌, ◌*◌, ◌%◌, ◌^◌, ◌-◌, ◌<◌, ◌≡◌, bit_and, true, arith, ◌↔◌}
use ccminer.Common.Bits.{bit_and-shift, bit_and-ones, bit_and_self}
use ccminer.Hashlog.{key_prefix, nonce_key, in_job, has_prefix_bits, hi_dword, lo_dword}

pub key_prefix_lem : (n : ℕ) → key_prefix n ≡ n % 2 ^ 32 * 2 ^ 32
unfolding key_prefix
key_prefix_lem n = omega arith

pub nonce_key_lem : (n x : ℕ) → x < 2 ^ 32 → nonce_key n x ≡ n % 2 ^ 32 * 2 ^ 32 + x
unfolding nonce_key
nonce_key_lem n x h = omega arith

pub nonce_key-dwords :
    (n x : ℕ)
    → x < 2 ^ 32
    → (hi_dword (nonce_key n x) ≡ n % 2 ^ 32) × (lo_dword (nonce_key n x) ≡ x)
unfolding nonce_key hi_dword lo_dword
nonce_key-dwords n x h = (omega arith, omega arith)

-- The mask of the upper word picks out the job.
pub in_job_lem :
    (n q r : ℕ)
    → q < 2 ^ 32
    → r < 2 ^ 32
    → (in_job (key_prefix n) (q * 2 ^ 32 + r) ≡ true) ↔ (q ≡ n % 2 ^ 32)
unfolding in_job
in_job_lem n q r hq hr =
    let masked = bit_and-shift 32 (2 ^ 32 - 1) q r hr in
    let ones = bit_and-ones 32 q hq in
    (
      λ e. ground (arith, masked, ones, key_prefix_lem n),
      λ e. ground (arith, masked, ones, key_prefix_lem n),
    )

-- The test without the mask asks only that the digits of one number are among the other's.
pub has_prefix_bits_lem :
    (n q r : ℕ)
    → r < 2 ^ 32
    → (has_prefix_bits (key_prefix n) (q * 2 ^ 32 + r) ≡ true)
      ↔ (bit_and (n % 2 ^ 32) q ≡ n % 2 ^ 32)
unfolding has_prefix_bits
has_prefix_bits_lem n q r hr =
    let masked = bit_and-shift 32 (n % 2 ^ 32) q r hr in
    (λ e. ground (arith, masked, key_prefix_lem n), λ e. ground (arith, masked, key_prefix_lem n))

pub has_prefix_bits_own :
    (n x : ℕ) → x < 2 ^ 32 → has_prefix_bits (key_prefix n) (nonce_key n x) ≡ true
has_prefix_bits_own n x h =
    rw (nonce_key_lem n x h)
      ((has_prefix_bits_lem n (n % 2 ^ 32) x h).1 (bit_and_self (n % 2 ^ 32)))
