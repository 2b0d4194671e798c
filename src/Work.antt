-- ===== src/Work.antt =====
-- miner.h: struct work, the unit of work that the threads share, as far as the modelled functions
-- read it.
use ccminer.Common.{ℕ, List}
use ccminer.Float.{Double}

pub record Work : Type 0 where
  -- 48 and 8 words of 32 bits, by index
  pub words : ℕ → ℕ
  pub target : ℕ → ℕ
  pub maxvote : ℕ
  pub job_id : List ℕ
  pub xnonce2_len : ℕ
  pub xnonce2 : List ℕ
  pub pooln : ℕ
  pub valid_nonces : ℕ
  pub submit_nonce_id : ℕ
  pub nonces : ℕ → ℕ
  pub sharediff : ℕ → Double
  pub targetdiff : Double
  pub height : ℕ
  pub scanned_from : ℕ
  pub scanned_to : ℕ
  pub extra : List ℕ
  pub solution : List ℕ
