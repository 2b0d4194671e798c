-- ===== src/Upstream/Text.antt =====
-- ccminer.cpp: the texts that submit_upstream_work sends, by algorithm.
use ccminer.Common.{
  ℕ, ◌+◌, ◌*◌, ◌/◌, ◌%◌, ◌^◌, Bool, false, ◌&&◌, ◌||◌, List, [], ◌∷◌, ◌++◌, ◌==◌, if◌then◌else◌,
  take, drop,
}
use ccminer.Algos.{
  ShaAlgos, to_int, blake, blakecoin, blake2s, bmw, sha256d, sha256t, vanilla, lbry, zr5, decred,
  heavy, sia, phi2,
}
use ccminer.Common.Int.{ℤ, pos, eq_int}
use ccminer.Cstring.{codes}
use ccminer.Generate.Words.{swab32}
use ccminer.Hex.{bin2hex}
use ccminer.Print.{print_unsigned}
use ccminer.Stratum.{Stratum}
use ccminer.Stratum.Verus.Submit.{word_bytes, memory_of}
use ccminer.Work.{Work}

unfoldable pub one_of : ℤ → List ShaAlgos → Bool
one_of algo [] = false
one_of algo (a ∷ algos) = eq_int algo (pos (to_int a)) || one_of algo algos

-- The two low bytes of a word, the other way round.
abbrev swab16 : ℕ → ℕ
swab16 w = w % 256 * 256 + w / 256 % 256

-- "fast algos require that"
unfoldable pub checks_dups : ℤ → Bool
unfolding one_of
checks_dups algo =
    one_of algo (blake ∷ blakecoin ∷ blake2s ∷ bmw ∷ sha256d ∷ sha256t ∷ vanilla ∷ lbry ∷ zr5 ∷ [])

-- The words `ntime` and `nonce`, of uint32_t, and `nvote`, of uint16_t.
pub record Encoded : Type 0 where
  pub ntime : ℕ
  pub nonce : ℕ
  pub nvote : ℕ

unfoldable pub encoded : ℤ → Work → Encoded
unfolding one_of swab32
encoded algo work =
    let w = work.words in
    if one_of algo (decred ∷ [])
    then record { ntime = swab32 (w 34); nonce = swab32 (w 35) % 2 ^ 32; nvote = swab16 (w 25) }
    else if one_of algo (heavy ∷ [])
    then record { ntime = w 17; nonce = w 19 % 2 ^ 32; nvote = swab16 (w 20) }
    else if one_of algo (lbry ∷ [])
    then record { ntime = w 25; nonce = work.nonces work.submit_nonce_id % 2 ^ 32; nvote = 0 }
    else if one_of algo (sia ∷ [])
    then record { ntime = swab32 (w 10); nonce = swab32 (w 8) % 2 ^ 32; nvote = 0 }
    else if one_of algo (zr5 ∷ [])
    then record { ntime = swab32 (w 17); nonce = swab32 (w 19) % 2 ^ 32; nvote = 0 }
    else record { ntime = w 17; nonce = w 19 % 2 ^ 32; nvote = 0 }

-- The second nonce
xnonce2_text : ℤ → Stratum → Work → List ℕ
unfolding one_of swab32
xnonce2_text algo sctx work =
    if one_of algo (decred ∷ [])
    then bin2hex (take sctx.xnonce1_size (memory_of work.words 36 12))
    else if one_of algo (sia ∷ [])
    then bin2hex (take 2 (word_bytes (swab32 (work.words 9) / 2 ^ 16)))
    else bin2hex (take work.xnonce2_len work.xnonce2)

abbrev separator : List ℕ
separator = codes "\", \""

-- The line; a vote is sent if `opt_vote` is set.
unfoldable pub share_line : ℤ → ℕ → List ℕ → Stratum → Work → Encoded → List ℕ
unfolding xnonce2_text
share_line algo opt_vote user sctx work e =
    let vote = if opt_vote == 0 then [] else separator ++ bin2hex (take 2 (word_bytes e.nvote)) in
    codes "{\"method\": \"mining.submit\", \"params\": [\""
    ++ (user
        ++ (separator
            ++ (drop 8 work.job_id
                ++ (separator
                    ++ (xnonce2_text algo sctx work
                        ++ (separator
                            ++ (bin2hex (word_bytes e.ntime)
                                ++ (separator
                                    ++ (bin2hex (word_bytes e.nonce)
                                        ++ (vote
                                            ++ (codes "\"], \"id\":"
                                                ++ (print_unsigned
                                                      ((sctx.job.shares_count + 10) % 2 ^ 32)
                                                    ++ codes "}"))))))))))))

-- The number of words that a getwork server is sent.
abbrev data_words : ℤ → Bool → ℕ
data_words algo use_roots =
    if one_of algo (zr5 ∷ [])
    then 20
    else if one_of algo (decred ∷ [])
    then 48
    else if one_of algo (phi2 ∷ []) && use_roots
    then 36
    else 32

unfoldable pub getwork_line : ℤ → Bool → Work → List ℕ
unfolding one_of
getwork_line algo use_roots work =
    codes "{\"method\": \"getwork\", \"params\": [\""
    ++ (bin2hex (memory_of work.words 0 (data_words algo use_roots)) ++ codes "\"], \"id\":10}\r\n")
