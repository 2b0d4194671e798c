-- ===== src/Stratum/Verus/Params.antt =====
-- The parameters of a job notification.
use ccminer.Common.{
  ℕ, ◌≡◌, refl, ap, Bool, true, false, Option, none, some, List, arith, length, if◌then◌else◌,
}
use ccminer.Stratum.{Json, string_at}
use ccminer.Stratum.Verus.{◌>>=◌, Fields, fit, notify_fields}

-- The parameters are texts of the sizes that a job needs.
pub record Texts (params : List Json) : Type 0 where
  pub job_id : List ℕ
  pub version : List ℕ
  pub prevhash : List ℕ
  pub coinb1 : List ℕ
  pub coinb2 : List ℕ
  pub stime : List ℕ
  pub nbits : List ℕ
  pub has_job_id : string_at params 0 ≡ some job_id
  pub has_version : string_at params 1 ≡ some version
  pub has_prevhash : string_at params 2 ≡ some prevhash
  pub has_coinb1 : string_at params 3 ≡ some coinb1
  pub has_coinb2 : string_at params 4 ≡ some coinb2
  pub has_stime : string_at params 5 ≡ some stime
  pub has_nbits : string_at params 6 ≡ some nbits
  pub version_size : length version ≡ 8
  pub prevhash_size : length prevhash ≡ 64
  pub coinb1_size : length coinb1 ≡ 64
  pub coinb2_size : length coinb2 ≡ 64
  pub stime_size : length stime ≡ 8
  pub nbits_size : length nbits ≡ 8

abbrev pub fields_of : (params : List Json) → Texts params → Fields
fields_of params t = record {
  job_id = t.job_id;
  version = t.version;
  prevhash = t.prevhash;
  coinb1 = t.coinb1;
  coinb2 = t.coinb2;
  stime = t.stime;
  nbits = t.nbits;
}

fit_lem :
    (f : Fields)
    → length f.version ≡ 8
    → length f.prevhash ≡ 64
    → length f.coinb1 ≡ 64
    → length f.coinb2 ≡ 64
    → length f.stime ≡ 8
    → length f.nbits ≡ 8
    → fit f ≡ true
unfolding fit
fit_lem f a b c d e g = rw (a, b, c, d, e, g) refl

fields-Texts :
    (params : List Json) (t : Texts params) → notify_fields params ≡ some (fields_of params t)
unfolding notify_fields
fields-Texts params t =
    rw
      (
        t.has_job_id,
        t.has_version,
        t.has_prevhash,
        t.has_coinb1,
        t.has_coinb2,
        t.has_stime,
        t.has_nbits,
        fit_lem (fields_of params t) t.version_size t.prevhash_size t.coinb1_size t.coinb2_size
            t.stime_size t.nbits_size,
      )
      refl

chained :
    {A B : Type 0}
    → (o : Option A) (f : A → Option B) (b : B) → (o >>= f) ≡ some b
    → (a : A) × (o ≡ some a) × (f a ≡ some b)
chained none f b e = absurd (ground arith)
chained (some a) f b e = (a, refl, e)

tested :
    (g f : Fields) (b : Bool)
    → fit g ≡ b
    → (if b then some g else none) ≡ some f
    → (fit g ≡ true) × (g ≡ f)
tested g f true e h = (e, ap (λ o. elim o [ some x ↦ x | none ↦ g ]) h)
tested g f false e h = absurd (ground arith)

-- What the tests of the lengths say.
fit_sizes :
    (g : Fields)
    → fit g ≡ true
    → (length g.version ≡ 8)
      × (length g.prevhash ≡ 64)
      × (length g.coinb1 ≡ 64)
      × (length g.coinb2 ≡ 64)
      × (length g.stime ≡ 8)
      × (length g.nbits ≡ 8)
unfolding fit
fit_sizes g h = (ground arith, ground arith, ground arith, ground arith, ground arith, ground arith)

pub Texts-fields :
    (params : List Json) (f : Fields)
    → notify_fields params ≡ some f
    → (t : Texts params) × (fields_of params t ≡ f)
unfolding notify_fields
Texts-fields params f e0 =
    let (job_id, h0, e1) = chained _ _ f e0 in
    let (version, h1, e2) = chained _ _ f e1 in
    let (prevhash, h2, e3) = chained _ _ f e2 in
    let (coinb1, h3, e4) = chained _ _ f e3 in
    let (coinb2, h4, e5) = chained _ _ f e4 in
    let (stime, h5, e6) = chained _ _ f e5 in
    let (nbits, h6, e7) = chained _ _ f e6 in
    let g : Fields = record {
      job_id = job_id;
      version = version;
      prevhash = prevhash;
      coinb1 = coinb1;
      coinb2 = coinb2;
      stime = stime;
      nbits = nbits;
    } in
    let (good, same) = tested g f (fit g) refl e7 in
    let (s1, s2, s3, s4, s5, s6) = fit_sizes g good in
    (
      record {
        job_id = job_id;
        version = version;
        prevhash = prevhash;
        coinb1 = coinb1;
        coinb2 = coinb2;
        stime = stime;
        nbits = nbits;
        has_job_id = h0;
        has_version = h1;
        has_prevhash = h2;
        has_coinb1 = h3;
        has_coinb2 = h4;
        has_stime = h5;
        has_nbits = h6;
        version_size = s1;
        prevhash_size = s2;
        coinb1_size = s3;
        coinb2_size = s4;
        stime_size = s5;
        nbits_size = s6;
      },
      same,
    )

pub no-Texts : (params : List Json) → notify_fields params ≡ none → ¬ Texts params
no-Texts params e t = absurd (ground (arith, fields-Texts params t))
