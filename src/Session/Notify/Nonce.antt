-- ===== src/Session/Notify/Nonce.antt =====
-- A job notification leaves the extranonce alone.
use ccminer.Common.{
  ℕ, ◌+◌, ◌==◌, ◌≡◌, refl, Bool, true, false, Option, none, some, List, if◌then◌else◌,
}
use ccminer.Stratum.{Stratum, Json, string_at, true_at}
use ccminer.Stratum.Verus.Nonce.{SameNonce, same_nonce, Leaves, verus_notify-Leaves}
use ccminer.Session.Notify.{
  JobFields, getblocheight, coinbase_of, store_job, notify_given, extra_size, notify_extra,
  stratum_notify, fields_from,
}

module _ (fresh : ℕ → ℕ) (s : Stratum) where
  height-Leaves :
      (f : JobFields) (n : ℕ) (extradata : Option (List ℕ)) (clean : Bool)
      (solution : Option (List ℕ)) (t : Stratum) (merkle : List (List ℕ)) (height : Option ℕ)
      → getblocheight (coinbase_of fresh f t) ≡ height
      → SameNonce s t
      → Leaves s (store_job fresh f n extradata clean solution t (some merkle))
  unfolding store_job Leaves
  height-Leaves f n extradata clean solution t merkle none e h = rw e tt
  height-Leaves f n extradata clean none t merkle (some height) e h = rw e tt
  height-Leaves f n extradata clean (some hex) t merkle (some height) e h =
      rw e (record { first = h.first; first_size = h.first_size; second_size = h.second_size })

  store-Leaves :
      (f : JobFields) (n : ℕ) (extradata : Option (List ℕ)) (clean : Bool)
      (solution : Option (List ℕ)) (t : Stratum) (merkle : Option (List (List ℕ)))
      → SameNonce s t
      → Leaves s (store_job fresh f n extradata clean solution t merkle)
  unfolding store_job Leaves
  store-Leaves f n extradata clean solution t none h = h
  store-Leaves f n extradata clean solution t (some merkle) h =
      height-Leaves f n extradata clean solution t merkle _ refl h

  fields-Leaves :
      (now : ℕ) (stack : List ℕ) (n : ℕ) (extradata : Option (List ℕ)) (clean : Bool)
      (solution : Option (List ℕ)) (f : Option JobFields)
      → Leaves s (notify_given now stack fresh n extradata clean solution s f)
  unfolding notify_given Leaves
  fields-Leaves now stack n extradata clean solution none = same_nonce s
  fields-Leaves now stack n extradata clean solution (some f) =
      store-Leaves f n extradata clean solution _ _
        (record { first = refl; first_size = refl; second_size = refl })

  extra-Leaves :
      (now : ℕ) (stack : List ℕ) (n : ℕ) (params : List Json) (extradata : Option (Option (List ℕ)))
      → Leaves s (notify_extra now stack fresh n params s extradata)
  unfolding notify_extra Leaves
  extra-Leaves now stack n params none = same_nonce s
  extra-Leaves now stack n params (some extradata) =
      let p = if n == 0 then 2 else 3 in
      fields-Leaves now stack n extradata (true_at params (p + 6)) (string_at params (p + 7))
        (fields_from p params)

  pub notify-Leaves :
      (now : ℕ) (stack : List ℕ) (algo : List ℕ) (params : List Json)
      → Leaves s (stratum_notify now stack fresh algo params s)
  unfolding stratum_notify
  notify-Leaves now stack algo params =
      if-Leaves s.is_equihash _ _ (verus_notify-Leaves s now stack fresh params)
        (extra-Leaves now stack (extra_size algo params) params _)
    where
      if-Leaves :
          (b : Bool) (x y : Option (Stratum × Bool))
          → Leaves s x
          → Leaves s y
          → Leaves s (if b then x else y)
      if-Leaves true x y hx hy = hx
      if-Leaves false x y hx hy = hy
