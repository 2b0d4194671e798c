-- ===== src/Stats/Records.antt =====
-- The records of the speeds: their keys follow `uid`, and a purge keeps the recent ones.
use ccminer.Common.{
  ℕ, ◌+◌, ◌-◌, ◌%◌, ◌^◌, ◌≤◌, ◌<◌, ◌≡◌, refl, not, ◌&&◌, ◌||◌, none, some, [], ◌∷◌, ◌++◌, arith,
  ltb, leb, ◌==◌, Bool-cases, inl, inr, if◌then◌else◌,
}
use ccminer.Common.Omap.{Map, Rising, find, find-retain, insert, insert-Rising}
use ccminer.Float.{Arith}
use ccminer.Stats.{StatsData, Stats, Globals, remember_speed, speed_data, purge_old, is_stale}
use ccminer.Float.{Double}

abbrev pub AllBelow : ℕ → Map StatsData → Type 0
AllBelow n [] = Unit {0}
AllBelow n ((k, e) ∷ scans) = (k < n) × AllBelow n scans

-- The keys rise, and the next one is above them.
pub record IsValid (s : Stats) : Type 0 where
  pub sorted : Rising 0 s.scans
  pub below : AllBelow s.uid s.scans

insert_above :
    (n : ℕ) (e : StatsData) (scans : Map StatsData)
    → AllBelow n scans
    → insert n e scans ≡ scans ++ (n, e) ∷ []
unfolding insert
insert_above n e [] h = refl
insert_above n e ((k, d) ∷ scans) h = ground (arith, insert_above n e scans h.1)

AllBelow-suc : (n m : ℕ) (scans : Map StatsData) → n ≤ m → AllBelow n scans → AllBelow m scans
AllBelow-suc n m [] le h = tt
AllBelow-suc n m ((k, e) ∷ scans) le h = (omega arith, AllBelow-suc n m scans le h.1)

AllBelow-insert :
    (n : ℕ) (e : StatsData) (scans : Map StatsData)
    → AllBelow n scans
    → AllBelow (n + 1) (insert n e scans)
unfolding insert
AllBelow-insert n e [] h = (omega arith, tt)
AllBelow-insert n e ((k, d) ∷ scans) h =
    ground (arith, AllBelow-insert n e scans h.1, AllBelow-suc n (n + 1) scans (omega arith) h.1)

module _ (fp : Arith) (g : Globals) (now thr_id hashcount : ℕ) (hashrate : Double)
    (found height : ℕ) (s : Stats) where
  -- A measurement of at least 1000 hashes and 0.01 hashes a second becomes the newest record, any
  -- other leaves the records alone; both use up one `uid`, and the keys stay in order below it.
  pub remember_speed_lem :
      IsValid s
      → s.uid + 1 < 2 ^ 64
      → let t = remember_speed fp g now thr_id hashcount hashrate found height s in
        let e = speed_data fp g (s.uid + 1) now thr_id hashcount hashrate found height in
        (t.uid ≡ s.uid + 1)
        × (t.scans ≡ (
            if ltb hashcount 1000 || fp.lt hashrate (fp.decimal 1 100)
            then s.scans
            else s.scans ++ (s.uid, e) ∷ []))
        × IsValid t
  unfolding remember_speed
  remember_speed_lem v h =
      let e = speed_data fp g (s.uid + 1) now thr_id hashcount hashrate found height in
      let small = ltb hashcount 1000 || fp.lt hashrate (fp.decimal 1 100) in
      let next : (s.uid + 1) % 2 ^ 64 ≡ s.uid + 1 = omega arith in
      rw next (elim (Bool-cases small) [
        | inl skip ↦ rw skip (
          refl,
          refl,
          record {
            sorted = v.sorted;
            below = AllBelow-suc s.uid (s.uid + 1) s.scans (omega arith) v.below;
          },
        )
        | inr store ↦ rw store (
          refl,
          insert_above s.uid e s.scans v.below,
          record {
            sorted = insert-Rising 0 s.uid e s.scans (omega arith) v.sorted;
            below = AllBelow-insert s.uid e s.scans v.below;
          },
        )
      ])

-- A purge erases the records that were marked as erroneous or that are more than two hours old,
-- and keeps the others.
pub find-purge_old :
    (now k : ℕ) (e : StatsData) (s : Stats)
    → Rising 0 s.scans
    → find k s.scans ≡ some e
    → e.tm_stat ≤ now
    → now < 2 ^ 32
    → find k (purge_old now s).scans
      ≡ (if e.ignored == 0 && leb (now - e.tm_stat) 7200 then some e else none)
unfolding purge_old is_stale
find-purge_old now k e s v found le word =
    ground (arith, find-retain k 0 (λ _ d. not (is_stale now d)) s.scans v)
