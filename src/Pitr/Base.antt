-- ===== src/Pitr/Base.antt =====
-- The snapshot that the recovery of pitr.rs starts from.
use daikon.Prelude.{
  ℕ, true, false, ◌⊎◌, ◌≤◌, ◌<◌, ◌≡◌, refl, sym, Option, none, some, List, [], ◌∷◌, leb,
  if◌then◌else◌, arith, Bool-cases, inl, inr,
}
use daikon.Pitr.{
  SnapshotMetadata, Directory, insert_by_time, sort_by_time, find_base, scan, list_snapshots,
}

-- No snapshot is later than the time.
abbrev Upto : ℕ → List SnapshotMetadata → Type 0
Upto time [] = Unit
Upto time (s ∷ snapshots) = (s.timestamp ≤ time) × Upto time snapshots

abbrev Descending : List SnapshotMetadata → Type 0
Descending [] = Unit
Descending (s ∷ snapshots) = Upto s.timestamp snapshots × Descending snapshots

Upto-trans :
    (a b : ℕ) (snapshots : List SnapshotMetadata) → a ≤ b → Upto a snapshots → Upto b snapshots
Upto-trans a b [] h u = tt
Upto-trans a b (s ∷ snapshots) h u = (omega (arith, u.0), Upto-trans a b snapshots h u.1)

Upto-insert_by_time :
    (time : ℕ) (x : SnapshotMetadata) (ys : List SnapshotMetadata)
    → x.timestamp ≤ time
    → Upto time ys
    → Upto time (insert_by_time x ys)
unfolding insert_by_time
Upto-insert_by_time time x [] h u = (h, tt)
Upto-insert_by_time time x (y ∷ ys) h u = elim (Bool-cases (leb y.timestamp x.timestamp)) [
  | inl later ↦ rw later (h, u)
  | inr earlier ↦ rw earlier (u.0, Upto-insert_by_time time x ys h u.1)
]

Descending-insert_by_time :
    (x : SnapshotMetadata) (ys : List SnapshotMetadata)
    → Descending ys
    → Descending (insert_by_time x ys)
unfolding insert_by_time
Descending-insert_by_time x [] d = (tt, tt)
Descending-insert_by_time x (y ∷ ys) d = elim (Bool-cases (leb y.timestamp x.timestamp)) [
  | inl later ↦
      let below : y.timestamp ≤ x.timestamp = ground (arith, later) in
      rw later ((below, Upto-trans y.timestamp x.timestamp ys below d.0), d)
  | inr earlier ↦
      let below : x.timestamp ≤ y.timestamp = ground (arith, earlier) in
      rw earlier
        (Upto-insert_by_time y.timestamp x ys below d.0, Descending-insert_by_time x ys d.1)
]

Descending-sort_by_time : (xs : List SnapshotMetadata) → Descending (sort_by_time xs)
unfolding sort_by_time
Descending-sort_by_time [] = tt
Descending-sort_by_time (x ∷ xs) =
    Descending-insert_by_time x (sort_by_time xs) (Descending-sort_by_time xs)

-- The better base of two, for a time.
better : ℕ → SnapshotMetadata → Option SnapshotMetadata → Option SnapshotMetadata
better target x none = if leb x.timestamp target then some x else none
better target x (some b) =
    if leb x.timestamp target
    then (if leb b.timestamp x.timestamp then some x else some b)
    else some b

find_base-le :
    (target time : ℕ) (ys : List SnapshotMetadata) (x : SnapshotMetadata)
    → Upto time ys
    → time ≤ x.timestamp
    → x.timestamp ≤ target
    → better target x (find_base target ys) ≡ some x
unfolding find_base better
find_base-le target time [] x u h k = ground arith
find_base-le target time (y ∷ ys) x u h k =
    ground (arith, u.0, find_base-le target time ys x u.1 h k)

better-late :
    (target : ℕ) (x : SnapshotMetadata) (found : Option SnapshotMetadata)
    → leb x.timestamp target ≡ false
    → better target x found ≡ found
unfolding better
better-late target x none h = rw h refl
better-late target x (some b) h = rw h refl

find_base-insert_by_time :
    (target : ℕ) (x : SnapshotMetadata) (ys : List SnapshotMetadata)
    → Descending ys
    → find_base target (insert_by_time x ys) ≡ better target x (find_base target ys)
unfolding find_base insert_by_time
find_base-insert_by_time target x [] d = unfold better in refl
find_base-insert_by_time target x (y ∷ ys) d = elim (Bool-cases (leb y.timestamp x.timestamp)) [
  | inl later ↦ elim (Bool-cases (leb x.timestamp target)) [
    | inl fits ↦
        let whole : Upto y.timestamp (y ∷ ys) = (omega arith, d.0) in
        rw (later, fits)
          (sym (
            find_base-le target y.timestamp (y ∷ ys) x whole (ground (arith, later))
              (ground (arith, fits))))
    | inr late ↦ rw (later, late) (sym (better-late target x (find_base target (y ∷ ys)) late))
  ]
  | inr earlier ↦ elim (Bool-cases (leb y.timestamp target)) [
    | inl fits ↦ rw (earlier, fits) (unfold better in ground (arith, earlier, fits))
    | inr late ↦ rw (earlier, late) (find_base-insert_by_time target x ys d.1)
  ]
]

-- Which snapshot of a list is the best for a time: none when all are later, or one that is not
-- later and that no other such snapshot is later than.
pub IsBest : ℕ → List SnapshotMetadata → Option SnapshotMetadata → Type 0
IsBest target [] none = Unit
IsBest target [] (some b) = b.timestamp ≤ target
IsBest target (s ∷ snapshots) none = (target < s.timestamp) × IsBest target snapshots none
IsBest target (s ∷ snapshots) (some b) =
    (s.timestamp ≤ target → s.timestamp ≤ b.timestamp) × IsBest target snapshots (some b)

IsBest-later :
    (target : ℕ) (b x : SnapshotMetadata) (xs : List SnapshotMetadata)
    → b.timestamp ≤ x.timestamp
    → x.timestamp ≤ target
    → IsBest target xs (some b)
    → IsBest target xs (some x)
unfolding IsBest
IsBest-later target b x [] h k best = k
IsBest-later target b x (s ∷ xs) h k best =
    (λ fits. let below = best.0 fits in omega (arith, below), IsBest-later target b x xs h k best.1)

IsBest-first :
    (target : ℕ) (x : SnapshotMetadata) (xs : List SnapshotMetadata)
    → x.timestamp ≤ target
    → IsBest target xs none
    → IsBest target xs (some x)
unfolding IsBest
IsBest-first target x [] k best = k
IsBest-first target x (s ∷ xs) k best =
    (λ fits. let late = best.0 in absurd (omega (arith, late)), IsBest-first target x xs k best.1)

better-IsBest :
    (target : ℕ) (x : SnapshotMetadata) (xs : List SnapshotMetadata)
    (found : Option SnapshotMetadata)
    → IsBest target xs found
    → IsBest target (x ∷ xs) (better target x found)
unfolding better IsBest
better-IsBest target x xs none best = elim (Bool-cases (leb x.timestamp target)) [
  | inl fits ↦ rw fits (λ k. omega arith, IsBest-first target x xs (ground (arith, fits)) best)
  | inr late ↦ rw late (ground (arith, late), best)
]
better-IsBest target x xs (some b) best = elim (Bool-cases (leb x.timestamp target)) [
  | inl fits ↦ elim (Bool-cases (leb b.timestamp x.timestamp)) [
    | inl later ↦
        rw (fits, later)
          (
            λ k. omega arith,
            IsBest-later target b x xs (ground (arith, later)) (ground (arith, fits)) best,
          )
    | inr earlier ↦ rw (fits, earlier) (λ k. ground (arith, earlier), best)
  ]
  | inr late ↦ rw late (λ k. absurd (ground (arith, late, k)), best)
]

abbrev Among : SnapshotMetadata → List SnapshotMetadata → Type 0
Among b [] = true ≡ false
Among b (s ∷ snapshots) = (s ≡ b) ⊎ Among b snapshots

-- What is found, if anything, is one of the snapshots.
abbrev pub Listed : List SnapshotMetadata → Option SnapshotMetadata → Type 0
Listed snapshots none = Unit
Listed snapshots (some b) = Among b snapshots

better-Listed :
    (target : ℕ) (x : SnapshotMetadata) (xs : List SnapshotMetadata)
    (found : Option SnapshotMetadata)
    → Listed xs found
    → Listed (x ∷ xs) (better target x found)
unfolding better
better-Listed target x xs none listed = elim (Bool-cases (leb x.timestamp target)) [
  | inl fits ↦ rw fits (inl refl)
  | inr late ↦ rw late tt
]
better-Listed target x xs (some b) listed = elim (Bool-cases (leb x.timestamp target)) [
  | inl fits ↦ elim (Bool-cases (leb b.timestamp x.timestamp)) [
    | inl later ↦ rw (fits, later) (inl refl)
    | inr earlier ↦ rw (fits, earlier) (inr listed)
  ]
  | inr late ↦ rw late (inr listed)
]

find_base-sort_by_time :
    (target : ℕ) (xs : List SnapshotMetadata)
    → Listed xs (find_base target (sort_by_time xs))
      × IsBest target xs (find_base target (sort_by_time xs))
unfolding sort_by_time find_base IsBest
find_base-sort_by_time target [] = (tt, tt)
find_base-sort_by_time target (x ∷ xs) =
    let rest = find_base-sort_by_time target xs in
    rw (find_base-insert_by_time target x (sort_by_time xs) (Descending-sort_by_time xs)) (
      better-Listed target x xs (find_base target (sort_by_time xs)) rest.0,
      better-IsBest target x xs (find_base target (sort_by_time xs)) rest.1,
    )

-- The recovery to a time starts from one of the snapshots of the directory, which is not later than
-- that time and than which no other such snapshot is later, and from none exactly when all are
-- later.
pub find_base-list_snapshots :
    (target : ℕ) (dir : Directory)
    → Listed (scan dir) (find_base target (list_snapshots dir))
      × IsBest target (scan dir) (find_base target (list_snapshots dir))
unfolding list_snapshots
find_base-list_snapshots target dir = find_base-sort_by_time target (scan dir)
