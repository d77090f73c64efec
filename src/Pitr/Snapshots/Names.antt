-- ===== src/Pitr/Snapshots/Names.antt =====
-- The name of a new snapshot: no file has it.
use daikon.Prelude.{
  ℕ, zero, suc, ◌+◌, ◌<◌, ◌≤◌, String, true, false, ◌≡◌, refl, sym, ap, ◌∙◌, [], ◌∷◌, length, arith,
  Bool-cases, inl, inr, ◌==◌, eq_iff, str_append, len, slice, format, decimal, decimal_injective,
}
use text.Mathlib.TextPositions.{len-append, slice-append_left, slice-append_right}
use daikon.HashMap
use daikon.HashMap.Laws.{get-remove}
use daikon.Pitr.{Directory}
use daikon.Pitr.Snapshots.{exists, free_name, suffixed, snapshot_filename}

append_cancel_left : (s t u : String) → str_append s t ≡ str_append s u → t ≡ u
append_cancel_left s t u e =
    let same_len : len s + len t ≡ len s + len u =
      sym (len-append s t) ∙ ap len e ∙ len-append s u in
    sym (slice-append_right s t)
    ∙ ap (λ v. slice v (len s) (len s + len t)) e
    ∙ ap (λ n. slice (str_append s u) (len s) n) same_len
    ∙ slice-append_right s u

append_cancel_right : (s t u : String) → str_append s u ≡ str_append t u → s ≡ t
append_cancel_right s t u e =
    let sum : len s + len u ≡ len t + len u = sym (len-append s u) ∙ ap len e ∙ len-append t u in
    let same_len : len s ≡ len t = omega (arith, sum) in
    sym (slice-append_left s u)
    ∙ ap (λ v. slice v 0 (len s)) e
    ∙ ap (λ n. slice (str_append t u) 0 n) same_len
    ∙ slice-append_left t u

abbrev OneToOne : (ℕ → String) → Type 0
OneToOne name = (m n : ℕ) → name m ≡ name n → m ≡ n

suffixed-OneToOne : (timestamp : ℕ) (extension : String) → OneToOne (suffixed timestamp extension)
unfolding format
suffixed-OneToOne timestamp extension m n e = decimal_injective m n (
    append_cancel_right _ _ _ (
      append_cancel_left "_" _ _
        (append_cancel_left (decimal timestamp) _ _ (append_cancel_left "snapshot_" _ _ e))))

shorter-remove : (name : String) (dir : Directory) → length (HashMap.remove name dir) ≤ length dir
unfolding HashMap.remove
shorter-remove name [] = omega arith
shorter-remove name ((other, bytes) ∷ files) = ground (arith, shorter-remove name files)

remove_there :
    (name : String) (dir : Directory)
    → exists name dir ≡ true
    → length (HashMap.remove name dir) < length dir
unfolding HashMap.remove HashMap.get
remove_there name [] h = cc
remove_there name ((other, bytes) ∷ files) h =
    ground (arith, h, shorter-remove name files, remove_there name files)

module _ (name : ℕ → String) (one_to_one : OneToOne name) where
  exists-remove :
      (k j : ℕ) (dir : Directory)
      → k < j
      → exists (name j) (HashMap.remove (name k) dir) ≡ exists (name j) dir
  exists-remove k j dir h = elim (Bool-cases (name k == name j)) [
    | inl same ↦
        let equal : k ≡ j = one_to_one k j ((eq_iff (name k) (name j)).0 same) in
        absurd (omega (arith, equal))
    | inr other ↦ rw (get-remove (name k) (name j) dir, other) refl
  ]

  -- Without the file `name k`, the search from a later suffix goes the same way.
  free_name-remove :
      (k j rounds : ℕ) (dir : Directory)
      → k < j
      → free_name name (HashMap.remove (name k) dir) rounds j ≡ free_name name dir rounds j
  unfolding free_name
  free_name-remove k j zero dir h = refl
  free_name-remove k j (suc rounds) dir h =
      rw (exists-remove k j dir h, free_name-remove k (j + 1) rounds dir (omega arith)) refl

  free_name_later :
      (dir : Directory) (rounds k : ℕ) → (m : ℕ) × (k ≤ m) × (free_name name dir rounds k ≡ name m)
  unfolding free_name
  free_name_later dir zero k = (k, omega arith, refl)
  free_name_later dir (suc rounds) k = elim (Bool-cases (exists (name k) dir)) [
    | inl there ↦
        let (m, later, e) = free_name_later dir rounds (k + 1) in
        (m, omega (arith, later), rw there e)
    | inr free ↦ rw free (k, omega arith, refl)
  ]

  -- With more rounds than there are files, the search ends at a name that no file has.
  pub free_name_lem :
      (dir : Directory) (rounds k : ℕ)
      → length dir < rounds
      → exists (free_name name dir rounds k) dir ≡ false
  unfolding free_name
  free_name_lem dir zero k h = absurd (omega (arith, h))
  free_name_lem dir (suc rounds) k h = elim (Bool-cases (exists (name k) dir)) [
    | inl there ↦ rw there (
        let fewer = HashMap.remove (name k) dir in
        let (m, later, e) = free_name_later dir rounds (k + 1) in
        let free : exists (free_name name fewer rounds (k + 1)) fewer ≡ false =
          free_name_lem fewer rounds (k + 1) (omega (arith, h, remove_there (name k) dir there)) in
        let found : free_name name fewer rounds (k + 1) ≡ name m =
          free_name-remove k (k + 1) rounds dir (omega arith) ∙ e in
        rw e (
          sym (exists-remove k m dir (omega (arith, later)))
          ∙ ap (λ n. exists n fewer) (sym found)
          ∙ free))
    | inr free ↦ rw free free
  ]

-- The name of a new snapshot is not the name of a file in the directory.
pub snapshot_filename_free :
    (timestamp : ℕ) (extension : String) (dir : Directory)
    → exists (snapshot_filename timestamp extension dir) dir ≡ false
unfolding snapshot_filename
snapshot_filename_free timestamp extension dir =
    let plain = format ("snapshot_" ∷ decimal timestamp ∷ extension ∷ []) in
    elim (Bool-cases (exists plain dir)) [
      | inl there ↦ rw there (
          free_name_lem (suffixed timestamp extension) (suffixed-OneToOne timestamp extension) dir
            (length dir + 1) 1 (omega arith))
      | inr free ↦ rw free free
    ]
