-- ===== src/HashMap/Laws.antt =====
-- The laws of the maps.
use daikon.Prelude.{
  String, ◌+◌, ◌≡◌, ◌≢◌, refl, Option, none, some, [], ◌∷◌, Bool-cases, inl, inr, is_some, ◌==◌,
  eq_iff, eq_refl, if◌then◌else◌, length, arith,
}
use daikon.HashMap.{HashMap, get, insert, remove, Distinct}

module _ {ℓ} {V : Type ℓ} where
  pub get-insert :
      (k j : String) (v : V) (m : HashMap V)
      → get j (insert k v m) ≡ (if k == j then some v else get j m)
  unfolding get insert
  get-insert k j v [] = refl
  get-insert k j v ((i, w) ∷ m) =
      ground (arith, eq_iff k j, eq_iff i k, eq_iff i j, get-insert k j v m)

  pub get-insert_self : (k : String) (v : V) (m : HashMap V) → get k (insert k v m) ≡ some v
  get-insert_self k v m = simp (get-insert, eq_refl)

  pub get-insert_ne :
      (k j : String) (v : V) (m : HashMap V) → k ≢ j → get j (insert k v m) ≡ get j m
  get-insert_ne k j v m h = ground (arith, get-insert k j v m, eq_iff k j)

  pub get-remove :
      (k j : String) (m : HashMap V) → get j (remove k m) ≡ (if k == j then none else get j m)
  unfolding get remove
  get-remove k j [] = ground arith
  get-remove k j ((i, w) ∷ m) = ground (arith, eq_iff k j, eq_iff i k, eq_iff i j, get-remove k j m)

  pub insert-Distinct : (k : String) (v : V) (m : HashMap V) → Distinct m → Distinct (insert k v m)
  unfolding get insert
  insert-Distinct k v [] d = (refl, tt)
  insert-Distinct k v ((j, w) ∷ m) d = elim (Bool-cases (j == k)) [
    | inl same ↦ rw same d
    | inr other ↦
        rw other
          (ground (arith, get-insert k j v m, eq_iff k j, eq_iff j k), insert-Distinct k v m d.1)
  ]

  pub remove-Distinct : (k : String) (m : HashMap V) → Distinct m → Distinct (remove k m)
  unfolding get remove
  remove-Distinct k [] d = d
  remove-Distinct k ((j, w) ∷ m) d = elim (Bool-cases (j == k)) [
    | inl same ↦ rw same (remove-Distinct k m d.1)
    | inr other ↦ rw other (ground (arith, get-remove k j m), remove-Distinct k m d.1)
  ]

  pub length-insert :
      (k : String) (v : V) (m : HashMap V)
      → length (insert k v m) ≡ (if is_some (get k m) then length m else length m + 1)
  unfolding get insert
  length-insert k v [] = omega arith
  length-insert k v ((j, w) ∷ m) = ground (arith, length-insert k v m)

  pub remove_absent : (k : String) (m : HashMap V) → get k m ≡ none → remove k m ≡ m
  unfolding get remove
  remove_absent k [] h = refl
  remove_absent k ((j, w) ∷ m) h = ground (arith, remove_absent k m)

  pub length-remove :
      (k : String) (m : HashMap V)
      → Distinct m
      → length (remove k m) + (if is_some (get k m) then 1 else 0) ≡ length m
  unfolding get remove
  length-remove k [] d = refl
  length-remove k ((j, w) ∷ m) d = elim (Bool-cases (j == k)) [
    | inl same ↦
        let gone : get k m ≡ none = rw ((eq_iff j k).0 same) at d.0 in
        rw (same, remove_absent k m gone) (omega arith)
    | inr other ↦ rw other (omega (arith, length-remove k m d.1))
  ]

module _ {ℓ κ} {V : Type ℓ} (Q : Option V → Type κ) where
  -- What holds of every lookup holds of every lookup after a write, when it holds of the value.
  pub insert-every :
      (k : String) (v : V) (m : HashMap V)
      → Q (some v)
      → ((j : String) → Q (get j m))
      → (j : String) → Q (get j (insert k v m))
  insert-every k v m here h j = elim (Bool-cases (k == j)) [
    | inl same ↦ rw (get-insert k j v m, same) here
    | inr other ↦ rw (get-insert k j v m, other) (h j)
  ]

  pub remove-every :
      (k : String) (m : HashMap V)
      → Q none
      → ((j : String) → Q (get j m))
      → (j : String) → Q (get j (remove k m))
  remove-every k m gone h j = elim (Bool-cases (k == j)) [
    | inl same ↦ rw (get-remove k j m, same) gone
    | inr other ↦ rw (get-remove k j m, other) (h j)
  ]
