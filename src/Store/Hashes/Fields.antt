-- ===== src/Store/Hashes/Fields.antt =====
-- What `hset` of kv_store.rs does to the fields of a key.
use daikon.Prelude.{
  ℕ, ◌+◌, ◌-◌, String, ◌≡◌, ◌≢◌, refl, ◌∙◌, ap, Option, none, some, [], ◌∷◌, length, arith,
  Bool-cases, inl, inr, ◌==◌, eq_iff,
}
use mathlib.Core.Option.{some-injective}
use daikon.Platform.{Platform}
use daikon.Error.{Result, ok}
use daikon.HashMap
use daikon.HashMap.{HashMap}
use daikon.HashMap.Laws.{get-insert, get-insert_self, get-insert_ne, length-insert}
use daikon.Value.{Value, hash, ValueWithTtl}
use daikon.Store.{KvStore, validate_key}
use daikon.Store.Hashes.{insert_all, hset_value, hset_entry, create_hash, hset}

-- The value of a field after a write: the new one, if it is written, and the old one otherwise.
abbrev pub over : Option String → Option String → Option String
over none old = old
over (some new) old = some new

over-none : (v : Option String) → v ≡ over v none
over-none none = refl
over-none (some v) = refl

get-insert_all :
    (fields map : HashMap String) (f : String)
    → HashMap.Distinct fields
    → HashMap.get f (insert_all map fields).1 ≡ over (HashMap.get f fields) (HashMap.get f map)
unfolding insert_all HashMap.get
get-insert_all [] map f d = refl
get-insert_all ((g, v) ∷ fields) map f d =
    let rest = get-insert_all fields (HashMap.insert g v map) f d.1 in
    elim (Bool-cases (g == f)) [
      | inl same ↦
          let gone : HashMap.get f fields ≡ none = rw ((eq_iff g f).0 same) at (d.0) in
          rw same (rest ∙ rw (gone, get-insert, same) refl)
      | inr other ↦ rw other (rest ∙ rw (get-insert, other) refl)
    ]

length-insert_all :
    (fields map : HashMap String)
    → (insert_all map fields).0 + length map ≡ length (insert_all map fields).1
unfolding insert_all
length-insert_all [] map = omega arith
length-insert_all ((f, v) ∷ fields) map =
    ground (arith, length-insert f v map, length-insert_all fields (HashMap.insert f v map))

module _ ⦃P : Platform⦄ where
  unfoldable pub fields_of_value : Value → Option (HashMap String)
  fields_of_value (hash fields) = some fields
  fields_of_value _ = none

  unfoldable pub fields_of : Option ValueWithTtl → Option (HashMap String)
  unfolding fields_of_value
  fields_of none = some []
  fields_of (some entry) = fields_of_value entry.value

  -- The fields under a key: no fields where there is no key, and `none` where there is another value.
  unfoldable pub fields_at : String → KvStore → Option (HashMap String)
  unfolding fields_of
  fields_at key s = fields_of (HashMap.get key s.store)

  -- What `hset` has done, with `old` the fields before: the answer is the number of fields more.
  abbrev pub Written :
      String → HashMap String → HashMap String → KvStore → Result ℕ × KvStore → Type 0
  Written key fields old s r =
      ((left : HashMap String) × (fields_at key r.1 ≡ some left)
        × (r.0 ≡ ok (length left - length old))
        × ((f : String) → HashMap.get f left ≡ over (HashMap.get f fields) (HashMap.get f old)))
      × ((j : String) → key ≢ j → HashMap.get j r.1.store ≡ HashMap.get j s.store)

  hset_value-Written :
      (key : String) (fields old : HashMap String) (s : KvStore) (entry : ValueWithTtl)
      (value : Value)
      → HashMap.Distinct fields
      → fields_of_value value ≡ some old
      → Written key fields old s (hset_value key fields entry value s)
  unfolding fields_at fields_of fields_of_value hset_value
  hset_value-Written key fields old s entry (hash map) d e =
      let same = some-injective _ _ e in
      let left = (insert_all map fields).1 in
      let more : (insert_all map fields).0 ≡ length left - length old =
        rw (← same) (omega (arith, length-insert_all fields map)) in
      (
        (
          left,
          ap fields_of (get-insert_self key _ s.store),
          ap ok more,
          λ f.
              get-insert_all fields map f d
              ∙ ap (λ m. over (HashMap.get f fields) (HashMap.get f m)) same,
        ),
        λ j other. get-insert_ne key j _ s.store other,
      )
  hset_value-Written key fields old s entry _ d e = cc

  hset_entry-Written :
      (key : String) (fields old : HashMap String) (s : KvStore) (found : Option ValueWithTtl)
      → HashMap.Distinct fields
      → fields_of found ≡ some old
      → Written key fields old s (hset_entry key fields found s)
  unfolding fields_at fields_of fields_of_value hset_entry create_hash HashMap.get
  hset_entry-Written key fields old s none d e =
      let same = some-injective _ _ e in
      let size : length fields ≡ length fields - length old = rw (← same) (omega arith) in
      (
        (
          fields,
          ap fields_of (get-insert_self key _ s.store),
          ap ok size,
          λ f.
              over-none (HashMap.get f fields)
              ∙ ap (λ m. over (HashMap.get f fields) (HashMap.get f m)) same,
        ),
        λ j other. get-insert_ne key j _ s.store other,
      )
  hset_entry-Written key fields old s (some entry) d e =
      hset_value-Written key fields old s entry entry.value d e

  -- `hset` under a valid key that holds a hash or nothing gives every field written its new value,
  -- keeps every other field, answers how many fields there are more than before, and leaves every
  -- other key alone.
  pub hset_lem :
      (key : String) (fields old : HashMap String) (s : KvStore)
      → validate_key s.config key ≡ ok tt
      → HashMap.Distinct fields
      → fields_at key s ≡ some old
      → Written key fields old s (hset key fields s)
  unfolding hset fields_at
  hset_lem key fields old s valid d e =
      rw valid (hset_entry-Written key fields old s (HashMap.get key s.store) d e)
