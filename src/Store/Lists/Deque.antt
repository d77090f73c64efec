-- ===== src/Store/Lists/Deque.antt =====
-- The lists of kv_store.rs as double-ended queues: what the pushes and pops of a key do to its
-- items, and that they leave every other key alone.
use mathlib.Core.List.{reverse, reverse-cons, append_assoc}
use daikon.Prelude.{
  ℕ, String, ◌≡◌, ◌≢◌, refl, sym, ◌∙◌, ap, Option, none, some, List, [], ◌∷◌, ◌++◌, length,
}
use mathlib.Core.Option.{some-injective}
use daikon.Platform.{Platform}
use daikon.Error.{Result, ok}
use daikon.HashMap
use daikon.HashMap.Laws.{get-insert_self, get-insert_ne}
use daikon.Value.{Value, list, ValueWithTtl}
use daikon.Store.{KvStore, validate_key}
use daikon.Store.Lists.{
  push_front_all, pop_back, pop_front, push_value, push_entry, push, lpush, rpush, pop_split,
  pop_value, pop_entry, pop, lpop, rpop, Split,
}

module _ ⦃P : Platform⦄ where
  unfoldable pub items_of_value : Value → Option (List String)
  items_of_value (list items) = some items
  items_of_value _ = none

  unfoldable pub items_of : Option ValueWithTtl → Option (List String)
  items_of none = some []
  items_of (some entry) = items_of_value entry.value

  -- The items under a key: no items where there is no key, and `none` where there is another value.
  unfoldable pub items_at : String → KvStore → Option (List String)
  items_at key s = items_of (HashMap.get key s.store)

  -- What a push with `extend` has done.
  abbrev pub Pushed : String → List String → KvStore → Result ℕ × KvStore → Type 0
  Pushed key items s r =
      (r.0 ≡ ok (length items))
      × (items_at key r.1 ≡ some items)
      × ((j : String) → key ≢ j → HashMap.get j r.1.store ≡ HashMap.get j s.store)

  push_value-Pushed :
      (extend : List String → List String) (key : String) (items : List String) (s : KvStore)
      (entry : ValueWithTtl) (value : Value)
      → items_of_value value ≡ some items
      → Pushed key (extend items) s (push_value extend key entry value s)
  unfolding items_at items_of_value push_value items_of
  push_value-Pushed extend key items s entry (list old) e =
      let same = some-injective _ _ e in
      (
        ap (λ l. ok (length (extend l))) same,
        ap items_of (get-insert_self key _ s.store) ∙ ap (λ l. some (extend l)) same,
        λ j other. get-insert_ne key j _ s.store other,
      )
  push_value-Pushed extend key items s entry _ e = cc

  push_entry-Pushed :
      (extend : List String → List String) (key : String) (items : List String) (s : KvStore)
      (found : Option ValueWithTtl)
      → items_of found ≡ some items
      → Pushed key (extend items) s (push_entry extend key found s)
  unfolding items_at items_of push_entry items_of_value
  push_entry-Pushed extend key items s none e =
      let same = some-injective _ _ e in
      (
        ap (λ l. ok (length (extend l))) same,
        ap items_of (get-insert_self key _ s.store) ∙ ap (λ l. some (extend l)) same,
        λ j other. get-insert_ne key j _ s.store other,
      )
  push_entry-Pushed extend key items s (some entry) e =
      push_value-Pushed extend key items s entry entry.value e

  push-Pushed :
      (extend : List String → List String) (key : String) (items : List String) (s : KvStore)
      → validate_key s.config key ≡ ok tt
      → items_at key s ≡ some items
      → Pushed key (extend items) s (push extend key s)
  unfolding push items_at
  push-Pushed extend key items s valid e =
      rw valid (push_entry-Pushed extend key items s (HashMap.get key s.store) e)

  -- `rpush` under a valid key that holds a list or nothing adds the values at the end in their order,
  -- answers the new length, and leaves every other key alone.
  pub rpush_lem :
      (key : String) (values items : List String) (s : KvStore)
      → validate_key s.config key ≡ ok tt
      → items_at key s ≡ some items
      → Pushed key (items ++ values) s (rpush key values s)
  unfolding rpush
  rpush_lem key values items s valid e = push-Pushed (λ l. l ++ values) key items s valid e

  push_front_all-reverse :
      (items values : List String) → push_front_all items values ≡ reverse values ++ items
  unfolding push_front_all
  push_front_all-reverse items [] = refl
  push_front_all-reverse items (v ∷ values) =
      push_front_all-reverse (v ∷ items) values
      ∙ sym (append_assoc (reverse values) (v ∷ []) items)
      ∙ ap (λ l. l ++ items) (sym (reverse-cons v values))

  -- `lpush` under a valid key that holds a list or nothing adds the values at the front one
  -- by one, so that the last value comes first, answers the new length, and leaves every
  -- other key alone.
  pub lpush_lem :
      (key : String) (values items : List String) (s : KvStore)
      → validate_key s.config key ≡ ok tt
      → items_at key s ≡ some items
      → Pushed key (reverse values ++ items) s (lpush key values s)
  unfolding lpush
  lpush_lem key values items s valid e =
      rw (← push_front_all-reverse items values)
        (push-Pushed (λ l. push_front_all l values) key items s valid e)

  -- Under a valid key that holds a list or nothing, `rpush` adds the values at the end in their
  -- order, and `lpush` adds them at the front one by one, so that the last value comes first. Both
  -- answer the new length and leave every other key alone.
  pub push_lem :
      (key : String) (values items : List String) (s : KvStore)
      → validate_key s.config key ≡ ok tt
      → items_at key s ≡ some items
      → Pushed key (items ++ values) s (rpush key values s)
        × Pushed key (reverse values ++ items) s (lpush key values s)
  push_lem key values items s valid e =
      (rpush_lem key values items s valid e, lpush_lem key values items s valid e)

  -- What a pop has done that takes `item` and leaves `rest`.
  abbrev pub Popped :
      String → String → List String → KvStore → Result (Option String) × KvStore → Type 0
  Popped key item rest s r =
      (r.0 ≡ ok (some item))
      × (items_at key r.1 ≡ some rest)
      × ((j : String) → key ≢ j → HashMap.get j r.1.store ≡ HashMap.get j s.store)

  pop_split-Popped :
      (key item : String) (rest : List String) (entry : ValueWithTtl) (s : KvStore)
      → Popped key item rest s (pop_split key entry (some (item, rest)) s)
  unfolding pop_split items_at items_of items_of_value
  pop_split-Popped key item rest entry s = (
    refl,
    ap items_of (get-insert_self key _ s.store),
    λ j other. get-insert_ne key j _ s.store other,
  )

  pop_value-Popped :
      (split : Split) (key item : String) (items rest : List String) (entry : ValueWithTtl)
      (value : Value) (s : KvStore)
      → items_of_value value ≡ some items
      → split items ≡ some (item, rest)
      → Popped key item rest s (pop_value split key entry value s)
  unfolding pop_value items_of_value
  pop_value-Popped split key item items rest entry (list old) s e h =
      rw (some-injective old items e, h) (pop_split-Popped key item rest entry s)
  pop_value-Popped split key item items rest entry _ s e h = cc

  pop_entry-Popped :
      (split : Split) (key item : String) (items rest : List String) (s : KvStore)
      (found : Option ValueWithTtl)
      → items_of found ≡ some items
      → split items ≡ some (item, rest)
      → split [] ≡ none
      → Popped key item rest s (pop_entry split key found s)
  unfolding pop_entry items_of
  pop_entry-Popped split key item items rest s none e h empty =
      absurd (cc (sym empty ∙ ap split (some-injective _ _ e) ∙ h))
  pop_entry-Popped split key item items rest s (some entry) e h empty =
      pop_value-Popped split key item items rest entry entry.value s e h

  -- `lpop` takes the first item of a list, answers it, leaves the others, and leaves every
  -- other key alone.
  pub lpop_lem :
      (key item : String) (rest : List String) (s : KvStore)
      → items_at key s ≡ some (item ∷ rest)
      → Popped key item rest s (lpop key s)
  unfolding lpop pop items_at
  lpop_lem key item rest s e =
      pop_entry-Popped pop_front key item (item ∷ rest) rest s _ e refl refl

  pop_back-append :
      (rest : List String) (item : String) → pop_back (rest ++ item ∷ []) ≡ some (item, rest)
  unfolding pop_back
  pop_back-append [] item = refl
  pop_back-append (x ∷ rest) item = rw (pop_back-append rest item)

  -- `rpop` takes the last item of a list, answers it, leaves the others, and leaves every
  -- other key alone.
  pub rpop_lem :
      (key item : String) (rest : List String) (s : KvStore)
      → items_at key s ≡ some (rest ++ item ∷ [])
      → Popped key item rest s (rpop key s)
  unfolding rpop pop items_at
  rpop_lem key item rest s e =
      pop_entry-Popped pop_back key item _ rest s _ e (pop_back-append rest item)
        (unfold pop_back in refl)
