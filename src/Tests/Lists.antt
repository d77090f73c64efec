-- ===== src/Tests/Lists.antt =====
-- Lists and hashes under a key, and ranges of a list.
use daikon.Prelude.{◌≤◌, String, ◌≡◌, refl, some, List, [], ◌∷◌, length, arith}
use daikon.Prelude.Int.{pos, negsuc}
use daikon.Error.{ok}
use daikon.HashMap
use daikon.HashMap.{HashMap}
use daikon.Store.Hashes.{hset}
use daikon.Store.Hashes.Fields.{fields_at, fields_of, Written, hset_lem}
use daikon.Store.{validate_key}
use daikon.Store.Lists.{lpush, rpush, list_range}
use daikon.Store.Lists.Deque.{items_at, items_of, items_of_value, Pushed, push_lem}
use daikon.Store.Lists.Ranges.{list_range_total, list_range_before_start}
use daikon.Tests.Samples.{whole_numbers, small}

valid_b : validate_key small.config "b" ≡ ok tt
unfolding validate_key
valid_b = refl

items_b : items_at "b" small ≡ some ("x" ∷ "y" ∷ [])
unfolding items_at items_of items_of_value HashMap.get
items_b = refl

push_lem_example :
    Pushed "b" ("x" ∷ "y" ∷ "p" ∷ "q" ∷ []) small (rpush "b" ("p" ∷ "q" ∷ []) small)
    × Pushed "b" ("q" ∷ "p" ∷ "x" ∷ "y" ∷ []) small (lpush "b" ("p" ∷ "q" ∷ []) small)
push_lem_example = push_lem "b" ("p" ∷ "q" ∷ []) ("x" ∷ "y" ∷ []) small valid_b items_b

abbrev some_fields : HashMap String
some_fields = ("f", "1") ∷ ("g", "2") ∷ []

Distinct-fields : HashMap.Distinct some_fields
unfolding HashMap.get
Distinct-fields = (refl, (refl, tt))

valid_h : validate_key small.config "h" ≡ ok tt
unfolding validate_key
valid_h = refl

no_fields : fields_at "h" small ≡ some []
unfolding fields_at fields_of HashMap.get
no_fields = refl

hset_lem_example : Written "h" some_fields [] small (hset "h" some_fields small)
hset_lem_example = hset_lem "h" some_fields [] small valid_h Distinct-fields no_fields

abbrev letters : List String
letters = "a" ∷ "b" ∷ "c" ∷ []

out_of_range :
    (range : List String) × (list_range (negsuc 8) (pos 9) letters ≡ ok range) × (length range ≤ 3)
out_of_range = list_range_total (negsuc 8) (pos 9) letters

before_start : list_range (pos 0) (negsuc 3) letters ≡ ok ("a" ∷ [])
before_start = list_range_before_start 3 "a" ("b" ∷ "c" ∷ []) (omega arith)
