-- ===== src/Json.antt =====
-- The JSON values of `serde_json` that the bodies of the responses are made of.
use daikon.Prelude.{ℕ, String, Bool, Option, none, some, List, [], ◌∷◌, map}
use daikon.Prelude.Int.{ℤ}
use daikon.Platform.{Platform}
use daikon.Error.{Result}
use daikon.Value.{Value}
use daikon.Wal.{WalEntry}

module _ ⦃P : Platform⦄ where
  mutual
    pub data JsonValue : Type 0 where
      json_null : JsonValue
      json_bool : Bool → JsonValue
      json_nat : ℕ → JsonValue
      json_int : ℤ → JsonValue
      json_float : P.Float → JsonValue
      json_text : String → JsonValue
      -- An entry of the log, as its derived `Serialize` writes it.
      json_entry : WalEntry → JsonValue
      json_items : Items → JsonValue
      json_fields : Fields → JsonValue

    pub data Items : Type 0 where
      no_items : Items
      add_item : JsonValue → Items → Items

    pub data Fields : Type 0 where
      no_fields : Fields
      add_field : String → JsonValue → Fields → Fields

  abbrev items_of : List JsonValue → Items
  items_of [] = no_items
  items_of (j ∷ js) = add_item j (items_of js)

  abbrev fields_of : List (String × JsonValue) → Fields
  fields_of [] = no_fields
  fields_of ((name, j) ∷ js) = add_field name j (fields_of js)

  abbrev pub json_array : List JsonValue → JsonValue
  json_array js = json_items (items_of js)

  abbrev pub json_object : List (String × JsonValue) → JsonValue
  json_object js = json_fields (fields_of js)

  abbrev pub json_option : {A : Type 0} → (A → JsonValue) → Option A → JsonValue
  json_option f none = json_null
  json_option f (some a) = f a

  abbrev pub json_list : {A : Type 0} → (A → JsonValue) → List A → JsonValue
  json_list f xs = json_array (map f xs)

-- `serde_json::to_string` and `serde_json::from_str` on the values of the store.
pub record ValueCodec ⦃P : Platform⦄ : Type 1 where
  pub value_to_json : Value → Result String
  pub value_from_json : String → Option Value
