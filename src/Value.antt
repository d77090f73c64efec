-- ===== src/Value.antt =====
-- kv_store.rs: the values, entries, events and queued operations.
use daikon.Prelude.{
  ℕ, ◌+◌, String, Bool, true, false, Option, List, [], ◌∷◌, length, len, format, decimal,
  decimal_i64,
}
use daikon.Prelude.Int.{ℤ}
use daikon.Platform.{Platform}
use daikon.HashMap.{HashMap}
use daikon.HyperLogLog.{HyperLogLog, memory_bytes, count}

-- `map.iter().map(…).sum()` of a list of texts and of a map of texts.
unfoldable pub sum_len : List String → ℕ
sum_len [] = 0
sum_len (s ∷ rest) = len s + sum_len rest

unfoldable pub sum_len_fields : HashMap String → ℕ
sum_len_fields [] = 0
sum_len_fields ((k, v) ∷ rest) = len k + len v + sum_len_fields rest

pub data KeyspaceEventKind : Type 0 where
  set delete expired evicted : KeyspaceEventKind

-- `Display`
unfoldable pub kind_text : KeyspaceEventKind → String
kind_text set = "set"
kind_text delete = "del"
kind_text expired = "expired"
kind_text evicted = "evicted"

pub record KeyspaceEvent : Type 0 where
  pub kind : KeyspaceEventKind
  pub key : String
  pub timestamp : ℕ

module _ ⦃P : Platform⦄ where
  pub data Value : Type 0 where
    str : String → Value
    int : ℤ → Value
    float : P.Float → Value
    bool : Bool → Value
    json : P.Json → Value
    hyper_log_log : HyperLogLog → Value
    list : List String → Value
    hash : HashMap String → Value

  unfoldable pub type_name : Value → String
  type_name (str _) = "Str"
  type_name (int _) = "Int"
  type_name (float _) = "Float"
  type_name (bool _) = "Bool"
  type_name (json _) = "Json"
  type_name (hyper_log_log _) = "HyperLogLog"
  type_name (list _) = "List"
  type_name (hash _) = "Hash"

  -- `Display`
  unfoldable pub display : Value → String
  display (str s) = s
  display (int i) = decimal_i64 i
  display (float x) = P.float_text x
  display (bool true) = "true"
  display (bool false) = "false"
  display (json j) = P.json_text j
  display (hyper_log_log h) = format ("HyperLogLog(count≈" ∷ decimal (count h) ∷ ")" ∷ [])
  display (list items) = format ("List(len=" ∷ decimal (length items) ∷ ")" ∷ [])
  display (hash fields) = format ("Hash(len=" ∷ decimal (length fields) ∷ ")" ∷ [])

  unfoldable pub estimate_value_size : Value → ℕ
  estimate_value_size (str s) = len s
  estimate_value_size (int _) = 8
  estimate_value_size (float _) = 8
  estimate_value_size (bool _) = 1
  estimate_value_size (json j) = len (P.json_text j)
  estimate_value_size (hyper_log_log h) = memory_bytes h
  estimate_value_size (list items) = sum_len items + 24
  estimate_value_size (hash fields) = sum_len_fields fields + 48

  pub record ValueWithTtl : Type 0 where
    pub value : Value
    pub expires_at : Option ℕ

  pub data TransactionOp : Type 0 where
    op_set : String → Value → Option ℕ → TransactionOp
    op_delete : String → TransactionOp
    op_incr : String → TransactionOp
    op_decr : String → TransactionOp
    op_incrby : String → ℤ → TransactionOp
    op_append : String → String → TransactionOp
