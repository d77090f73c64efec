-- ===== src/Platform.antt =====
-- Code outside the repository that the store calls, as one parameter of the model: `f64` with the
-- operations used, `serde_json::Value` and the standard library's `DefaultHasher`.
use daikon.Prelude.{ℕ, ◌<◌, String, Bool, u64_mod, Option}

pub record Platform : Type 1 where
  pub Json : Type 0
  -- `j.to_string()`
  pub json_text : Json → String
  pub Float : Type 0
  -- The literal m / 10 ^ d, such as 0.673.
  pub float_lit : ℕ → ℕ → Float
  -- `n as f64` and `x.round().max(0.0) as u64`
  pub float_of_nat : ℕ → Float
  pub float_round : Float → ℕ
  pub float_add : Float → Float → Float
  pub float_mul : Float → Float → Float
  pub float_div : Float → Float → Float
  pub float_ln : Float → Float
  -- `2f64.powi(-n)`
  pub float_pow2_neg : ℕ → Float
  pub float_leb : Float → Float → Bool
  pub float_ltb : Float → Float → Bool
  -- `x.to_string()` and `s.parse::<f64>().ok()`
  pub float_text : Float → String
  pub float_parse : String → Option Float
  -- `DefaultHasher` on a text: a 64-bit word.
  pub hash_value : String → ℕ
  pub hash_value_lt : (s : String) → hash_value s < u64_mod
