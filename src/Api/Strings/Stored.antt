-- ===== src/Api/Strings/Stored.antt =====
-- The write of a text, with or without a TTL.
use daikon.Prelude.{ℕ, String, Option, none, some}
use daikon.Platform.{Platform}
use daikon.Exec.Steady.{Steady}
use daikon.Exec.Keeps.{Keeps}
use daikon.Value.{str}
use daikon.Store.Quiet.{quiet}
use daikon.Store.Validity.{IsValid}
use daikon.Store.Strings.Quiet.{set-Steady, set_with_ttl-Steady}
use daikon.Store.Strings.Validity.{set-IsValid, set_with_ttl-IsValid}
use daikon.Api.Strings.{store_value}

module _ ⦃P : Platform⦄ where
  pub store_value-Steady :
      (now : ℕ) (key value : String) (ttl_secs : Option ℕ)
      → Steady quiet (store_value now key value ttl_secs)
  unfolding store_value
  store_value-Steady now key value none = set-Steady now key (str value)
  store_value-Steady now key value (some ttl) = set_with_ttl-Steady now key (str value) ttl

  pub store_value-IsValid :
      (now : ℕ) (key value : String) (ttl_secs : Option ℕ)
      → Keeps IsValid (store_value now key value ttl_secs)
  unfolding store_value
  store_value-IsValid now key value none = set-IsValid now key (str value)
  store_value-IsValid now key value (some ttl) = set_with_ttl-IsValid now key (str value) ttl
