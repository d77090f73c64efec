-- ===== src/Api/Scripts.antt =====
-- api.rs: POST /api/lua/exec.
use daikon.Prelude.{
  String, not, Option, none, some, [], ◌∷◌, len, ltb, format, decimal, if◌then◌else◌,
}
use mathlib.Core.Option
use daikon.Platform.{Platform}
use daikon.Store.{in_transaction}
use daikon.Crypto.{Cipher}
use daikon.Wal.{Codec}
use daikon.Json.{ValueCodec, json_text, json_object}
use daikon.Lua.{Script, execute_script}
use daikon.Api.{
  ApiRuntimeConfig, Request, response, text, Handler, success, bad_request, too_large, answer,
  guarded,
}

module _ ⦃P : Platform⦄ ⦃C : Cipher⦄ ⦃S : Codec⦄ ⦃V : ValueCodec⦄ where
  unfoldable pub refuse_script : Option ApiRuntimeConfig → String → Handler → Handler
  refuse_script none source handler a = handler a
  refuse_script (some cfg) source handler a =
      if not cfg.lua_enabled
      then (response 403 (text "Lua execution is disabled"), a)
      else if ltb cfg.max_lua_script_bytes (len source)
      then (
        too_large (
            format (
              "Lua script exceeds max size of "
              ∷ decimal cfg.max_lua_script_bytes
              ∷ " bytes"
              ∷ [])),
        a,
      )
      else handler a

  -- `load`: what the interpreter makes of the text of a script.
  unfoldable pub run_on : Request → Script → Handler
  run_on req script a =
      if in_transaction a.store
      then (response 409 (text "Cannot execute Lua while a transaction is in progress"), a)
      else let (output, host) = execute_script req.now req.attempts script (some a.wal) a.store in
        (
          answer (λ out. success (json_object (("output", json_text out) ∷ []))) bad_request output,
          record a { store = host.store; wal = Option.get_or host.wal a.wal },
        )

  unfoldable pub lua_exec : (String → Script) → Request → String → Handler
  lua_exec load req source =
      guarded req (refuse_script req.runtime source (run_on req (load source)))
