-- ===== src/Tests/Requests.antt =====
-- Requests of several kinds: refused ones, pipelines and scripts.
use daikon.Prelude.{String, true, ◌≡◌, refl, ◌⊎◌, none, some, [], ◌∷◌, List, length, arith}
use daikon.Error.{ok}
use daikon.HashMap
use daikon.Store.{KvStore}
use daikon.Store.Quiet.{quiet}
use daikon.Store.Validity.{Valid-empty}
use daikon.Crypto.{encrypt, encrypt_with, key_from_env}
use daikon.Wal.{
  WalEntry, append, append_opened, encoded, of_outcome, read_all, read_lines, split_lines,
}
use daikon.Json.{json_object, json_list}
use daikon.Lua.{Script, calls, returns, nil, call_set, call_hset}
use daikon.Api.{Request, success, unauthorized, guarded}
use daikon.Api.Auth.{Allowed, guarded_iff}
use daikon.Api.Strings.{set_value}
use daikon.Api.Writes.{write_set, write_delete}
use daikon.Api.Validity.{IsValid}
use daikon.Api.Pipeline.{
  PipelineCommand, cmd_get, cmd_delete, pipeline_exec, PipelineResult, result_json, log_commands,
  log_operation, append_result, logged_operation,
}
use daikon.Api.Pipeline.Answers.{Serializes, unfailed, pipeline_exec_answers}
use daikon.Api.Pipeline.Replayed.{pipeline_exec-replay}
use daikon.Pitr.{replay}
use daikon.Routes.{
  Route, route_write, route_multi, route_exec, route_pipeline, route_lua, route_subscribe,
  route_publish, round, serve,
}
use daikon.Routes.Validity.{serve-IsValid}
use daikon.Tests.Samples.{whole_numbers}
use daikon.Tests.Plain.{no_key, marked_texts, entry_bytes, lossless, to_byte_returns}
use daikon.Tests.Servers.{app, base, request, body, allowed}

-- The wrong key, under a server that has one.
abbrev wrong_key : Request
wrong_key = record request {
  headers = record { x_api_key = none; authorization = some "Bearer wrong" };
  runtime = some (record { api_key = some "right"; lua_enabled = true; max_lua_script_bytes = 9 });
}

guarded_iff_example :
    (Allowed wrong_key
      × (guarded wrong_key (set_value request "a" body) app ≡ set_value request "a" body app))
    ⊎ ((¬ Allowed wrong_key)
        × (guarded wrong_key (set_value request "a" body) app ≡ (unauthorized, app)))
guarded_iff_example = guarded_iff wrong_key (set_value request "a" body) app

app-IsValid : IsValid app
unfolding HashMap.get
app-IsValid =
    (Valid-empty, record { limit_pos = omega arith; bounded = λ id. tt; inhabited = λ channel. tt })

-- A script that sets a key and a field of a hash.
abbrev load : String → Script
load source =
    calls (call_set "s" source) (λ r. calls (call_hset "h" "f" source) (λ r'. returns (nil ∷ [])))

abbrev commands : List PipelineCommand
commands = cmd_delete "b" ∷ cmd_get "a" ∷ []

abbrev routes : List (Request × Route)
routes =
    (request, route_write (write_set "a" body))
    ∷ (wrong_key, route_write (write_delete "a"))
    ∷ (request, route_subscribe "news" "me")
    ∷ (request, route_publish "news" "hello")
    ∷ (request, route_pipeline commands)
    ∷ (request, route_lua "text")
    ∷ (request, route_multi)
    ∷ (request, route_exec)
    ∷ (request, round)
    ∷ []

serve-IsValid_example : IsValid (serve load routes app)
serve-IsValid_example = serve-IsValid load routes app app-IsValid

serializes : Serializes
serializes entry = to_byte_returns entry.timestamp entry.operation

pipeline_exec_answers_example :
    (results : List PipelineResult) × ((pipeline_exec request commands app).0
      ≡ success (json_object (("results", json_list result_json results) ∷ [])))
    × (length results ≡ length commands)
pipeline_exec_answers_example =
    pipeline_exec_answers serializes request commands app allowed refl (omega arith)

all_logged : (log_commands request 0 commands app.wal).0 ≡ ok (unfailed commands)
unfolding log_commands log_operation append_result logged_operation append append_opened encoded
    of_outcome encrypt encrypt_with key_from_env
all_logged = refl

reads_none : read_all app.wal ≡ ok []
unfolding read_all read_lines split_lines
reads_none = refl

pipeline_exec-replay_example :
    let a' = (pipeline_exec request commands app).1 in
    (more : List WalEntry) × (read_all a'.wal ≡ ok more)
    × (s : KvStore) × (replay 7 9 more base ≡ ok s)
    × (quiet a'.store ≡ quiet s)
pipeline_exec-replay_example =
    pipeline_exec-replay lossless request commands 9 app [] allowed refl (omega arith) (omega arith)
      tt reads_none all_logged
