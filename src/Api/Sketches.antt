-- ===== src/Api/Sketches.antt =====
-- api.rs: the handlers of the sketches, none of which writes to the log.
use daikon.Prelude.{ℕ, String, List, [], ◌∷◌}
use daikon.Platform.{Platform}
use daikon.Error.{Result}
use daikon.Store.Sketches.{pfreserve, pfadd, pfcount, hll_info, pfmerge}
use daikon.Json.{json_nat, json_text, json_object}
use daikon.Api.{Request, Response, Handler, success, bad_request, answer, guarded, writing, reading}

module _ ⦃P : Platform⦄ where
  abbrev counted : String → Result ℕ → Response
  counted key =
      answer (λ n. success (json_object (("key", json_text key) ∷ ("count", json_nat n) ∷ [])))
        bad_request

  unfoldable pub hll_pfadd : Request → String → List String → Handler
  hll_pfadd req key values = guarded req (writing (pfadd key values) (counted key))

  unfoldable pub hll_pfreserve : Request → String → ℕ → Handler
  hll_pfreserve req key precision = guarded req (
      writing (pfreserve key precision) (
        answer
          (λ done. success (
            json_object (
              ("key", json_text key)
              ∷ ("precision", json_nat precision)
              ∷ ("status", json_text "reserved")
              ∷ [])))
          bad_request))

  unfoldable pub hll_pfcount : Request → String → Handler
  hll_pfcount req key = reading λ s. counted key (pfcount req.now key s)

  unfoldable pub get_hll_info : Request → String → Handler
  get_hll_info req key = reading λ s.
      answer
        (λ info. success (
          json_object (
            ("key", json_text key)
            ∷ ("precision", json_nat info.precision)
            ∷ ("registers", json_nat info.registers)
            ∷ ("memory_bytes", json_nat info.memory_bytes)
            ∷ ("estimated_count", json_nat info.estimated_count)
            ∷ [])))
        bad_request (hll_info req.now key s)

  unfoldable pub hll_pfmerge : Request → String → List String → Handler
  hll_pfmerge req destination sources =
      guarded req (writing (pfmerge destination sources) (counted destination))
