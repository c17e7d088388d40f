-- ===== src/Pipeline/Examples.antt =====
-- A task whose model is blocked and whose person stops it, and one that is skipped.
use wyrtloom.Base.{true, ◌≡◌, refl, String, Option, none, some, [], ◌∷◌, str_eq, if◌then◌else◌}
use wyrtloom.Profile.{default_v01}
use wyrtloom.Provider.{GenerationResponse, text}
use wyrtloom.Db.{ok, err}
use wyrtloom.Pipeline.{
  HumanResponse, stop, LlmResponse, Texts, World, parse_llm_output, said, safe_text, run,
}
use wyrtloom.Pipeline.Sessions.{Ends, run-Ends_session}

-- A reader that takes one text for an object.
abbrev read : String → Option LlmResponse
read s =
    if str_eq s "{b}"
    then some (record { status = "blocked"; result = none; reason = some "no key" })
    else none

abbrev texts : Texts
texts = record {
  from_json = read;
  to_lowercase = λ s. s;
  show_kanban_error = λ e. "refused";
  show_provider_error = λ e. "offline";
}

abbrev response : GenerationResponse
response = record {
  content = text "{x} {b}" ∷ [];
  usage = record { input_tokens = 3; output_tokens = 2; cost = none };
}

abbrev world : HumanResponse → World
world answer = record {
  creates = λ tr. ok 5;
  transitions = λ tr. none;
  claims = λ tr. none;
  generates = λ tr. ok response;
  escalates = λ tr. ok answer;
  now = λ tr. 0;
}

run-Ends_session_example :
    Ends texts
      (world stop)
      default_v01
      "ada"
      "t"
      "p"
      []
      (run texts (world stop) default_v01 "ada" "t" "p" [])
run-Ends_session_example = run-Ends_session texts (world stop) default_v01 "ada" "t" "p" []

-- The first brace begins no object, the second does.
second_brace : parse_llm_output texts "{x} {b}" ≡ ok (true, "no key")
unfolding parse_llm_output said
second_brace = refl

no_object : parse_llm_output texts "{x}" ≡ err "no valid JSON object found in response"
unfolding parse_llm_output said
no_object = refl

-- The bell is dropped, the end of line is kept.
kept : safe_text "a\u{7}b\n" ≡ "ab\n"
unfolding safe_text
kept = refl
