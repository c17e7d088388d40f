-- ===== src/Profile.antt =====
-- Task profiles, crates/core/src/profile.rs. A `u32` is a number below 2 ^ 32.
use wyrtloom.Base.{ℕ, String, List, []}

pub data EscalationThreshold : Type 0 where
  low medium high : EscalationThreshold

pub record TaskProfile : Type 0 where
  pub id : String
  pub provider : String
  pub model : String
  pub max_output_tokens : ℕ
  pub system_prompt : String
  pub allowed_tools : List String
  pub max_context_messages : ℕ
  pub escalation_threshold : EscalationThreshold

abbrev system_prompt_v01 : String
system_prompt_v01 =
    "You are Wyrtloom, a focused task-execution agent. Complete the requested task concisely. You MUST respond with valid JSON in exactly one of these two forms:\n  {\"status\":\"done\",\"result\":\"<your answer>\"}\n  {\"status\":\"blocked\",\"reason\":\"<why you cannot proceed>\"}\nDo not include any text outside the JSON object."

unfoldable pub default_v01 : TaskProfile
default_v01 = record {
  id = "default";
  provider = "ollama";
  model = "llama3.2";
  max_output_tokens = 512;
  system_prompt = system_prompt_v01;
  allowed_tools = [];
  max_context_messages = 10;
  escalation_threshold = medium;
}
