-- ===== src/Digest.antt =====
-- The digest generator, crates/plugin-digest-generator/src/lib.rs, over any provider of language
-- models. A `usize` is a number below 2 ^ 64, doubles are the parameter `F64`, and a concept is its
-- text.
pub mod Admitted
pub mod Fading
mod Examples
use wyrtloom.Base.{
  ℕ, ◌-◌, ◌^◌, Bool, true, false, ◌&&◌, ◌||◌, String, List, [], ◌∷◌, map, any, keep, take, length,
  ltb, is_blank, str_eq, join, concat, if◌then◌else◌,
}
use wyrtloom.F64.{F64}
use wyrtloom.Provider.{
  GenerationRequest, GenerationResponse, ProviderError, LlmProvider, system_message, user_message,
  full_text,
}
use wyrtloom.Db.{Result, ok, err}

abbrev pub ConceptId : Type 0
ConceptId = String

pub data Richness : Type 0 where
  rich standard terse : Richness

abbrev pub usize_max : ℕ
usize_max = 18446744073709551615

unfoldable pub enrichment_budget : Richness → ℕ
enrichment_budget rich = usize_max
enrichment_budget standard = 2
enrichment_budget terse = 0

unfoldable pub visual_count : Richness → ℕ
visual_count rich = 2
visual_count standard = 1
visual_count terse = 0

pub record Enrichment : Type 0 where
  pub label : String
  pub maps_to : List ConceptId

pub record Digest : Type 0 where
  pub surface_text : String
  pub richness : Richness
  pub visual_count : ℕ
  pub admitted_enrichments : List Enrichment
  pub instruction_first : Bool

pub data DigestError : Type 0 where
  missing_instruction : DigestError
  provider_failed : ProviderError → DigestError

-- One of the enrichment's concepts is in play.
unfoldable pub maps_in_play : List ConceptId → Enrichment → Bool
maps_in_play in_play e = any (λ c. any (λ d. str_eq d c) in_play) e.maps_to

unfoldable pub coherence_filter : List Enrichment → List ConceptId → List Enrichment
unfolding maps_in_play
coherence_filter candidates in_play = keep (maps_in_play in_play) candidates

-- `if admitted.len() > budget { admitted.truncate(budget) }`
unfoldable pub fade : ℕ → List Enrichment → List Enrichment
fade budget admitted = if ltb budget (length admitted) then take budget admitted else admitted

unfoldable pub style : Richness → String
style rich = "a rich, multimodal walkthrough"
style standard = "a standard words-plus-one-visual brief"
style terse = "a terse single-representation summary"

unfoldable pub enrichment_text : List Enrichment → String
enrichment_text [] = "(none)"
enrichment_text (e ∷ rest) = join ", " (map (λ x. x.label) (e ∷ rest))

unfoldable pub prompt : String → Richness → List Enrichment → String
unfolding style enrichment_text
prompt instruction richness admitted = concat (
    "Write "
    ∷ style richness
    ∷ " of the following lesson. Instruction: "
    ∷ instruction
    ∷ "\nRelevant enrichments: "
    ∷ enrichment_text admitted
    ∷ "\nSurface text only; do not add facts beyond those listed."
    ∷ [])

module _ (f : F64) where
  -- A `Calibration`: its score.
  unfoldable pub calibration : f.Num → f.Num
  calibration score = if f.is_nan score then f.lit 0 0 else f.clamp score (f.lit 0 0) (f.lit 1 0)

  unfoldable pub for_calibration : f.Num → Richness
  for_calibration s =
      if f.ge s (f.lit 66 2) then terse else if f.ge s (f.lit 33 2) then standard else rich

  pub record DigestRequest : Type 0 where
    pub instruction : String
    pub in_play : List ConceptId
    pub candidate_enrichments : List Enrichment
    pub calibration : f.Num
    pub model : String
    pub max_output_tokens : ℕ
    pub request_richer : Bool

  unfoldable pub new_request :
      String → List ConceptId → List Enrichment → f.Num → String → DigestRequest
  new_request instruction in_play candidates score model = record {
    instruction = instruction;
    in_play = in_play;
    candidate_enrichments = candidates;
    calibration = score;
    model = model;
    max_output_tokens = 512;
    request_richer = false;
  }

  unfoldable pub with_richer_form : DigestRequest → DigestRequest
  with_richer_form req = record req { request_richer = true }

  unfoldable pub surface_request : DigestRequest → Richness → List Enrichment → GenerationRequest
  unfolding prompt system_message user_message
  surface_request req richness admitted = record {
    messages =
        system_message
          "You fill digest surface text. You never decide, grade, or add unlisted facts."
        ∷ user_message (prompt req.instruction richness admitted)
        ∷ [];
    max_output_tokens = req.max_output_tokens;
    model = req.model;
  }

  unfoldable pub select_richness : DigestRequest → Richness
  unfolding for_calibration
  select_richness req = if req.request_richer then rich else for_calibration req.calibration

  unfoldable pub admit : DigestRequest → Richness → List Enrichment
  unfolding coherence_filter fade enrichment_budget
  admit req richness =
      fade (enrichment_budget richness) (coherence_filter req.candidate_enrichments req.in_play)

-- What the provider answered: its text, or the error.
unfoldable pub surface_text :
    {S : Type 0} → Result ProviderError GenerationResponse × S → Result DigestError String × S
unfolding full_text
surface_text (ok resp, s) = (ok (full_text resp), s)
surface_text (err e, s) = (err (provider_failed e), s)

unfoldable pub finished :
    {S : Type 0}
    → Richness
    → List Enrichment
    → Result DigestError String × S
    → Result DigestError Digest × S
unfolding visual_count
finished richness admitted (err e, s) = (err e, s)
finished richness admitted (ok text, s) = (
  ok (record {
    surface_text = text;
    richness = richness;
    visual_count = visual_count richness;
    admitted_enrichments = admitted;
    instruction_first = true;
  }),
  s,
)

module _ (f : F64) {S : Type 0} (provider : LlmProvider S) where
  unfoldable pub fill_surface_text :
      DigestRequest f → Richness → List Enrichment → S → Result DigestError String × S
  unfolding surface_request surface_text
  fill_surface_text req richness admitted s =
      surface_text (provider.generate (surface_request f req richness admitted) s)

  unfoldable pub generate : DigestRequest f → S → Result DigestError Digest × S
  unfolding select_richness admit fill_surface_text finished
  generate req s =
      let richness = select_richness f req in
      let admitted = admit f req richness in
      if is_blank req.instruction
      then (err missing_instruction, s)
      else finished richness admitted (fill_surface_text req richness admitted s)
