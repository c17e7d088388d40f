-- ===== src/Digest/Examples.antt =====
-- A lesson with three candidate enrichments, and the theorems at it.
use wyrtloom.Base.{
  ℕ, ◌+◌, ◌≡◌, ◌≤◌, refl, arith, String, none, true, false, List, [], ◌∷◌, ◌++◌, is_blank,
}
use wyrtloom.F64.Sample.{hundredths}
use wyrtloom.Provider.{GenerationRequest, GenerationResponse, LlmProvider, text, full_text, as_text}
use wyrtloom.Db.{ok}
use wyrtloom.Digest.{
  rich, standard, terse, Enrichment, Digest, DigestRequest, calibration, for_calibration,
  enrichment_budget, visual_count, maps_in_play, coherence_filter, fade, select_richness, admit,
  surface_text, finished, fill_surface_text, new_request, with_richer_form, generate,
}
use wyrtloom.Digest.Admitted.{Outcome, generate-Outcome}
use wyrtloom.Digest.Fading.{IsTransitive, generate-Fades}

abbrev response : GenerationResponse
response = record {
  content = text "Read " ∷ text "this." ∷ [];
  usage = record { input_tokens = 40; output_tokens = 2; cost = none };
}

-- A provider that counts its calls.
abbrev counting : LlmProvider ℕ
counting = record { generate = λ (asked : GenerationRequest) (n : ℕ). (ok response, n + 1) }

abbrev about : String → String → Enrichment
about label concept = record { label = label; maps_to = concept ∷ [] }

abbrev candidates : List Enrichment
candidates =
    about "parser news" "parser"
    ∷ about "gossip" "celebrity"
    ∷ about "framing attack" "framing"
    ∷ about "unicode" "parser"
    ∷ []

abbrev lesson : ℕ → DigestRequest hundredths
lesson score = record {
  instruction = "Frames come before characters.";
  in_play = "parser" ∷ "framing" ∷ [];
  candidate_enrichments = candidates;
  calibration = score;
  model = "llama3.2";
  max_output_tokens = 512;
  request_richer = false;
}

abbrev digest : ℕ → Digest
digest score = record {
  surface_text = "Read this.";
  richness = for_calibration hundredths score;
  visual_count = visual_count (for_calibration hundredths score);
  admitted_enrichments = admit hundredths (lesson score) (for_calibration hundredths score);
  instruction_first = true;
}

generate-Outcome_example :
    Outcome hundredths counting (lesson 40) 7 (generate hundredths counting (lesson 40) 7)
generate-Outcome_example = generate-Outcome hundredths counting (lesson 40) 7

admitted_40 :
    admit hundredths (lesson 40) standard
    ≡ about "parser news" "parser" ∷ about "framing attack" "framing" ∷ []
unfolding admit coherence_filter maps_in_play fade enrichment_budget
admitted_40 = refl

made_20 : generate hundredths counting (lesson 20) 0 ≡ (ok (digest 20), 1)
unfolding generate fill_surface_text surface_text finished select_richness full_text as_text
    is_blank
made_20 = refl

made_80 : generate hundredths counting (lesson 80) 5 ≡ (ok (digest 80), 6)
unfolding generate fill_surface_text surface_text finished select_richness full_text as_text
    is_blank
made_80 = refl

IsTransitive-hundredths : IsTransitive hundredths
IsTransitive-hundredths a b c h k = ground (arith, h, k)

generate-Fades_example :
    ((digest 80).visual_count ≤ (digest 20).visual_count)
    × ((rest : List Enrichment) × ((digest 20).admitted_enrichments
          ≡ (digest 80).admitted_enrichments ++ rest))
generate-Fades_example =
    generate-Fades hundredths IsTransitive-hundredths counting counting (lesson 20) 20 80 0 1 5 6
      refl made_20 made_80

-- A score above 1 is read as 1, and the richer form is there on request.
asked :
    (calibration hundredths 250 ≡ 100)
    × (select_richness hundredths (with_richer_form hundredths (lesson 80)) ≡ rich)
    × (select_richness hundredths (new_request hundredths "a" [] [] 80 "m") ≡ terse)
unfolding calibration select_richness with_richer_form for_calibration new_request
asked = (refl, refl, refl)
