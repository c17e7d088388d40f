-- ===== src/Digest/Admitted.antt =====
-- Which enrichments a digest admits, and what its assembly asks of the provider.
use wyrtloom.Base.{
  ℕ, zero, suc, ◌≤◌, ◌≡◌, ◌↔◌, refl, sym, ap, subst, arith, true, false, String, List, [], ◌∷◌, any,
  keep, take, length, ltb, is_blank, str_eq, str_eq_iff, Bool-cases, inl, inr, ◌⊎◌,
}
use wyrtloom.F64.{F64}
use wyrtloom.Provider.{GenerationRequest, GenerationResponse, ProviderError, LlmProvider, full_text}
use wyrtloom.Db.{Result, ok, err}
use wyrtloom.Digest.{
  ConceptId, Richness, enrichment_budget, visual_count, Enrichment, Digest, DigestError,
  missing_instruction, provider_failed, maps_in_play, coherence_filter, fade, DigestRequest,
  select_richness, admit, surface_request, surface_text, finished, fill_surface_text, generate,
}

-- c is a member of the list.
abbrev pub Among : ConceptId → List ConceptId → Type 0
Among c [] = ⊥
Among c (d ∷ l) = (d ≡ c) ⊎ Among c l

-- Some concept that the enrichment maps to is in play.
abbrev pub InPlay : List ConceptId → Enrichment → Type 0
InPlay in_play e = (c : ConceptId) × Among c e.maps_to × Among c in_play

-- One pass over the candidates: those in play are admitted in their order until n of them are.
pub data Admits (in_play : List ConceptId) : ℕ → List Enrichment → List Enrichment → Type 0 where
  spent : (cs : List Enrichment) → Admits in_play zero cs []
  ended : (n : ℕ) → Admits in_play n [] []
  admitted :
      (n : ℕ) (e : Enrichment) (cs ds : List Enrichment)
      → InPlay in_play e
      → Admits in_play n cs ds
      → Admits in_play (suc n) (e ∷ cs) (e ∷ ds)
  dropped :
      (n : ℕ) (e : Enrichment) (cs ds : List Enrichment)
      → ¬ InPlay in_play e
      → Admits in_play n cs ds
      → Admits in_play n (e ∷ cs) ds

any-Among : (c : String) (l : List String) → (any (λ d. str_eq d c) l ≡ true) ↔ Among c l
any-Among c [] = ((λ e. cc), λ h. absurd h)
any-Among c (d ∷ l) = ground (arith, str_eq_iff d c, any-Among c l)

any-shared :
    (cs in_play : List String)
    → any (λ c. any (λ d. str_eq d c) in_play) cs ≡ true
    → (c : ConceptId) × Among c cs × Among c in_play
any-shared [] in_play e = cc
any-shared (c ∷ cs) in_play e = elim (Bool-cases (any (λ d. str_eq d c) in_play)) [
  | inl h ↦ (c, inl refl, (any-Among c in_play).0 h)
  | inr h ↦ let k = any-shared cs in_play (ground (arith, h, e)) in (k.0, inr k.1, k.2)
]

shared-any :
    (c : String) (cs in_play : List String)
    → Among c cs
    → Among c in_play
    → any (λ c. any (λ d. str_eq d c) in_play) cs ≡ true
shared-any c [] in_play h k = absurd h
shared-any c (d ∷ cs) in_play (inl h) k =
    ground (arith, h, (any-Among d in_play).1 (subst (λ x. Among x in_play) (sym h) k))
shared-any c (d ∷ cs) in_play (inr h) k = ground (arith, shared-any c cs in_play h k)

maps_in_play-InPlay :
    (in_play : List ConceptId) (e : Enrichment) → (maps_in_play in_play e ≡ true) ↔ InPlay in_play e
unfolding maps_in_play
maps_in_play-InPlay in_play e =
    (any-shared e.maps_to in_play, λ h. shared-any h.0 e.maps_to in_play h.1 h.2)

take-Admits :
    (in_play : List ConceptId) (n : ℕ) (cs : List Enrichment)
    → Admits in_play n cs (take n (keep (maps_in_play in_play) cs))
take-Admits in_play zero cs = Admits.spent cs
take-Admits in_play (suc n) [] = Admits.ended (suc n)
take-Admits in_play (suc n) (e ∷ cs) = elim (Bool-cases (maps_in_play in_play e)) [
  | inl h ↦
      rw h
        (Admits.admitted n e cs _ ((maps_in_play-InPlay in_play e).0 h) (take-Admits in_play n cs))
  | inr h ↦ rw h (
      Admits.dropped (suc n) e cs _ (λ k. let t = (maps_in_play-InPlay in_play e).1 k in cc)
        (take-Admits in_play (suc n) cs))
]

take-all : {A : Type 0} (n : ℕ) (xs : List A) → length xs ≤ n → take n xs ≡ xs
take-all zero [] h = refl
take-all zero (x ∷ xs) h = absurd (omega (arith, h))
take-all (suc n) [] h = refl
take-all (suc n) (x ∷ xs) h = ap (λ l. x ∷ l) (take-all n xs (omega (arith, h)))

pub fade-take : (n : ℕ) (xs : List Enrichment) → fade n xs ≡ take n xs
unfolding fade
fade-take n xs = elim (Bool-cases (ltb n (length xs))) [
  | inl h ↦ rw h refl
  | inr h ↦ rw h (sym (take-all n xs (ground (arith, h))))
]

module _ (f : F64) where
  pub admit-Admits :
      (req : DigestRequest f) (r : Richness)
      → Admits req.in_play (enrichment_budget r) req.candidate_enrichments (admit f req r)
  unfolding admit coherence_filter
  admit-Admits req r =
      rw
        (fade-take (enrichment_budget r)
          (keep (maps_in_play req.in_play) req.candidate_enrichments))
        (take-Admits req.in_play (enrichment_budget r) req.candidate_enrichments)

  -- What the code alone decides of a digest: its tier, the visuals of the tier, and the enrichments.
  pub record Structured (req : DigestRequest f) (d : Digest) : Type 0 where
    pub tier : d.richness ≡ select_richness f req
    pub visuals : d.visual_count ≡ visual_count d.richness
    pub admits :
        Admits req.in_play
          (enrichment_budget d.richness)
          req.candidate_enrichments
          d.admitted_enrichments
    pub first : d.instruction_first ≡ true

  module _ {S : Type 0} (provider : LlmProvider S) where
    -- The provider answers a request within the token budget.
    abbrev pub Answers : DigestRequest f → S → Result ProviderError GenerationResponse → S → Type 0
    Answers req s answer s' =
        (asked : GenerationRequest) × (provider.generate asked s ≡ (answer, s'))
        × (asked.max_output_tokens ≡ req.max_output_tokens)
        × (asked.model ≡ req.model)

    abbrev pub Outcome : DigestRequest f → S → Result DigestError Digest × S → Type 0
    Outcome req s (err missing_instruction, s') = (is_blank req.instruction ≡ true) × (s' ≡ s)
    Outcome req s (err (provider_failed e), s') =
        (is_blank req.instruction ≡ false) × Answers req s (err e) s'
    Outcome req s (ok d, s') =
        (is_blank req.instruction ≡ false)
        × Structured req d
        × ((resp : GenerationResponse) × Answers req s (ok resp) s'
            × (d.surface_text ≡ full_text resp))

    finished-Outcome :
        (req : DigestRequest f) (s : S) (asked : GenerationRequest)
        (a : Result ProviderError GenerationResponse × S)
        → is_blank req.instruction ≡ false
        → provider.generate asked s ≡ a
        → asked.max_output_tokens ≡ req.max_output_tokens
        → asked.model ≡ req.model
        → Outcome req s (
            finished (select_richness f req) (admit f req (select_richness f req)) (surface_text a))
    unfolding finished surface_text
    finished-Outcome req s asked (err e, s') h k b m = (h, (asked, k, b, m))
    finished-Outcome req s asked (ok resp, s') h k b m = (
      h,
      record {
        tier = refl;
        visuals = refl;
        admits = admit-Admits req (select_richness f req);
        first = refl;
      },
      (resp, (asked, k, b, m), refl),
    )

    -- Without instruction there is no digest, and the provider is not called. Otherwise it is called
    -- once, for the request's model within its token budget: where it fails, so does the digest, and
    -- where it answers, its text is the digest's surface text, the tier is the selected one, and the
    -- enrichments are the first of the candidates that map to a concept in play, in their order, up
    -- to the tier's budget.
    pub generate-Outcome :
        (req : DigestRequest f) (s : S) → Outcome req s (generate f provider req s)
    unfolding generate fill_surface_text
    generate-Outcome req s = elim (Bool-cases (is_blank req.instruction)) [
      | inl h ↦ rw h (h, refl)
      | inr h ↦ rw h (
          finished-Outcome req s
            (surface_request f req (select_richness f req) (admit f req (select_richness f req))) _
            h refl refl refl)
    ]
