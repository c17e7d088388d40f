-- ===== src/Digest/Fading.antt =====
-- How a digest fades as the reader's calibration score rises.
use wyrtloom.Base.{
  ℕ, zero, suc, ◌≤◌, ◌≡◌, refl, ap, subst, arith, true, List, [], ◌∷◌, ◌++◌, take, is_blank,
  Bool-cases, inl, inr,
}
use wyrtloom.F64.{F64}
use wyrtloom.Provider.{GenerationResponse, ProviderError, LlmProvider}
use wyrtloom.Db.{Result, ok, err}
use wyrtloom.Digest.{
  Richness, rich, enrichment_budget, visual_count, Enrichment, Digest, DigestError,
  coherence_filter, DigestRequest, for_calibration, select_richness, admit, surface_text, finished,
  fill_surface_text, surface_request, generate,
}
use wyrtloom.Digest.Admitted.{fade-take}

abbrev Prefix : {A : Type 0} → List A → List A → Type 0
Prefix {A} xs ys = (rest : List A) × (ys ≡ xs ++ rest)

take-Prefix : {A : Type 0} (m n : ℕ) (xs : List A) → m ≤ n → Prefix (take m xs) (take n xs)
take-Prefix zero n xs h = (take n xs, refl)
take-Prefix (suc m) zero xs h = absurd (omega (arith, h))
take-Prefix (suc m) (suc n) [] h = ([], refl)
take-Prefix (suc m) (suc n) (x ∷ xs) h =
    let (rest, e) = take-Prefix m n xs (omega (arith, h)) in (rest, ap (λ l. x ∷ l) e)

-- No more of anything.
abbrev Leaner : Richness → Richness → Type 0
Leaner r q = (enrichment_budget r ≤ enrichment_budget q) × (visual_count r ≤ visual_count q)

Leaner-refl : (r : Richness) → Leaner r r
Leaner-refl r = (omega arith, omega arith)

module _ (f : F64) where
  -- The comparison of doubles is transitive.
  abbrev pub IsTransitive : Type 0
  IsTransitive = (a b c : f.Num) → f.ge a b ≡ true → f.ge b c ≡ true → f.ge a c ≡ true

  for_calibration-Leaner :
      (t : IsTransitive) (low high : f.Num)
      → f.ge high low ≡ true
      → Leaner (for_calibration f high) (for_calibration f low)
  unfolding for_calibration enrichment_budget visual_count
  for_calibration-Leaner t low high h =
      ground (arith, h, t high low (f.lit 66 2) h, t high low (f.lit 33 2) h)

  abbrev with_score : DigestRequest f → f.Num → DigestRequest f
  with_score req c = record req { calibration = c }

  select_richness-Leaner :
      (t : IsTransitive) (req : DigestRequest f) (low high : f.Num)
      → f.ge high low ≡ true
      → Leaner (select_richness f (with_score req high)) (select_richness f (with_score req low))
  unfolding select_richness
  select_richness-Leaner t req low high h = elim (Bool-cases req.request_richer) [
    | inl e ↦ rw e (Leaner-refl rich)
    | inr e ↦ rw e (for_calibration-Leaner t low high h)
  ]

  admit-Prefix :
      (req : DigestRequest f) (c d : f.Num) (r q : Richness)
      → Leaner r q
      → Prefix (admit f (with_score req c) r) (admit f (with_score req d) q)
  unfolding admit
  admit-Prefix req c d r q h =
      let chosen = coherence_filter req.candidate_enrichments req.in_play in
      rw (fade-take (enrichment_budget r) chosen) (
        rw (fade-take (enrichment_budget q) chosen)
          (take-Prefix (enrichment_budget r) (enrichment_budget q) chosen h.0))

  -- What the result has, where it is a digest.
  abbrev Made : {S : Type 0} → Richness → List Enrichment → Result DigestError Digest × S → Type 0
  Made r admitted (err e, s) = Unit
  Made r admitted (ok d, s) =
      (d.admitted_enrichments ≡ admitted) × (d.visual_count ≡ visual_count r)

  finished-Made :
      {S : Type 0} (r : Richness) (l : List Enrichment)
      (a : Result ProviderError GenerationResponse × S)
      → Made r l (finished r l (surface_text a))
  unfolding finished surface_text
  finished-Made r l (err e, s) = tt
  finished-Made r l (ok resp, s) = (refl, refl)

  generate-Made :
      {S : Type 0} (provider : LlmProvider S) (req : DigestRequest f) (s : S)
      → Made
          (select_richness f req)
          (admit f req (select_richness f req))
          (generate f provider req s)
  unfolding generate fill_surface_text
  generate-Made provider req s = elim (Bool-cases (is_blank req.instruction)) [
    | inl h ↦ rw h tt
    | inr h ↦ rw h (
        finished-Made (select_richness f req) (admit f req (select_richness f req)) (
          provider.generate
            (surface_request f req (select_richness f req) (admit f req (select_richness f req)))
            s))
  ]

  -- Of two digests for one lesson, by whatever providers, that of the reader with the higher score
  -- has no more visuals, and its enrichments are a prefix of the other's; the comparison of doubles
  -- is taken to be transitive.
  pub generate-Fades :
      {S T : Type 0} (t : IsTransitive) (one : LlmProvider S) (two : LlmProvider T)
      (req : DigestRequest f) (low high : f.Num) (s s' : S) (u u' : T) {d e : Digest}
      → f.ge high low ≡ true
      → generate f one (record req { calibration = low }) s ≡ (ok d, s')
      → generate f two (record req { calibration = high }) u ≡ (ok e, u')
      → (e.visual_count ≤ d.visual_count)
        × ((rest : List Enrichment) × (d.admitted_enrichments ≡ e.admitted_enrichments ++ rest))
  generate-Fades t one two req low high s s' u u' {d = d} {e = e} h p q =
      let lean = select_richness-Leaner t req low high h in
      let a =
        subst
          (Made (select_richness f (with_score req low))
            (admit f (with_score req low) (select_richness f (with_score req low))))
          p (generate-Made one (with_score req low) s) in
      let b =
        subst
          (Made (select_richness f (with_score req high))
            (admit f (with_score req high) (select_richness f (with_score req high))))
          q (generate-Made two (with_score req high) u) in
      (rw (a.1, b.1) lean.1, rw (a.0, b.0) (admit-Prefix req high low _ _ lean))
