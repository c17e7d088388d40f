-- ===== src/Ollama/Answers.antt =====
-- What an answer of the service becomes, and which addresses a provider can have.
use wyrtloom.Base.{
  ℕ, ◌+◌, ◌<◌, ◌≤◌, ◌≡◌, ◌≢◌, ◌⊎◌, Option-cases, inl, inr, refl, arith, true, false, String, none,
  some, List, [], ◌∷◌, length, take, length-take, leb, leb→le, leb→lt, le→leb, lt→ltb, le→ltb,
  lt→leb, ◌==◌, ==_iff, concat, Bool-cases, if◌then◌else◌,
}
use wyrtloom.Db.{Result, ok, err}
use wyrtloom.Provider.{
  text, GenerationRequest, GenerationResponse, ProviderError, transport, rate_limited, unauthorized,
  budget_exceeded, provider_error,
}
use wyrtloom.Terminal.{Shown, strip_control, strip_control_lem}
use wyrtloom.Ollama.{
  OllamaResponse, SendError, Reply, Serde, OllamaProvider, max_response_bytes, is_advertised_over,
  read_limited, read_capped_body, response_of, send_error, decoded, accepted, received, generate,
  body_of, count_or_zero,
}

-- The body is taken as a whole.
abbrev pub Whole : Reply → Type 0
Whole r =
    (is_advertised_over r.content_length ≡ false)
    × (length r.arriving ≤ max_response_bytes)
    × (r.broken ≡ false)

-- It is refused.
abbrev pub Refused : Reply → Type 0
Refused r =
    (is_advertised_over r.content_length ≡ true)
    ⊎ (max_response_bytes < length r.arriving)
    ⊎ (r.broken ≡ true)

-- What is read of a reply.
abbrev pub Reads : Reply → Result ProviderError (List ℕ) → Type 0
Reads r (ok b) = Whole r × (b ≡ r.arriving)
Reads r (err e) = ((m : String) × (e ≡ transport m)) × Refused r

-- Where the limit is not met, the body arrives whole or the reading fails.
read_limited-short :
    (n : ℕ) (r : Reply)
    → length r.arriving < n
    → read_limited n r
      ≡ (if r.broken then err (transport "response read failed") else ok r.arriving)
unfolding read_limited
read_limited-short n r h = rw (lt→leb (length r.arriving) n h) refl

read_limited-long :
    (n : ℕ) (r : Reply) → n ≤ length r.arriving → read_limited n r ≡ ok (take n r.arriving)
unfolding read_limited
read_limited-long n r h = rw (le→leb n (length r.arriving) h) refl

taken :
    (r : Reply)
    → max_response_bytes < length r.arriving
    → max_response_bytes < length (take (max_response_bytes + 1) r.arriving)
taken r h = omega (arith, h, length-take (max_response_bytes + 1) r.arriving)

read_capped_body-Reads : (r : Reply) → Reads r (read_capped_body r)
unfolding read_capped_body
read_capped_body-Reads r = elim (Bool-cases (is_advertised_over r.content_length)) [
  | inl e ↦ rw e ((_, refl), inl e)
  | inr e ↦ rw e (elim (Bool-cases (leb (length r.arriving) max_response_bytes)) [
    | inl f ↦
        let small = leb→le (length r.arriving) max_response_bytes f in
        rw (read_limited-short (max_response_bytes + 1) r (omega (arith, small)))
          (elim (Bool-cases r.broken) [
            | inl b ↦ rw b ((_, refl), inr (inr refl))
            | inr b ↦
                rw b (
                  rw (le→ltb (length r.arriving) max_response_bytes small) ((e, small, refl), refl))
          ])
    | inr f ↦
        let large = leb→lt (length r.arriving) max_response_bytes f in
        rw (read_limited-long (max_response_bytes + 1) r (omega (arith, large))) (
          rw
            (lt→ltb max_response_bytes (length (take (max_response_bytes + 1) r.arriving))
              (taken r large))
            ((_, refl), inr (inl large)))
  ])
]

is_other : (a b : ℕ) → (a == b) ≡ false → a ≢ b
is_other a b h q = let same = (==_iff a b).1 q in cc

module _ (serde : Serde) where
  -- What an answer says of the reply that came, if one did.
  abbrev pub Receives : Result SendError Reply → Result ProviderError GenerationResponse → Type 0
  Receives sent (ok answer) =
      (r : Reply) × (said : OllamaResponse) × (shown : String) × (sent ≡ ok r)
      × (r.status < 400)
      × Whole r
      × (serde.from_slice r.arriving ≡ some said)
      × (answer.content ≡ text shown ∷ [])
      × (shown ≡ strip_control said.content)
      × Shown shown
      × (answer.usage ≡ record {
        input_tokens = count_or_zero said.prompt_eval_count;
        output_tokens = count_or_zero said.eval_count;
        cost = none;
      })
  Receives sent (err unauthorized) = (r : Reply) × (sent ≡ ok r) × (r.status ≡ 401)
  Receives sent (err rate_limited) = (r : Reply) × (sent ≡ ok r) × (r.status ≡ 429)
  Receives sent (err budget_exceeded) = ⊥
  Receives sent (err (provider_error m)) =
      (r : Reply) × (sent ≡ ok r)
      × (400 ≤ r.status)
      × (r.status ≢ 401)
      × (r.status ≢ 429)
      × (m ≡ concat ("server returned HTTP " ∷ serde.show_status r.status ∷ []))
  Receives sent (err (transport m)) =
      ((e : SendError) × (sent ≡ err e))
      ⊎ ((r : Reply) × (sent ≡ ok r)
          × (r.status < 400)
          × (Refused r ⊎ (Whole r × (serde.from_slice r.arriving ≡ none))))

  sent_not : (e : SendError) → Receives (err e) (err (send_error e))
  unfolding send_error
  sent_not e = elim (Bool-cases e.is_timeout) [
    | inl t ↦ rw t (inl (_, refl))
    | inr t ↦ rw t (elim (Bool-cases e.is_connect) [
      | inl h ↦ rw h (inl (_, refl))
      | inr h ↦ rw h (inl (_, refl))
    ])
  ]

  decoded-Receives :
      (r : Reply) (body : Result ProviderError (List ℕ))
      → r.status < 400
      → Reads r body
      → Receives (ok r) (decoded serde body)
  unfolding decoded response_of
  decoded-Receives r (err e) s ((m, q), h) = rw q (inr (r, refl, s, inl h))
  decoded-Receives r (ok b) s (w, q) = rw q (elim (Option-cases (serde.from_slice r.arriving)) [
    | inl n ↦ rw (n, decoded) (inr (r, refl, s, inr (w, n)))
    | inr (said, n) ↦
        rw (n, decoded)
          (r, said, _, refl, s, w, n, refl, refl, (strip_control_lem said.content).0, refl)
  ])

  accepted-Receives : (r : Reply) → Receives (ok r) (accepted serde r)
  unfolding accepted
  accepted-Receives r = elim (Bool-cases (r.status == 401)) [
    | inl a ↦ rw a (r, refl, (==_iff r.status 401).0 a)
    | inr a ↦ rw a (elim (Bool-cases (r.status == 429)) [
      | inl b ↦ rw b (r, refl, (==_iff r.status 429).0 b)
      | inr b ↦ rw b (elim (Bool-cases (leb 400 r.status)) [
        | inl c ↦
            rw c (
              r,
              refl,
              leb→le 400 r.status c,
              is_other r.status 401 a,
              is_other r.status 429 b,
              refl,
            )
        | inr c ↦ rw c (decoded-Receives r _ (leb→lt 400 r.status c) (read_capped_body-Reads r))
      ])
    ])
  ]

  received-Receives : (sent : Result SendError Reply) → Receives sent (received serde sent)
  unfolding received
  received-Receives (err e) = sent_not e
  received-Receives (ok r) = accepted-Receives r

  module _ {S : Type 0} (p : OllamaProvider S) where
    -- A request goes once, to the chat address under the base address, and nothing else changes the
    -- service. The answer is a text only where a reply came with a status below 400 whose body, not
    -- longer than the limit and not advertised as longer, arrived whole and was read; it is then the
    -- cleaned content, all of whose characters are shown, with the counts, or 0, as usage. Unauthorized
    -- means 401, rate limited 429, a provider error any other status from 400 on, with that status as
    -- its text. A transport error means that no reply came, or one with a status below 400 whose body
    -- was advertised as, or is, longer than the limit, broke off, or arrived whole and was not read.
    pub generate-Receives :
        (req : GenerationRequest) (s : S)
        → (sent : Result SendError Reply) × (s' : S) × (p.client.post
              (concat (p.base_url ∷ "/api/chat" ∷ []))
              (body_of req)
              s
            ≡ (sent, s'))
          × ((generate serde p req s).1 ≡ s')
          × Receives sent (generate serde p req s).0
    unfolding generate
    generate-Receives req s =
        let reply = p.client.post (concat (p.base_url ∷ "/api/chat" ∷ [])) (body_of req) s in
        (reply.0, reply.1, refl, refl, received-Receives reply.0)
