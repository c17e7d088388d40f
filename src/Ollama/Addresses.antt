-- ===== src/Ollama/Addresses.antt =====
-- Which addresses a provider can have.
use wyrtloom.Base.{
  ◌≡◌, ◌↔◌, ap, ◌⊎◌, inl, inr, refl, sym, true, ◌||◌, String, Option, none, some, str_eq,
  str_eq_iff, Bool-cases, arith,
}
use wyrtloom.Db.{Result, ok, err}
use wyrtloom.Ollama.{
  Urls, Client, OllamaProvider, validate_url, validate_parsed, made, validate_base_url,
  is_permitted, host_or_empty, new,
}

host_cases :
    (o : Option String)
    → (str_eq (host_or_empty o) "localhost" || str_eq (host_or_empty o) "127.0.0.1") ≡ true
    → (o ≡ some "localhost") ⊎ (o ≡ some "127.0.0.1")
host_cases none h = cc
host_cases (some s) h = elim (Bool-cases (str_eq s "localhost")) [
  | inl e ↦ inl (ap some ((str_eq_iff s "localhost").0 e))
  | inr e ↦ inr (ap some ((str_eq_iff s "127.0.0.1").0 (ground arith)))
]

made-ok :
    {S : Type 0} (v : Result String Unit) (built : Result String (Client S)) (raw : String)
    (p : OllamaProvider S)
    → made v built raw ≡ ok p
    → (v ≡ ok tt) × (built ≡ ok p.client) × (p.base_url ≡ raw)
made-ok (err e) built raw p h = cc
made-ok (ok t) (ok client) raw p h =
    let same : ◌≡◌ {A = OllamaProvider _} (record { base_url = raw; client = client }) p = cc in
    (refl, ap ok (ap (λ x. x.client) same), sym (ap (λ x. x.base_url) same))
made-ok (ok t) (err e) raw p h = cc

module _ (urls : Urls) where
  -- Neither a user nor a password, and either https, or http to this machine.
  abbrev pub Scheme : urls.Url → Type 0
  Scheme u =
      (urls.scheme u ≡ "https")
      ⊎ ((urls.scheme u ≡ "http")
          × ((urls.host_str u ≡ some "localhost") ⊎ (urls.host_str u ≡ some "127.0.0.1")))

  abbrev pub Permitted : urls.Url → Type 0
  Permitted u = (urls.username u ≡ "") × (urls.password u ≡ none) × Scheme u

  permitted-host : (u : urls.Url) → is_permitted urls u ≡ true → Scheme u
  unfolding is_permitted
  permitted-host u h = ground (
    arith,
    str_eq_iff (urls.scheme u) "https",
    str_eq_iff (urls.scheme u) "http",
    host_cases (urls.host_str u),
  )

  validate_url-Permitted : (u : urls.Url) → validate_url urls u ≡ ok tt → Permitted u
  unfolding validate_url
  validate_url-Permitted u h =
      let name : urls.username u ≡ "" = ground (arith, str_eq_iff (urls.username u) "") in
      let word : urls.password u ≡ none = ground arith in
      let test : is_permitted urls u ≡ true = ground arith in (name, word, permitted-host u test)

  Permitted-validate_url : (u : urls.Url) → Permitted u → validate_url urls u ≡ ok tt
  unfolding validate_url is_permitted
  Permitted-validate_url u (a, b, inl c) = rw (a, b, c) refl
  Permitted-validate_url u (a, b, inr (c, inl d)) = rw (a, b, c, d) refl
  Permitted-validate_url u (a, b, inr (c, inr d)) = rw (a, b, c, d) refl

  parsed-Permitted :
      (raw : String) (r : Result String urls.Url)
      → validate_parsed urls raw r ≡ ok tt
      → (u : urls.Url) × (r ≡ ok u) × Permitted u
  unfolding validate_parsed
  parsed-Permitted raw (ok u) h = (u, refl, validate_url-Permitted u h)
  parsed-Permitted raw (err e) h = cc

  -- A provider is made of a text if and only if the text parses as a URL without a user and without a
  -- password, whose scheme is https, or is http with the host localhost or 127.0.0.1, and the HTTP
  -- client is built; the provider keeps the text as its base address, and that client.
  pub new-Permitted :
      {S : Type 0} (built : Result String (Client S)) (raw : String) (p : OllamaProvider S)
      → (new urls built raw ≡ ok p) ↔ (
          (u : urls.Url) × (urls.parse raw ≡ ok u)
          × Permitted u
          × (built ≡ ok p.client)
          × (p.base_url ≡ raw))
  unfolding new validate_base_url validate_parsed
  new-Permitted built raw p = (
    λ h.
        let (v, b, q) = made-ok (validate_base_url urls raw) built raw p h in
        let (u, e, permitted) = parsed-Permitted raw (urls.parse raw) v in (u, e, permitted, b, q),
    λ (u, a, b, c, d).
        rw (a, Permitted-validate_url u b, c) (ap ok (ap (λ x. record p { base_url = x }) (sym d))),
  )
