-- ===== src/Security/Tamper.antt =====
-- What the audit chain's keyed links say of the entries before one of them.
use wyrtloom.Base.{
  ◌≡◌, ◌≢◌, ◌⊎◌, inl, inr, refl, sym, ap, ◌∙◌, arith, none, List, [], ◌∷◌, ◌++◌, map, Bool-cases,
  length, subst,
}
use mathlib.Core.Path.{ap₂}
use mathlib.Core.List.{
  Mem, mem-cons_self, mem-cons_of_mem, reverse, reverse_aux, reverse-reverse, reverse_perm,
}
use mathlib.Core.List.Perm
use wyrtloom.Canon.{Bytes}
use wyrtloom.Security.Policy.{bytes_eq}
use wyrtloom.Security.Policy.Paths.{bytes_eq_iff}
use wyrtloom.Security.Audit.{Crypto, SecurityModule, SecurityDecision, hex, verify_chain}
use wyrtloom.Security.Chain.{link, Linked, Linked-prefix, chain_loop→Linked}

map-reverse_aux {ℓ κ} :
    {A : Type ℓ} {B : Type κ} (f : A → B) (xs ys : List A)
    → map f (reverse_aux xs ys) ≡ reverse_aux (map f xs) (map f ys)
map-reverse_aux f [] ys = refl
map-reverse_aux f (x ∷ xs) ys = map-reverse_aux f xs (x ∷ ys)

unreversed {ℓ} : {A : Type ℓ} {a : A} (xs : List A) → Mem a (reverse xs) → Mem a xs
unreversed {a = a} xs m = Perm.subset (reverse_perm xs) a m

hex≢[] : (bs : Bytes) → length bs ≡ 32 → hex bs ≢ []
unfolding hex
hex≢[] [] l e = absurd (omega arith)
hex≢[] (b ∷ bs) l e = cc

module _ (c : Crypto) (key : Bytes) where
  -- An entry of the one log and one of the other, with different serialised forms and one link.
  abbrev pub Collision : List SecurityDecision → List SecurityDecision → Type 0
  Collision xs ys =
      (d : SecurityDecision) × (e : SecurityDecision) × Mem d xs
      × Mem e ys
      × (c.to_json d ≢ c.to_json e)
      × (link c key (c.to_json d) ≡ link c key (c.to_json e))

  -- `Linked`, read from the newest entry to the oldest.
  abbrev Back : List SecurityDecision → Bytes → Type 0
  Back [] last = last ≡ []
  Back (entry ∷ older) last = (last ≡ link c key (c.to_json entry)) × Back older entry.prev_hash

  Linked→Back :
      (log older : List SecurityDecision) (first last : Bytes)
      → Linked c key first log last
      → Back older first
      → Back (reverse_aux log older) last
  Linked→Back [] older first last h k = subst (Back older) h k
  Linked→Back (entry ∷ log) older first last h k =
      Linked→Back log (entry ∷ older) (link c key (c.to_json entry)) last h.1
        (refl, subst (Back older) (sym h.0) k)

  link≢[] : (s : Bytes) → link c key s ≢ []
  link≢[] s = hex≢[] _ (c.length-mac _ _)

  Back-agree :
      (xs ys : List SecurityDecision) (last : Bytes)
      → Back xs last
      → Back ys last
      → (map c.to_json xs ≡ map c.to_json ys) ⊎ Collision xs ys
  Back-agree [] [] last h k = inl refl
  Back-agree [] (y ∷ ys) last h k = absurd (link≢[] _ (sym k.0 ∙ h))
  Back-agree (x ∷ xs) [] last h k = absurd (link≢[] _ (sym h.0 ∙ k))
  Back-agree (x ∷ xs) (y ∷ ys) last h k = elim (Bool-cases (bytes_eq (c.to_json x) (c.to_json y))) [
    | inl same ↦
        let e = (bytes_eq_iff _ _).0 same in
        let prev : x.prev_hash ≡ y.prev_hash =
          sym (c.prev_hash_of-to_json x) ∙ ap c.prev_hash_of e ∙ c.prev_hash_of-to_json y in
        elim (Back-agree xs ys y.prev_hash (subst (Back xs) prev h.1) k.1) [
          | inl rest ↦ inl (ap₂ ◌∷◌ e rest)
          | inr (d, e, m, n, other, clash) ↦
              inr (d, e, mem-cons_of_mem x m, mem-cons_of_mem y n, other, clash)
        ]
    | inr other ↦ inr (
      x,
      y,
      mem-cons_self,
      mem-cons_self,
      (λ e. absurd (cc (other, (bytes_eq_iff _ _).1 e))),
      sym h.0 ∙ k.0,
    )
  ]

  Linked-agree :
      (xs ys : List SecurityDecision) (last : Bytes)
      → Linked c key [] xs last
      → Linked c key [] ys last
      → (map c.to_json xs ≡ map c.to_json ys) ⊎ Collision xs ys
  Linked-agree xs ys last h k =
      elim (Back-agree (reverse xs) (reverse ys) last (Linked→Back xs [] [] last h refl)
        (Linked→Back ys [] [] last k refl)) [
          | inl e ↦
              let back =
                sym (map-reverse_aux c.to_json xs []) ∙ e ∙ map-reverse_aux c.to_json ys [] in
              inl (sym (reverse-reverse _) ∙ ap reverse back ∙ reverse-reverse _)
          | inr (d, e, m, n, other, clash) ↦
              inr (d, e, unreversed xs m, unreversed ys n, other, clash)
        ]

-- Where two audit logs kept under one key both verify and hold a common entry, the serialised
-- entries before it are the same in both, or some entry before it in the first log and some entry
-- before it in the second have different serialised forms and the same link.
pub verify_chain-prefix :
    (c : Crypto) (m n : SecurityModule) (xs ys zs ws : List SecurityDecision)
    (entry : SecurityDecision)
    → m.k_audit ≡ n.k_audit
    → m.audit_log ≡ xs ++ entry ∷ zs
    → n.audit_log ≡ ys ++ entry ∷ ws
    → verify_chain c m ≡ none
    → verify_chain c n ≡ none
    → (map c.to_json xs ≡ map c.to_json ys) ⊎ Collision c m.k_audit xs ys
unfolding verify_chain
verify_chain-prefix c m n xs ys zs ws entry key e f h k =
    let (last, l) = chain_loop→Linked c m 0 [] m.audit_log h in
    let (last', l') = chain_loop→Linked c n 0 [] n.audit_log k in
    let l₁ = subst (λ log. Linked c m.k_audit [] log last) e l in
    let l₂ = subst (λ log. Linked c n.k_audit [] log last') f l' in
    let l₃ = subst (λ k. Linked c k [] (ys ++ entry ∷ ws) last') (sym key) l₂ in
    Linked-agree c m.k_audit xs ys entry.prev_hash
      (Linked-prefix c m.k_audit [] last xs zs entry l₁)
      (Linked-prefix c m.k_audit [] last' ys ws entry l₃)
