-- ===== src/Webhook/Verification/Soundness.antt =====
-- Which deliveries `verify_delivery` of app/services/flash_webhook_service.py lets through.
use brainstorm_server.Common.{
  ℕ, suc, ◌+◌, ◌≤◌, ◌==◌, String, Bool, true, false, ◌≡◌, ◌≢◌, ◌↔◌, refl, sym, ap, subst, ◌⊎◌, inl,
  inr, Option, none, some, List, [], ◌∷◌, arith, Bool-cases, eq_iff, ==_iff,
}
use brainstorm_server.Common.Int.{ℤ, pos, negsuc}
use brainstorm_server.Webhook.Header.{Text, same_text, SignatureParts, parse_signature_header}
use brainstorm_server.Webhook.Verification.{
  is_timestamp_fresh, compute_signature, signature_matches, any_matches, accepted, verify_delivery,
  verify_parts, validate_flash_config,
}

same_text→eq : (a b : Text) → same_text a b ≡ true → a ≡ b
same_text→eq [] [] h = refl
same_text→eq [] (b ∷ m) h = cc
same_text→eq (a ∷ l) [] h = cc
same_text→eq (a ∷ l) (b ∷ m) h = elim (Bool-cases (a == b)) [
  | inr e ↦ absurd (ground arith)
  | inl e ↦
      let tails : same_text l m ≡ true = ground arith in
      rw ((==_iff a b).0 e) (ap (λ t. b ∷ t) (same_text→eq l m tails))
]

same_text_refl : (a : Text) → same_text a a ≡ true
same_text_refl [] = refl
same_text_refl (a ∷ l) = ground (arith, same_text_refl l)

-- Something holds of one of the texts.
abbrev pub AnyOf : (Text → Type 0) → List Text → Type 0
AnyOf P [] = ⊥
AnyOf P (x ∷ xs) = P x ⊎ AnyOf P xs

-- The time is at most the tolerance away, in either direction.
abbrev pub IsFresh : ℤ → ℕ → ℕ → Type 0
IsFresh (pos t) now tolerance = (now ≤ t + tolerance) × (t ≤ now + tolerance)
IsFresh (negsuc t) now tolerance = now + suc t ≤ tolerance

IsFresh-iff :
    (t : ℤ) (now tolerance : ℕ)
    → (is_timestamp_fresh t now tolerance ≡ true) ↔ IsFresh t now tolerance
unfolding is_timestamp_fresh
IsFresh-iff (pos t) now tolerance = ground arith
IsFresh-iff (negsuc t) now tolerance = ground arith

module _ (mac : Text → Text → Text) (encode : Text → Text) (raw_body : Text)
    (parts : SignatureParts) where
  abbrev pub SignedBy : Text → Type 0
  SignedBy secret =
      compute_signature mac encode secret parts.timestamp raw_body ≡ encode parts.signature

  any-signed : (l : List Text) → any_matches mac encode l parts raw_body ≡ true → AnyOf SignedBy l
  unfolding any_matches signature_matches
  any-signed [] h = cc
  any-signed (x ∷ l) h =
      elim (Bool-cases (
        same_text (compute_signature mac encode x parts.timestamp raw_body)
          (encode parts.signature))) [
            | inl e ↦ inl (same_text→eq _ _ e)
            | inr e ↦ inr (any-signed l (ground arith))
          ]

  signed-any : (l : List Text) → AnyOf SignedBy l → any_matches mac encode l parts raw_body ≡ true
  unfolding any_matches signature_matches
  signed-any [] h = absurd h
  signed-any (x ∷ l) (inl e) = rw e (rw (same_text_refl (encode parts.signature)) refl)
  signed-any (x ∷ l) (inr m) = ground (arith, signed-any l m)

  accepted_as :
      (secrets : List Text) (now tolerance : ℕ) (q : SignatureParts)
      → verify_parts mac encode secrets now tolerance raw_body (some q) ≡ accepted parts
      → (q ≡ parts)
        × (is_timestamp_fresh q.timestamp now tolerance ≡ true)
        × (any_matches mac encode secrets q raw_body ≡ true)
  accepted_as secrets now tolerance q h =
      elim (Bool-cases (is_timestamp_fresh q.timestamp now tolerance)) [
        | inr e ↦ absurd (ground arith)
        | inl e ↦ elim (Bool-cases (any_matches mac encode secrets q raw_body)) [
          | inr m ↦ absurd (ground arith)
          | inl m ↦ (ground arith, e, m)
        ]
      ]

  parts_iff :
      (secrets : List Text) (now tolerance : ℕ) (o : Option SignatureParts)
      → (verify_parts mac encode secrets now tolerance raw_body o ≡ accepted parts)
        ↔ ((o ≡ some parts) × IsFresh parts.timestamp now tolerance × AnyOf SignedBy secrets)
  parts_iff secrets now tolerance none = ((λ h. cc), (λ h. cc h.0))
  parts_iff secrets now tolerance (some q) = (fwd, bwd)
    where
      fwd :
          verify_parts mac encode secrets now tolerance raw_body (some q) ≡ accepted parts
          → (some q ≡ some parts) × IsFresh parts.timestamp now tolerance × AnyOf SignedBy secrets
      fwd h =
          let (same, fresh, any) = accepted_as secrets now tolerance q h in
          (
            ap some same,
            (IsFresh-iff parts.timestamp now tolerance).0
                (subst (λ p. is_timestamp_fresh p.timestamp now tolerance ≡ true) same fresh),
            any-signed secrets
                (subst (λ p. any_matches mac encode secrets p raw_body ≡ true) same any),
          )

      bwd :
          (some q ≡ some parts) × IsFresh parts.timestamp now tolerance × AnyOf SignedBy secrets
          → verify_parts mac encode secrets now tolerance raw_body (some q) ≡ accepted parts
      bwd (same, fresh, any) =
          subst (λ o. verify_parts mac encode secrets now tolerance raw_body o ≡ accepted parts)
            (sym same)
            (rw ((IsFresh-iff parts.timestamp now tolerance).1 fresh)
              (rw (signed-any secrets any) refl))

  -- A delivery is accepted exactly where its header reads as these parts, its time is within the
  -- tolerance of now in either direction, and one of the secrets in force gives its signature for
  -- the very bytes received.
  pub verify_iff :
      (header : Option Text) (secrets : List Text) (now tolerance : ℕ)
      → (verify_delivery mac encode header raw_body secrets now tolerance ≡ accepted parts) ↔ (
          (parse_signature_header header ≡ some parts)
          × IsFresh parts.timestamp now tolerance
          × AnyOf SignedBy secrets)
  unfolding verify_delivery
  verify_iff header secrets now tolerance =
      parts_iff secrets now tolerance (parse_signature_header header)

-- The server starts exactly where payments are off, or the mock is off or the server local, and
-- none of the three settings is empty.
pub validate_iff :
    (is_enabled : Bool) (api_key webhook_secret base_url : String) (mock_enabled : Bool)
    (deploy_environment : String)
    → (validate_flash_config is_enabled api_key webhook_secret base_url mock_enabled
          deploy_environment
        ≡ none)
      ↔ ((is_enabled ≡ false)
          ⊎ (((mock_enabled ≡ false) ⊎ (deploy_environment ≡ "LOCAL"))
              × (api_key ≢ "")
              × (webhook_secret ≢ "")
              × (base_url ≢ "")))
unfolding validate_flash_config
validate_iff is_enabled api_key webhook_secret base_url mock_enabled deploy_environment = ground (
  arith,
  eq_iff api_key "",
  eq_iff webhook_secret "",
  eq_iff base_url "",
  eq_iff deploy_environment "LOCAL",
)
