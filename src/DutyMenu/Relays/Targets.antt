-- ===== src/DutyMenu/Relays/Targets.antt =====
-- The relays that `publish_targets` of app/services/duty_menu_build.py gives.
use brainstorm_server.Common.{
  ◌≡◌, refl, subst, inl, inr, Bool, true, false, ◌||◌, Option, List, [], ◌∷◌, arith, Bool-cases,
  ◌⊎◌, All, All-weaken, In,
}
use brainstorm_server.Common.Text.{Text, is_nil, text_eq_refl, is_in_text}
use brainstorm_server.DutyMenu.Rows.{RelaySettings}
use brainstorm_server.DutyMenu.Relays.{
  UrlParts, RelayTarget, relay_key, write_url, target_of, is_seen, targets_from, concat,
  publish_targets,
}

module _ (urlsplit : Text → Option UrlParts) (settings : RelaySettings) where
  -- The two addresses of a target, in one spelling each.
  abbrev pub keys : RelayTarget → List Text
  keys t = relay_key urlsplit t.url ∷ relay_key urlsplit t.write_url ∷ []

  -- No spelling of the first is one of the second.
  abbrev pub Apart : RelayTarget → RelayTarget → Type 0
  Apart t u =
      (is_in_text (relay_key urlsplit u.url) (keys t) ≡ false)
      × (is_in_text (relay_key urlsplit u.write_url) (keys t) ≡ false)

  abbrev pub AllApart : List RelayTarget → Type 0
  AllApart [] = Unit
  AllApart (t ∷ ts) = All (Apart t) ts × AllApart ts

  abbrev Unseen : List Text → RelayTarget → Type 0
  Unseen seen t = is_seen urlsplit settings t seen ≡ false

  -- What has been seen once a relay is taken.
  abbrev seen_with : Text → List Text → List Text
  seen_with url seen =
      relay_key urlsplit url ∷ relay_key urlsplit (write_url urlsplit settings url) ∷ seen

  seen_less :
      (url : Text) (seen : List Text) (t : RelayTarget)
      → Unseen (seen_with url seen) t
      → Unseen seen t
  seen_less url seen t h = ground arith

  seen-Apart :
      (url : Text) (seen : List Text) (t : RelayTarget)
      → Unseen (seen_with url seen) t
      → Apart (target_of urlsplit settings url) t
  seen-Apart url seen t h = (ground arith, ground arith)

  abbrev is_skipped : Text → List Text → Bool
  is_skipped url seen =
      is_nil url || is_seen urlsplit settings (target_of urlsplit settings url) seen

  targets-Unseen :
      (urls seen : List Text) → All (Unseen seen) (targets_from urlsplit settings seen urls)
  unfolding targets_from
  targets-Unseen [] seen = tt
  targets-Unseen (url ∷ urls) seen = elim (Bool-cases (is_skipped url seen)) [
    | inl e ↦ rw e (targets-Unseen urls seen)
    | inr e ↦ rw e (
      ground arith,
      All-weaken (Unseen (seen_with url seen)) (Unseen seen) (seen_less url seen) _
          (targets-Unseen urls (seen_with url seen)),
    )
  ]

  targets-AllApart : (urls seen : List Text) → AllApart (targets_from urlsplit settings seen urls)
  unfolding targets_from
  targets-AllApart [] seen = tt
  targets-AllApart (url ∷ urls) seen = elim (Bool-cases (is_skipped url seen)) [
    | inl e ↦ rw e (targets-AllApart urls seen)
    | inr e ↦ rw e (
      All-weaken (Unseen (seen_with url seen)) (Apart _) (seen-Apart url seen) _
          (targets-Unseen urls (seen_with url seen)),
      targets-AllApart urls (seen_with url seen),
    )
  ]

  -- The relay is given: it has no text, or a target has one of its spellings.
  abbrev pub Reached : List RelayTarget → Text → Type 0
  Reached ts url =
      (is_nil url ≡ true)
      ⊎ ((t : RelayTarget) × In t ts
          × (is_seen urlsplit settings (target_of urlsplit settings url) (keys t) ≡ true))

  abbrev Covered : List Text → List RelayTarget → Text → Type 0
  Covered seen ts url =
      Reached ts url ⊎ (is_seen urlsplit settings (target_of urlsplit settings url) seen ≡ true)

  -- A target more, whose keys had been seen.
  taken_too :
      (url : Text) (seen : List Text) (ts : List RelayTarget) (other : Text)
      → Covered (seen_with url seen) ts other
      → Covered seen (target_of urlsplit settings url ∷ ts) other
  taken_too url seen ts other (inl (inl nothing)) = inl (inl nothing)
  taken_too url seen ts other (inl (inr (t, i, h))) = inl (inr (t, inr i, h))
  taken_too url seen ts other (inr h) =
      elim (Bool-cases (is_seen urlsplit settings (target_of urlsplit settings other) seen)) [
        | inl e ↦ inr e
        | inr e ↦ inl (inr (target_of urlsplit settings url, inl refl, ground arith))
      ]

  skipped-Covered :
      (url : Text) (seen : List Text) (ts : List RelayTarget)
      → is_skipped url seen ≡ true
      → Covered seen ts url
  skipped-Covered url seen ts h = elim (Bool-cases (is_nil url)) [
    | inl e ↦ inl (inl e)
    | inr e ↦ inr (ground arith)
  ]

  targets-Covered :
      (urls seen : List Text) → All (Covered seen (targets_from urlsplit settings seen urls)) urls
  unfolding targets_from
  targets-Covered [] seen = tt
  targets-Covered (url ∷ urls) seen =
      let skipped = targets_from urlsplit settings seen urls in
      let taken =
        target_of urlsplit settings url
        ∷ targets_from urlsplit settings (seen_with url seen) urls in
      elim (Bool-cases (is_skipped url seen)) [
        | inl e ↦
            let same : skipped ≡ targets_from urlsplit settings seen (url ∷ urls) = rw e refl in
            subst (λ ts. All (Covered seen ts) (url ∷ urls)) same
              (skipped-Covered url seen _ e, targets-Covered urls seen)
        | inr e ↦
            let same : taken ≡ targets_from urlsplit settings seen (url ∷ urls) = rw e refl in
            subst (λ ts. All (Covered seen ts) (url ∷ urls)) same
              (
                inl (
                    inr (
                      target_of urlsplit settings url,
                      inl refl,
                      rw (text_eq_refl (relay_key urlsplit url)) refl,
                    )),
                All-weaken
                    (Covered (seen_with url seen)
                      (targets_from urlsplit settings (seen_with url seen) urls))
                    (Covered seen taken) (taken_too url seen _) urls
                    (targets-Covered urls (seen_with url seen)),
              )
      ]

  first_seen : (ts : List RelayTarget) (url : Text) → Covered [] ts url → Reached ts url
  first_seen ts url (inl r) = r
  first_seen ts url (inr h) = cc

  -- Each relay is written to once: no two targets share a spelling, neither of the public address nor
  -- of the one that is written to, and every relay given that has a text has a target that shares one
  -- with it.
  pub publish_targets_lem :
      (groups : List (List Text))
      → AllApart (publish_targets urlsplit settings groups)
        × All (Reached (publish_targets urlsplit settings groups)) (concat urlsplit settings groups)
  publish_targets_lem groups =
      let urls = concat urlsplit settings groups in
      (targets-AllApart urls [], All-weaken _ _ (first_seen _) urls (targets-Covered urls []))
