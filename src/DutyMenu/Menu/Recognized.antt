-- ===== src/DutyMenu/Menu/Recognized.antt =====
-- What app/services/duty_menu_build.py builds is what it reads as a menu.
use brainstorm_server.Common.{
  ℕ, ◌≡◌, refl, ◌≤◌, ◌<◌, true, false, List, [], ◌∷◌, arith, All, All-weaken,
}
use brainstorm_server.Common.Text.{Text, codes, is_nil, text_eq, text_eq_refl}
use brainstorm_server.SelfMap.Duties.{lower}
use brainstorm_server.DutyMenu.Menu.{
  duty_tags, build_menu_tags, named, is_concept_header, is_duty_menu, newest_from, menu_created_at,
  duty_menu_kind,
}

duty_tags-named :
    (name : Text) (rows : List (Text × Text))
    → text_eq (codes "duty") name ≡ false
    → named name (duty_tags rows) ≡ []
unfolding named duty_tags
duty_tags-named name [] h = refl
duty_tags-named name ((key, relay) ∷ rows) h = rw h (duty_tags-named name rows h)

lower_some : (s : Text) → is_nil s ≡ false → is_nil (lower s) ≡ false
unfolding lower
lower_some [] h = h
lower_some (c ∷ cs) h = refl

-- The event that is signed for an assistant whose key is not empty is its Duty Menu, whatever the rows.
pub is_duty_menu-build :
    (assistant : Text) (rows : List (Text × Text))
    → is_nil assistant ≡ false
    → is_duty_menu
        (record {
          kind = duty_menu_kind;
          pubkey = assistant;
          tags = build_menu_tags assistant rows;
        })
        assistant
      ≡ true
unfolding is_duty_menu build_menu_tags named is_concept_header text_eq
is_duty_menu-build assistant rows h = rw (duty_tags-named (codes "p") rows refl) (
    rw (duty_tags-named (codes "z") rows refl)
      (rw (text_eq_refl (lower assistant)) (rw (lower_some assistant h) refl)))

newest-le : (cs : List ℕ) → All (λ c. c ≤ newest_from cs) cs
unfolding newest_from
newest-le [] = tt
newest-le (c ∷ cs) = (ground arith, All-weaken _ _ (λ d h. ground arith) cs (newest-le cs))

-- A menu is dated after every earlier version, and not before now, so it replaces them all.
pub menu_created_at-later :
    (now : ℕ) (earlier : List ℕ)
    → (now ≤ menu_created_at now earlier) × All (λ c. c < menu_created_at now earlier) earlier
unfolding menu_created_at
menu_created_at-later now earlier =
    (ground arith, All-weaken _ _ (λ c h. ground arith) earlier (newest-le earlier))
