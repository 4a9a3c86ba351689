-- ===== src/ShortUrls/Minting.antt =====
-- Minting a short code in app/services/shorturl_service.py, and finding it again.
use brainstorm_server.Common.{
  ◌≡◌, refl, subst, inl, inr, String, false, ◌&&◌, ◌||◌, Option, none, some, is_some, List, [], ◌∷◌,
  ◌++◌, arith, Bool-cases, Option-cases, All, All-append, take, str_eq, str_eq_refl, eq_iff,
}
use brainstorm_server.Common.Text.{Text, text_eq, text_eq_refl}
use brainstorm_server.ShortUrls.{
  ShortUrl, Attempt, created, new_row, violates, mint, create_short_url, generate_short_code,
  normalize_short_code, select_short_url_by_code_on_db, select_short_url_by_entity_on_db,
  get_short_url_entity, max_generation_attempts,
}
use brainstorm_server.ShortUrls.Codes.{normalize-generate}

-- No two rows have one code: each row that the entity lookup finds is found by its code.
abbrev pub HasUniqueCodes : List ShortUrl → Type 0
HasUniqueCodes rows =
    All (λ (r : ShortUrl). select_short_url_by_code_on_db r.short_code rows ≡ some r) rows

-- The constraint on codes holds of the table at each attempt.
abbrev pub StaysUnique : List Attempt → List ShortUrl → Type 0
StaysUnique [] rows = HasUniqueCodes rows
StaysUnique (a ∷ more) rows = HasUniqueCodes rows × StaysUnique more (rows ++ a.others)

-- The row's code is in its normal form, the only one that is ever looked up.
abbrev pub IsNormal : ShortUrl → Type 0
IsNormal r = normalize_short_code r.short_code ≡ r.short_code

-- So are the codes of the rows that others insert.
abbrev pub OthersNormal : List Attempt → Type 0
OthersNormal attempts = All (λ (a : Attempt). All IsNormal a.others) attempts

by_code-append :
    (code : Text) (rows : List ShortUrl) (r : ShortUrl)
    → select_short_url_by_code_on_db code rows ≡ none
    → r.short_code ≡ code
    → select_short_url_by_code_on_db code (rows ++ r ∷ []) ≡ some r
unfolding select_short_url_by_code_on_db
by_code-append code [] r h e = rw e (rw (text_eq_refl code) refl)
by_code-append code (x ∷ rows) r h e = elim (Bool-cases (text_eq x.short_code code)) [
  | inl w ↦ absurd (ground (arith, rw w at h))
  | inr w ↦ rw w (by_code-append code rows r (rw w at h) e)
]

by_entity-append :
    (kind key : String) (rows : List ShortUrl) (r : ShortUrl)
    → select_short_url_by_entity_on_db kind key rows ≡ none
    → r.kind ≡ kind
    → r.entity_key ≡ key
    → select_short_url_by_entity_on_db kind key (rows ++ r ∷ []) ≡ some r
unfolding select_short_url_by_entity_on_db
by_entity-append kind key [] r h e f =
    rw e (rw f (rw (str_eq_refl kind) (rw (str_eq_refl key) refl)))
by_entity-append kind key (x ∷ rows) r h e f =
    elim (Bool-cases (str_eq x.kind kind && str_eq x.entity_key key)) [
      | inl w ↦ absurd (ground (arith, rw w at h))
      | inr w ↦ rw w (by_entity-append kind key rows r (rw w at h) e f)
    ]

-- What the entity lookup finds stands in the table, and is of the entity.
by_entity-found :
    (P : ShortUrl → Type 0) (kind key : String) (rows : List ShortUrl) (r : ShortUrl)
    → All P rows
    → select_short_url_by_entity_on_db kind key rows ≡ some r
    → P r × (r.kind ≡ kind) × (r.entity_key ≡ key)
unfolding select_short_url_by_entity_on_db
by_entity-found P kind key [] r h e = absurd (ground (arith, e))
by_entity-found P kind key (x ∷ rows) r h e =
    elim (Bool-cases (str_eq x.kind kind && str_eq x.entity_key key)) [
      | inl w ↦
          let same : x ≡ r = cc (rw w at e) in
          let of_entity : (x.kind ≡ kind) × (x.entity_key ≡ key) = (
            (eq_iff x.kind kind).0 (ground (arith, w)),
            (eq_iff x.entity_key key).0 (ground (arith, w)),
          ) in
          subst (λ (y : ShortUrl). P y × (y.kind ≡ kind) × (y.entity_key ≡ key)) same
            (h.0, of_entity.0, of_entity.1)
      | inr w ↦ by_entity-found P kind key rows r h.1 (rw w at e)
    ]

unique_here :
    (attempts : List Attempt) (rows : List ShortUrl)
    → StaysUnique attempts rows
    → HasUniqueCodes rows
unique_here [] rows h = h
unique_here (a ∷ more) rows h = h.0

module _ (kind key : String) where
  -- The row is of the entity, and is found by its code and by the entity.
  abbrev pub IsSettled : ShortUrl → List ShortUrl → Type 0
  IsSettled r rows =
      (r.kind ≡ kind)
      × (r.entity_key ≡ key)
      × (select_short_url_by_code_on_db r.short_code rows ≡ some r)
      × (select_short_url_by_entity_on_db kind key rows ≡ some r)

  found-IsSettled :
      (rows : List ShortUrl) (r : ShortUrl)
      → HasUniqueCodes rows
      → select_short_url_by_entity_on_db kind key rows ≡ some r
      → IsSettled r rows
  found-IsSettled rows r unique e =
      let (by_code, of_kind, of_key) = by_entity-found _ kind key rows r unique e in
      (of_kind, of_key, by_code, e)

  absent_code : (o p : Option ShortUrl) → is_some o || is_some p ≡ false → o ≡ none
  absent_code none p h = refl
  absent_code (some r) p h = absurd (ground (arith, h))

  absent_entity : (o p : Option ShortUrl) → is_some o || is_some p ≡ false → p ≡ none
  absent_entity o none h = refl
  absent_entity none (some r) h = absurd (ground (arith, h))
  absent_entity (some q) (some r) h = absurd (ground (arith, h))

  inserted-IsSettled :
      (relays : List String) (code : Text) (rows : List ShortUrl)
      → violates (new_row kind key relays code) rows ≡ false
      → IsSettled (new_row kind key relays code) (rows ++ new_row kind key relays code ∷ [])
  inserted-IsSettled relays code rows h =
      let row = new_row kind key relays code in
      let by_code = select_short_url_by_code_on_db code rows in
      let by_entity = select_short_url_by_entity_on_db kind key rows in
      (
        refl,
        refl,
        by_code-append code rows row (absent_code by_code by_entity h) refl,
        by_entity-append kind key rows row (absent_entity by_code by_entity h) refl refl,
      )

  mint-IsSettled :
      (relays : List String) (attempts : List Attempt) (rows : List ShortUrl) (r : ShortUrl)
      → StaysUnique attempts rows
      → (mint kind key relays attempts rows).0 ≡ created r
      → IsSettled r (mint kind key relays attempts rows).1
  unfolding mint
  mint-IsSettled relays [] rows r h e = absurd (ground (arith, e))
  mint-IsSettled relays (a ∷ more) rows r h e =
      let here = rows ++ a.others in
      let row = new_row kind key relays (generate_short_code a.draws) in
      elim (Bool-cases (violates row here)) [
        | inr w ↦
            let same : row ≡ r = cc (rw w at e) in
            rw w (
              subst (λ x. IsSettled x (here ++ row ∷ [])) same
                (inserted-IsSettled relays (generate_short_code a.draws) here w))
        | inl w ↦ elim (Option-cases (select_short_url_by_entity_on_db kind key here)) [
          | inl none_yet ↦
              rw w (rw none_yet (mint-IsSettled relays more here r h.1 (rw (w, none_yet) at e)))
          | inr (other, found) ↦
              let same : other ≡ r = cc (rw (w, found) at e) in
              rw w (
                rw found (
                  found-IsSettled here r (unique_here more here h.1) (
                    subst (λ x. select_short_url_by_entity_on_db kind key here ≡ some x) same
                      found)))
        ]
      ]

  create-IsSettled :
      (relays : List String) (attempts : List Attempt) (rows : List ShortUrl) (r : ShortUrl)
      → StaysUnique (take max_generation_attempts attempts) rows
      → (create_short_url kind key relays attempts rows).0 ≡ created r
      → IsSettled r (create_short_url kind key relays attempts rows).1
  unfolding create_short_url
  create-IsSettled relays attempts rows r h e =
      elim (Option-cases (select_short_url_by_entity_on_db kind key rows)) [
        | inl none_yet ↦ rw none_yet (mint-IsSettled relays _ rows r h (rw none_yet at e))
        | inr (other, found) ↦
            let same : other ≡ r = cc (rw found at e) in
            rw found (
              found-IsSettled rows r (unique_here _ rows h)
                (subst (λ x. select_short_url_by_entity_on_db kind key rows ≡ some x) same found))
      ]

  again_lem :
      (relays : List String) (again : List Attempt) (after : List ShortUrl) (r : ShortUrl)
      → select_short_url_by_entity_on_db kind key after ≡ some r
      → create_short_url kind key relays again after ≡ (created r, after)
  unfolding create_short_url
  again_lem relays again after r found = rw found refl

  mint-IsNormal :
      (relays : List String) (attempts : List Attempt) (rows : List ShortUrl)
      → All IsNormal rows
      → OthersNormal attempts
      → All IsNormal (mint kind key relays attempts rows).1
  unfolding mint
  mint-IsNormal relays [] rows h others = h
  mint-IsNormal relays (a ∷ more) rows h others =
      let here = rows ++ a.others in
      let row = new_row kind key relays (generate_short_code a.draws) in
      let all_here : All IsNormal here = All-append IsNormal rows a.others h others.0 in
      elim (Bool-cases (violates row here)) [
        | inr w ↦
            rw w (All-append IsNormal here (row ∷ []) all_here (normalize-generate a.draws, tt))
        | inl w ↦ elim (Option-cases (select_short_url_by_entity_on_db kind key here)) [
          | inl none_yet ↦ rw w (rw none_yet (mint-IsNormal relays more here all_here others.1))
          | inr (other, found) ↦ rw w (rw found all_here)
        ]
      ]

  -- Creating a link keeps every code in its normal form.
  create-IsNormal :
      (relays : List String) (attempts : List Attempt) (rows : List ShortUrl)
      → All IsNormal rows
      → OthersNormal (take max_generation_attempts attempts)
      → All IsNormal (create_short_url kind key relays attempts rows).1
  unfolding create_short_url
  create-IsNormal relays attempts rows h others =
      elim (Option-cases (select_short_url_by_entity_on_db kind key rows)) [
        | inl none_yet ↦ rw none_yet (mint-IsNormal relays _ rows h others)
        | inr (other, found) ↦ rw found h
      ]

  -- Where the table keeps its codes unique, and the codes in it and those that others insert meanwhile are in
  -- their normal form: the link that is created is that of the entity; its code is in its normal form, as are
  -- all codes of the table after it; the code, in whatever spelling of the same normal form it is typed, gives
  -- the link; and creating a link for the entity again, with any relays, gives the same link and changes
  -- nothing.
  pub create_short_url_lem :
      (relays others : List String) (attempts again : List Attempt) (rows : List ShortUrl)
      (r : ShortUrl) (typed : Text)
      → StaysUnique (take max_generation_attempts attempts) rows
      → All IsNormal rows
      → OthersNormal (take max_generation_attempts attempts)
      → (create_short_url kind key relays attempts rows).0 ≡ created r
      → normalize_short_code typed ≡ normalize_short_code r.short_code
      → (r.kind ≡ kind)
        × (r.entity_key ≡ key)
        × IsNormal r
        × All IsNormal (create_short_url kind key relays attempts rows).1
        × (get_short_url_entity typed (create_short_url kind key relays attempts rows).1 ≡ some r)
        × (create_short_url kind key others again (create_short_url kind key relays attempts rows).1
            ≡ (created r, (create_short_url kind key relays attempts rows).1))
  unfolding get_short_url_entity
  create_short_url_lem relays others attempts again rows r typed h normal meanwhile e spelled =
      let after = (create_short_url kind key relays attempts rows).1 in
      let (of_kind, of_key, by_code, by_entity) = create-IsSettled relays attempts rows r h e in
      let kept : All IsNormal after = create-IsNormal relays attempts rows normal meanwhile in
      let own : IsNormal r = (by_entity-found IsNormal kind key after r kept by_entity).0 in
      (
        of_kind,
        of_key,
        own,
        kept,
        rw spelled (rw own by_code),
        again_lem others again after r by_entity,
      )
