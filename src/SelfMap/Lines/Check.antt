-- ===== src/SelfMap/Lines/Check.antt =====
-- What `evaluate_self_map` of app/services/self_map_build.py lists for a reader's Map.
use brainstorm_server.Common.{
  ◌≡◌, refl, ap, subst, inl, inr, true, Option, none, some, List, [], ◌∷◌, arith, Bool-cases,
  Option-cases, All, In, str_eq,
}
use brainstorm_server.Common.Text.{Text, text_eq, text_eq→eq}
use brainstorm_server.SelfMap.Keys.{
  Scope, all, metric, concept, unchecked, other, Key, Probe, scope_eq, probe_eq, score_kind,
  parse_key, winner_of,
}
use brainstorm_server.SelfMap.Duties.{
  Tag, Group, Duty, add_to_group, note_entry, note_tag, groups_from, map_groups, is_hex64, lower,
  is_published_metric,
}
use brainstorm_server.SelfMap.Offer.{
  OfferRow, ScoresUpkeep, answer, live_score, live_by, evaluate_live,
}
use brainstorm_server.SelfMap.Listing.{Entry, entry_key, live_of, is_live_at}
use brainstorm_server.SelfMap.Listing.Claims.{IsParsed}
use brainstorm_server.SelfMap.Listing.Truthful.{
  build_should_say-IsTruthful, IsTruthful-winner, IsOffered,
}
use brainstorm_server.SelfMap.Lines.{lives_of, probes, duties, lives, should}

abbrev Groups : List Group → Type 0
Groups = All (λ g. IsParsed g.key)

add_to_group-parsed :
    (k : Key) (who : Text) (gs : List Group)
    → IsParsed k
    → Groups gs
    → Groups (add_to_group k who gs)
unfolding add_to_group
add_to_group-parsed k who [] p h = (p, tt)
add_to_group-parsed k who (g ∷ gs) p h = elim (Bool-cases (text_eq g.key.norm k.norm)) [
  | inl e ↦ rw e h
  | inr e ↦ rw e (h.0, add_to_group-parsed k who gs p h.1)
]

note_entry-parsed :
    (key who : Text) (o : Option Key) (gs : List Group)
    → parse_key key ≡ o
    → Groups gs
    → Groups (note_entry o who gs)
note_entry-parsed key who none gs e h = h
note_entry-parsed key who (some k) gs e h = elim (Bool-cases (is_hex64 who)) [
  | inl t ↦ rw t (add_to_group-parsed k (lower who) gs (key, e) h)
  | inr t ↦ rw t h
]

note_tag-parsed : (t : Tag) (gs : List Group) → Groups gs → Groups (note_tag t gs)
note_tag-parsed (some (some key ∷ some who ∷ more)) gs h =
    note_entry-parsed key who (parse_key key) gs refl h
note_tag-parsed none gs h = h
note_tag-parsed (some []) gs h = h
note_tag-parsed (some (none ∷ more)) gs h = h
note_tag-parsed (some (some key ∷ [])) gs h = h
note_tag-parsed (some (some key ∷ none ∷ more)) gs h = h

groups_from-parsed : (ts : List Tag) (gs : List Group) → Groups gs → Groups (groups_from ts gs)
unfolding groups_from
groups_from-parsed [] gs h = h
groups_from-parsed (t ∷ ts) gs h = groups_from-parsed ts (note_tag t gs) (note_tag-parsed t gs h)

scope_eq→eq : (s t : Scope) → scope_eq s t ≡ true → s ≡ t
scope_eq→eq all all h = refl
scope_eq→eq (metric s) (metric t) h = ap metric (text_eq→eq s t h)
scope_eq→eq (concept s) (concept t) h = ap concept (text_eq→eq s t h)
scope_eq→eq (unchecked s) (unchecked t) h = ap unchecked (text_eq→eq s t h)
scope_eq→eq other other h = refl
scope_eq→eq s t h = cc

probe_eq→eq : (p q : Probe) → probe_eq p q ≡ true → p ≡ q
probe_eq→eq p q h =
    let kind : p.kind ≡ q.kind = ground arith in
    let scope : p.scope ≡ q.scope = scope_eq→eq p.scope q.scope (ground arith) in ground arith

-- What the dict of what is live says of a probe is so.
live_of-lives :
    (offer : List OfferRow) (scores : ScoresUpkeep) (relay : Text) (ps : List Probe) (p : Probe)
    → is_live_at relay (live_of (lives_of offer scores ps) p) ≡ true
    → is_live_at relay (some (evaluate_live p offer scores)) ≡ true
unfolding live_of
live_of-lives offer scores relay [] p h = cc
live_of-lives offer scores relay (q ∷ qs) p h = elim (Bool-cases (probe_eq q p)) [
  | inl e ↦
      subst (λ t. is_live_at relay (some (evaluate_live t offer scores)) ≡ true) (probe_eq→eq q p e)
        (rw e at h)
  | inr e ↦ live_of-lives offer scores relay qs p (rw e at h)
]

-- A published Score whose upkeep is live, at the relay of the row that answers it.
abbrev pub IsLiveScore : Probe → List OfferRow → ScoresUpkeep → Text → Type 0
IsLiveScore p offer scores relay =
    (p.kind ≡ score_kind)
    × (is_published_metric p.scope ≡ true)
    × (str_eq scores.status "live" ≡ true)
    × ((row : OfferRow) × (answer offer p ≡ some row) × (text_eq row.relay relay ≡ true))

live_by-score :
    (p : Probe) (scores : ScoresUpkeep) (row : OfferRow) (relay : Text)
    → is_live_at relay (some (live_by p scores (some row))) ≡ true
    → (p.kind ≡ score_kind)
      × (is_published_metric p.scope ≡ true)
      × (str_eq scores.status "live" ≡ true)
      × (text_eq row.relay relay ≡ true)
unfolding live_by live_score
live_by-score p scores row relay h = (ground arith, ground arith, ground arith, ground arith)

live_row :
    (p : Probe) (offer : List OfferRow) (scores : ScoresUpkeep) (relay : Text)
    → is_live_at relay (some (evaluate_live p offer scores)) ≡ true
    → IsLiveScore p offer scores relay
unfolding live_by
live_row p offer scores relay h = elim (Option-cases (answer offer p)) [
  | inl e ↦ cc (rw e at h)
  | inr (row, e) ↦
      let (kind, published, live, here) = live_by-score p scores row relay (rw e at h) in
      (kind, published, live, (row, e, here))
]

module _ (tags : List Tag) (assistant : Text) (scores : ScoresUpkeep) (offer : List OfferRow) where
  -- Whatever the reader's Map says: where a self-entry that is listed has a part that is the
  -- Assistant's duty, that part is one of the published Scores, the Scores are live, and the entry
  -- names the relay that the offer gives this part, and that it gives the key as a whole.
  pub should-claims_live :
      (d : Duty) (e : Entry)
      → In d (duties (map_groups tags) assistant scores offer)
      → d.duty ≡ true
      → winner_of entry_key (should (map_groups tags) assistant scores offer) d.probe ≡ some e
      → IsLiveScore d.probe offer scores e.1
        × IsOffered
            (lower assistant)
            (duties (map_groups tags) assistant scores offer)
            (lives (map_groups tags) assistant scores offer)
            offer
            e
  unfolding map_groups
  should-claims_live d e i duty won =
      let parsed : Groups (map_groups tags) = groups_from-parsed tags [] tt in
      let ds = duties (map_groups tags) assistant scores offer in
      let live = lives (map_groups tags) assistant scores offer in
      let (here, offered) =
        IsTruthful-winner (lower assistant) ds live offer _ d e
          (build_should_say-IsTruthful (lower assistant) ds live offer (map_groups tags) parsed) i
          duty won in
      (
        live_row d.probe offer scores e.1 (
            live_of-lives offer scores e.1 (probes (map_groups tags) assistant scores offer) d.probe
              here),
        offered,
      )
