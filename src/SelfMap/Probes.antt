-- ===== src/SelfMap/Probes.antt =====
-- The probes of app/services/self_map_build.py: a finite set of insights that stands for all.
use brainstorm_server.Common.{
  ℕ, Bool, false, not, ◌&&◌, ◌||◌, List, [], ◌∷◌, ◌++◌, ◌==◌, if◌then◌else◌,
}
use brainstorm_server.Common.Text.{Text, codes, is_in_text}
use brainstorm_server.SelfMap.Keys.{
  Scope, metric, concept, unchecked, other, Key, Probe, probe_eq, has_kind, score_kind, score_kinds,
  list_kinds, concept_kinds, is_score_kind, is_list_kind, is_concept_kind,
}

-- `TA_METRIC_TAGS` of app/message_queue_tasks/ta_signing.py.
abbrev pub published_score_metrics : List Text
published_score_metrics =
    codes "rank" ∷ codes "followers" ∷ codes "reporters" ∷ codes "muters" ∷ codes "hops" ∷ []

abbrev pub has_probe : Probe → List Probe → Bool
has_probe p [] = false
has_probe p (q ∷ qs) = probe_eq p q || has_probe p qs

-- `out.setdefault(probe)` of a dict, which keeps the order of insertion.
unfoldable pub add_probe : Probe → List Probe → List Probe
add_probe p out = if has_probe p out then out else out ++ p ∷ []

abbrev pub probe : ℕ → Scope → Probe
probe kind scope = record { kind = kind; scope = scope }

-- The metrics of one Score kind that the keys name, behind the published ones.
abbrev note_metric : ℕ → List ℕ → Scope → List Text → List Text
note_metric kind kinds (metric s) metrics =
    if has_kind kind kinds && not (is_in_text s metrics) then metrics ++ s ∷ [] else metrics
note_metric kind kinds _ metrics = metrics

unfoldable pub metrics_from : ℕ → List Key → List Text → List Text
metrics_from kind [] metrics = metrics
metrics_from kind (k ∷ ks) metrics = metrics_from kind ks (note_metric kind k.kinds k.scope metrics)

unfoldable pub metrics_of : ℕ → List Key → List Text
metrics_of kind keys =
    metrics_from kind keys (if kind == score_kind then published_score_metrics else [])

unfoldable pub add_metrics : ℕ → List Text → List Probe → List Probe
add_metrics kind [] out = out
add_metrics kind (s ∷ ss) out = add_metrics kind ss (add_probe (probe kind (metric s)) out)

unfoldable pub score_probes : List Key → List ℕ → List Probe → List Probe
score_probes keys [] out = out
score_probes keys (kind ∷ kinds) out =
    score_probes keys kinds
      (add_probe (probe kind other) (add_metrics kind (metrics_of kind keys) out))

unfoldable pub other_probes : List ℕ → List Probe → List Probe
other_probes [] out = out
other_probes (kind ∷ kinds) out = other_probes kinds (add_probe (probe kind other) out)

abbrev add_concept : ℕ → List ℕ → Scope → List Probe → List Probe
add_concept kind kinds (concept d) out =
    if has_kind kind kinds then add_probe (probe kind (concept d)) out else out
add_concept kind kinds _ out = out

unfoldable pub concepts_named : ℕ → List Key → List Probe → List Probe
concepts_named kind [] out = out
concepts_named kind (k ∷ ks) out = concepts_named kind ks (add_concept kind k.kinds k.scope out)

unfoldable pub concept_probes : List Key → List ℕ → List Probe → List Probe
concept_probes keys [] out = out
concept_probes keys (kind ∷ kinds) out =
    concept_probes keys kinds (add_probe (probe kind other) (concepts_named kind keys out))

unfoldable pub unchecked_kinds : Text → List ℕ → List Probe → List Probe
unchecked_kinds norm [] out = out
unchecked_kinds norm (kind ∷ kinds) out =
    unchecked_kinds norm kinds (add_probe (probe kind (unchecked norm)) out)

abbrev add_unchecked : Key → Scope → List Probe → List Probe
add_unchecked k (unchecked s) out = unchecked_kinds k.norm k.kinds out
add_unchecked k _ out = out

unfoldable pub unread_kinds : List ℕ → List Probe → List Probe
unread_kinds [] out = out
unread_kinds (kind ∷ kinds) out = unread_kinds kinds (
    if is_score_kind kind || (is_list_kind kind || is_concept_kind kind)
    then out
    else add_probe (probe kind other) out)

unfoldable pub key_probes : List Key → List Probe → List Probe
key_probes [] out = out
key_probes (k ∷ ks) out = key_probes ks (unread_kinds k.kinds (add_unchecked k k.scope out))

unfoldable pub build_probes : List Key → List Probe
build_probes keys =
    key_probes keys (
      concept_probes keys concept_kinds
        (other_probes list_kinds (score_probes keys score_kinds [])))
