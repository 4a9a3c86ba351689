-- ===== src/Flash/Catalog/Cache/Apart.antt =====
-- Services are apart in the cache of app/core/flash_plan_cache.py.
use brainstorm_server.Common.{
  ℕ, ◌≡◌, refl, ◌∙◌, String, Bool, false, List, [], ◌∷◌, str_eq, All, Bool-cases, Option-cases, inl,
  inr, ◌⊎◌, In, none, some,
}
use brainstorm_server.Flash.{Datetime}
use brainstorm_server.Flash.Parsing.{Library}
use brainstorm_server.Flash.Catalog.Reads.{
  PlansRead, credentials_refused, Found, put_read, read_services_from,
}
use brainstorm_server.Flash.Catalog.Reads.Offers.{OwnOffers, read_services-OwnOffers}
use brainstorm_server.Flash.Catalog.Cache.{
  Cache, ServiceAnswer, body, unreadable, missing, refused, load_fresh, load_last_good, store,
  refresh, read_service_plans, read_services_cached, plans_in,
}

-- No service is named twice.
abbrev pub Distinct : List String → Type 0
Distinct [] = Unit
Distinct (s ∷ ss) = All (λ t. str_eq t s ≡ false) ss × Distinct ss

-- The two caches have the same entries for the service.
abbrev Agree : Cache → Cache → String → Type 0
Agree c d t = (c.fresh t ≡ d.fresh t) × (c.last_good t ≡ d.last_good t)

module _ (lib : Library) (ttl : ℕ) (up : Bool) (now : Datetime) where
  store-Agree :
      (s t : String) (rows : List _) (cache : Cache)
      → str_eq t s ≡ false
      → Agree (store lib ttl up s rows now cache) cache t
  unfolding store
  store-Agree s t rows cache apart = elim (Bool-cases up) [
    | inl e ↦ rw e (rw apart (refl, refl))
    | inr e ↦ rw e (refl, refl)
  ]

  refresh-Agree :
      (s t : String) (answer : ServiceAnswer) (cache : Cache)
      → str_eq t s ≡ false
      → Agree (refresh lib ttl up s now answer cache).1 cache t
  unfolding refresh
  refresh-Agree s t (body b) cache apart = store-Agree s t (plans_in b) cache apart
  refresh-Agree s t unreadable cache apart = (refl, refl)
  refresh-Agree s t missing cache apart = (refl, refl)
  refresh-Agree s t refused cache apart = (refl, refl)

  read-Agree :
      (s t : String) (answer : ServiceAnswer) (cache : Cache)
      → str_eq t s ≡ false
      → Agree (read_service_plans lib ttl up s false now answer cache cache).1 cache t
  unfolding read_service_plans
  read-Agree s t answer cache apart = elim (Option-cases (load_fresh lib ttl up s now cache)) [
    | inl e ↦ rw e ((refresh-Agree s t answer cache apart))
    | inr (plans, e) ↦ rw e (refl, refl)
  ]

  refresh-same :
      (s : String) (answer : ServiceAnswer) (c d : Cache)
      → Agree c d s
      → (refresh lib ttl up s now answer c).0 ≡ (refresh lib ttl up s now answer d).0
  unfolding refresh load_last_good
  refresh-same s (body b) c d h = refl
  refresh-same s unreadable c d h = rw h.1 refl
  refresh-same s missing c d h = refl
  refresh-same s refused c d h = refl

  fresh-same :
      (s : String) (c d : Cache)
      → Agree c d s
      → load_fresh lib ttl up s now c ≡ load_fresh lib ttl up s now d
  unfolding load_fresh
  fresh-same s c d h = rw h.0 refl

  -- What a read of the service gives depends on its own entries only.
  read-same :
      (s : String) (answer : ServiceAnswer) (c d : Cache)
      → Agree c d s
      → (read_service_plans lib ttl up s false now answer c c).0
        ≡ (read_service_plans lib ttl up s false now answer d d).0
  unfolding read_service_plans
  read-same s answer c d h =
      let same : load_fresh lib ttl up s now c ≡ load_fresh lib ttl up s now d =
        fresh-same s c d h in
      elim (Option-cases (load_fresh lib ttl up s now d)) [
        | inl e ↦ rw same (rw e (refresh-same s answer c d h))
        | inr (plans, e) ↦ rw same (rw e refl)
      ]

  Agree-after :
      (s t : String) (answer : ServiceAnswer) (c d : Cache)
      → str_eq t s ≡ false
      → Agree c d t
      → Agree (read_service_plans lib ttl up s false now answer c c).1 d t
  Agree-after s t answer c d apart (fresh, last) =
      let (same_fresh, same_last) = read-Agree s t answer c apart in
      (same_fresh ∙ fresh, same_last ∙ last)

  Agree-all :
      (s : String) (answer : ServiceAnswer) (c d : Cache) (ts : List String)
      → All (λ t. str_eq t s ≡ false) ts
      → All (Agree c d) ts
      → All (Agree (read_service_plans lib ttl up s false now answer c c).1 d) ts
  Agree-all s answer c d [] apart h = tt
  Agree-all s answer c d (t ∷ ts) apart h =
      (Agree-after s t answer c d apart.0 h.0, Agree-all s answer c d ts apart.1 h.1)

  module _ (ask : String → ServiceAnswer) (start : Cache) where
    -- What a read of one service gives on the cache as it is at the start.
    abbrev pub alone : String → PlansRead
    alone s = (read_service_plans lib ttl up s false now (ask s) start start).0

    cached-apart :
        (ss : List String) (so_far : Found) (cache : Cache)
        → Distinct ss
        → All (Agree cache start) ss
        → read_services_cached lib ttl up now ask ss so_far cache
          ≡ read_services_from alone ss so_far
    unfolding read_services_cached read_services_from
    cached-apart [] so_far cache distinct h = refl
    cached-apart (s ∷ ss) so_far cache (apart, distinct) (here, h) =
        let same = read-same s (ask s) cache start here in
        elim (Option-cases (put_read s (alone s) so_far)) [
          | inl e ↦ rw same (rw e refl)
          | inr (more, e) ↦
              rw same (
                rw e (cached-apart ss more _ distinct (Agree-all s (ask s) cache start ss apart h)))
        ]

    itself-Agree : (ts : List String) → All (Agree start start) ts
    itself-Agree [] = tt
    itself-Agree (t ∷ ts) = ((refl, refl), itself-Agree ts)

    -- Where no service is named twice, and the services are read one after the other through the cache: Flash
    -- refuses our credentials at a service's own read, and nothing is given; or the plans are given, and under
    -- each service that is named and each id stands the plan that this service's own read has under the id,
    -- taken alone and on the cache as it was at the start: the last of that id, and none where the read fails;
    -- under any other service stands nothing.
    pub read_services_cached-apart :
        (ss : List String)
        → Distinct ss
        → ((s : String) × In s ss
            × (alone s ≡ credentials_refused)
            × (read_services_cached lib ttl up now ask ss [] start ≡ none))
          ⊎ ((plans : Found) × (read_services_cached lib ttl up now ask ss [] start ≡ some plans)
              × OwnOffers alone ss plans)
    read_services_cached-apart ss distinct =
        let same : read_services_cached lib ttl up now ask ss [] start
            ≡ read_services_from alone ss [] =
          cached-apart ss [] start distinct (itself-Agree ss) in
        elim (read_services-OwnOffers alone ss) [
          | inl (s, i, refusal, stop) ↦ inl (s, i, refusal, same ∙ stop)
          | inr (plans, h, own) ↦ inr (plans, same ∙ h, own)
        ]
