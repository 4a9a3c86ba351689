-- ===== src/Flash/Catalog/Cache/Outage.antt =====
-- The last known copy of app/core/flash_plan_cache.py through an outage of Flash.
use brainstorm_server.Common.{
  ℕ, ◌+◌, ◌≡◌, refl, String, Bool, true, false, none, some, str_eq_refl, ltb, if◌then◌else◌,
  Bool-cases, inl, inr,
}
use brainstorm_server.Flash.{Datetime}
use brainstorm_server.Flash.Parsing.{Fields, Library}
use brainstorm_server.Flash.Catalog.Reads.{plans_found}
use brainstorm_server.Flash.Catalog.Cache.{
  Cache, body, unreadable, plans_in, parsed_rows, load_fresh, load_last_good, store, refresh,
  read_service_plans,
}

module _ (lib : Library) (ttl : ℕ) (service_id : String) (b : Fields) where
  -- The cache after Flash has answered with a body.
  abbrev pub after_answer : Datetime → Cache → Cache
  after_answer earlier cache = store lib ttl true service_id (plans_in b) earlier cache

  last_good-kept :
      (earlier : Datetime) (cache : Cache)
      → load_last_good lib ttl true service_id (after_answer earlier cache)
        ≡ some (parsed_rows lib ttl true (plans_in b))
  unfolding load_last_good store
  last_good-kept earlier cache = rw (str_eq_refl service_id) refl

  refresh-kept :
      (earlier now : Datetime) (cache : Cache)
      → (refresh lib ttl true service_id now unreadable (after_answer earlier cache)).0
        ≡ plans_found (parsed_rows lib ttl true (plans_in b))
  unfolding refresh
  refresh-kept earlier now cache = rw (last_good-kept earlier cache) refl

  fresh_copy :
      (earlier now : Datetime) (cache : Cache)
      → (in_time : Bool) × (load_fresh lib ttl true service_id now (after_answer earlier cache)
          ≡ (if in_time then some (parsed_rows lib ttl true (plans_in b)) else none))
  unfolding load_fresh store
  fresh_copy earlier now cache = (ltb now (earlier + ttl), rw (str_eq_refl service_id) refl)

  -- Where Redis answers: once Flash has answered with the plans of a service, a later read that finds Flash
  -- unreadable gives the same plans, however long ago that was, and whether or not it asks for a fresh copy.
  pub read_service_plans-outage :
      (earlier now : Datetime) (fresh : Bool) (cache : Cache)
      → (read_service_plans lib ttl true service_id fresh now unreadable
          (read_service_plans lib ttl true service_id true earlier (body b) cache cache).1
          (read_service_plans lib ttl true service_id true earlier (body b) cache cache).1).0
        ≡ (read_service_plans lib ttl true service_id true earlier (body b) cache cache).0
  unfolding read_service_plans refresh
  read_service_plans-outage earlier now true cache = refresh-kept earlier now cache
  read_service_plans-outage earlier now false cache =
      let (in_time, e) = fresh_copy earlier now cache in
      elim (Bool-cases in_time) [
        | inl w ↦ rw e (rw w refl)
        | inr w ↦ rw e (rw w (refresh-kept earlier now cache))
      ]
