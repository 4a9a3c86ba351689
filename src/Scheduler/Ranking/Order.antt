-- ===== src/Scheduler/Ranking/Order.antt =====
-- What `rank_overdue_candidates` of app/services/scheduler.py returns.
use brainstorm_server.Common.{
  ◌+◌, ◌≤◌, ◌<◌, ◌⊎◌, ltb, none, some, Bool, true, false, ◌&&◌, ◌≡◌, refl, ◌∙◌, Option, List, [],
  ◌∷◌, arith, Bool-cases, inl, inr, if◌then◌else◌,
}
use brainstorm_server.Table.Where.{All, select, count}
use brainstorm_server.Flash.{Datetime}
use brainstorm_server.Scheduler.Ranking.Eligible.{IsDecided, eligible-IsDecided}
use brainstorm_server.Scheduler.Ranking.{
  SchedulerCandidate, longer_overdue, outranks, insert_ranked, sort_ranked, is_eligible,
  rank_overdue_candidates,
}

-- Nobody is outranked by anyone behind them.
abbrev IsUnoutranked : List SchedulerCandidate → Type 0
IsUnoutranked [] = Unit
IsUnoutranked (c ∷ cs) = All (λ x. outranks x c ≡ false) cs × IsUnoutranked cs

longer_trans :
    (a b c : Option Datetime)
    → longer_overdue b a ≡ false
    → longer_overdue c b ≡ false
    → longer_overdue c a ≡ false
longer_trans a b c h k = ground arith

not_outranked_trans :
    (a b c : SchedulerCandidate)
    → outranks b a ≡ false
    → outranks c b ≡ false
    → outranks c a ≡ false
unfolding outranks
not_outranked_trans a b c h k =
    ground (arith, longer_trans a.last_published b.last_published c.last_published)

outranks-asym : (a b : SchedulerCandidate) → outranks a b ≡ true → outranks b a ≡ false
unfolding outranks
outranks-asym a b h = ground arith

All-weaken :
    (P Q : SchedulerCandidate → Type 0)
    → ((x : SchedulerCandidate) → P x → Q x)
    → (cs : List SchedulerCandidate) → All P cs
    → All Q cs
All-weaken P Q f [] h = tt
All-weaken P Q f (c ∷ cs) h = (f c h.0, All-weaken P Q f cs h.1)

All-insert :
    (P : SchedulerCandidate → Type 0) (c : SchedulerCandidate) (xs : List SchedulerCandidate)
    → P c
    → All P xs
    → All P (insert_ranked c xs)
unfolding insert_ranked
All-insert P c [] p h = (p, tt)
All-insert P c (x ∷ xs) p h = elim (Bool-cases (outranks x c)) [
  | inl e ↦ rw e (h.0, All-insert P c xs p h.1)
  | inr e ↦ rw e (p, (h.0, h.1))
]

insert-IsUnoutranked :
    (c : SchedulerCandidate) (xs : List SchedulerCandidate)
    → IsUnoutranked xs
    → IsUnoutranked (insert_ranked c xs)
unfolding insert_ranked
insert-IsUnoutranked c [] h = (tt, tt)
insert-IsUnoutranked c (x ∷ xs) h = elim (Bool-cases (outranks x c)) [
  | inl e ↦ rw e (
    All-insert (λ y. outranks y x ≡ false) c xs (outranks-asym x c e) h.0,
    insert-IsUnoutranked c xs h.1,
  )
  | inr e ↦ rw e (
    (
      e,
      All-weaken (λ y. outranks y x ≡ false) (λ y. outranks y c ≡ false)
          (λ y k. not_outranked_trans c x y e k) xs h.0,
    ),
    (h.0, h.1),
  )
]

sort-IsUnoutranked : (cs : List SchedulerCandidate) → IsUnoutranked (sort_ranked cs)
unfolding sort_ranked
sort-IsUnoutranked [] = tt
sort-IsUnoutranked (c ∷ cs) = insert-IsUnoutranked c (sort_ranked cs) (sort-IsUnoutranked cs)

module _ (test : SchedulerCandidate → Bool) where
  count-insert :
      (c : SchedulerCandidate) (xs : List SchedulerCandidate)
      → count test (insert_ranked c xs) ≡ (if test c then 1 else 0) + count test xs
  unfolding insert_ranked count
  count-insert c [] = ground arith
  count-insert c (x ∷ xs) = ground (arith, count-insert c xs)

  count-sort : (cs : List SchedulerCandidate) → count test (sort_ranked cs) ≡ count test cs
  unfolding sort_ranked count
  count-sort [] = refl
  count-sort (c ∷ cs) = ground (arith, count-insert c (sort_ranked cs), count-sort cs)

  count-select :
      (keep : SchedulerCandidate → Bool) (cs : List SchedulerCandidate)
      → count test (select keep cs) ≡ count (λ c. keep c && test c) cs
  unfolding select count
  count-select keep [] = refl
  count-select keep (c ∷ cs) = ground (arith, count-select keep cs)

-- Never published, or not later than the other was.
abbrev AtLeastAsOverdue : Option Datetime → Option Datetime → Type 0
AtLeastAsOverdue none b = Unit
AtLeastAsOverdue (some a) none = ⊥
AtLeastAsOverdue (some a) (some b) = a ≤ b

-- The first has the higher priority, or the same and is overdue for at least as long.
abbrev Before : SchedulerCandidate → SchedulerCandidate → Type 0
Before a b =
    (b.priority < a.priority)
    ⊎ ((a.priority ≡ b.priority) × AtLeastAsOverdue a.last_published b.last_published)

-- Each candidate is before all that stand behind.
abbrev pub IsRanked : List SchedulerCandidate → Type 0
IsRanked [] = Unit
IsRanked (c ∷ cs) = All (Before c) cs × IsRanked cs

not_longer : (a b : Option Datetime) → longer_overdue b a ≡ false → AtLeastAsOverdue a b
not_longer none b h = tt
not_longer (some a) none h = absurd (ground (arith, h))
not_longer (some a) (some b) h = ground (arith, h)

outranks-Before : (c x : SchedulerCandidate) → outranks x c ≡ false → Before c x
unfolding outranks
outranks-Before c x h = elim (Bool-cases (ltb x.priority c.priority)) [
  | inl e ↦ inl (ground (arith, e))
  | inr e ↦
      let same : c.priority ≡ x.priority = ground (arith, h, e) in
      let behind : longer_overdue x.last_published c.last_published ≡ false =
        ground (arith, h, e, same) in
      inr (same, not_longer c.last_published x.last_published behind)
]

IsUnoutranked-IsRanked : (cs : List SchedulerCandidate) → IsUnoutranked cs → IsRanked cs
IsUnoutranked-IsRanked [] h = tt
IsUnoutranked-IsRanked (c ∷ cs) h =
    (All-weaken _ _ (outranks-Before c) cs h.0, IsUnoutranked-IsRanked cs h.1)

all-IsDecided : (now : Datetime) (cs : List SchedulerCandidate) → All (IsDecided now) cs
all-IsDecided now [] = tt
all-IsDecided now (c ∷ cs) = (eligible-IsDecided now c, all-IsDecided now cs)

-- Each candidate in the ranking has a higher priority than any behind, or the same, and then was never
-- published or not later than the one behind. The ranking holds exactly the candidates that are enabled,
-- that were never published or at least their interval ago, and whose last failure, if any, is at least an
-- hour ago; each as often as it was given.
pub rank_lem :
    (candidates : List SchedulerCandidate) (now : Datetime)
    → IsRanked (rank_overdue_candidates candidates now)
      × All (IsDecided now) candidates
      × ((test : SchedulerCandidate → Bool)
          → count test (rank_overdue_candidates candidates now)
            ≡ count (λ c. is_eligible now c && test c) candidates)
unfolding rank_overdue_candidates
rank_lem candidates now = (
  IsUnoutranked-IsRanked _ (sort-IsUnoutranked (select (is_eligible now) candidates)),
  all-IsDecided now candidates,
  (λ test.
      count-sort test (select (is_eligible now) candidates)
      ∙ count-select test (is_eligible now) candidates),
)
