-- ===== src/Scheduler/Ranking/Eligible.antt =====
-- Who is eligible in app/services/scheduler.py, told by the fields of the candidate.
use brainstorm_server.Common.{
  ◌+◌, ◌*◌, ◌≤◌, ◌<◌, ◌≡◌, refl, ◌⊎◌, inl, inr, true, false, none, some, arith, Bool-cases,
  Option-cases, leb, ltb,
}
use brainstorm_server.Flash.{Datetime}
use brainstorm_server.Scheduler.Ranking.{
  SchedulerCandidate, second, is_overdue, in_retry_backoff, is_eligible,
}

-- Never published, or at least the interval ago.
abbrev pub IsDue : Datetime → SchedulerCandidate → Type 0
IsDue now c =
    (c.last_published ≡ none)
    ⊎ ((t : Datetime) × (c.last_published ≡ some t) × (t + c.interval_seconds * second ≤ now))

-- Never failed, or at least an hour ago.
abbrev pub IsRested : Datetime → SchedulerCandidate → Type 0
IsRested now c =
    (c.last_failed_at ≡ none)
    ⊎ ((t : Datetime) × (c.last_failed_at ≡ some t) × (t + 3600 * second ≤ now))

abbrev pub IsEligible : Datetime → SchedulerCandidate → Type 0
IsEligible now c = (c.enabled ≡ true) × IsDue now c × IsRested now c

-- Disabled, or published less than the interval ago, or failed less than an hour ago.
abbrev pub IsIneligible : Datetime → SchedulerCandidate → Type 0
IsIneligible now c =
    (c.enabled ≡ false)
    ⊎ (((t : Datetime) × (c.last_published ≡ some t) × (now < t + c.interval_seconds * second))
        ⊎ ((t : Datetime) × (c.last_failed_at ≡ some t) × (now < t + 3600 * second)))

-- The program's test tells the two apart.
abbrev pub IsDecided : Datetime → SchedulerCandidate → Type 0
IsDecided now c =
    ((is_eligible now c ≡ true) × IsEligible now c)
    ⊎ ((is_eligible now c ≡ false) × IsIneligible now c)

IsDue-cases :
    (now : Datetime) (c : SchedulerCandidate)
    → ((is_overdue c now ≡ true) × IsDue now c)
      ⊎ ((is_overdue c now ≡ false)
          × ((t : Datetime) × (c.last_published ≡ some t)
              × (now < t + c.interval_seconds * second)))
unfolding is_overdue
IsDue-cases now c = elim (Option-cases c.last_published) [
  | inl e ↦ inl (rw e refl, inl e)
  | inr (t, e) ↦ elim (Bool-cases (leb (t + c.interval_seconds * second) now)) [
    | inl h ↦ inl (rw e h, inr (t, e, ground (arith, h)))
    | inr h ↦ inr (rw e h, (t, e, ground (arith, h)))
  ]
]

IsRested-cases :
    (now : Datetime) (c : SchedulerCandidate)
    → ((in_retry_backoff c now 3600 ≡ false) × IsRested now c)
      ⊎ ((in_retry_backoff c now 3600 ≡ true)
          × ((t : Datetime) × (c.last_failed_at ≡ some t) × (now < t + 3600 * second)))
unfolding in_retry_backoff
IsRested-cases now c = elim (Option-cases c.last_failed_at) [
  | inl e ↦ inl (rw e refl, inl e)
  | inr (t, e) ↦ elim (Bool-cases (ltb now (t + 3600 * second))) [
    | inl h ↦ inr (rw e h, (t, e, ground (arith, h)))
    | inr h ↦ inl (rw e h, inr (t, e, ground (arith, h)))
  ]
]

pub eligible-IsDecided : (now : Datetime) (c : SchedulerCandidate) → IsDecided now c
unfolding is_eligible
eligible-IsDecided now c = elim (Bool-cases c.enabled) [
  | inr e ↦ inr (rw e refl, inl e)
  | inl e ↦ elim (IsDue-cases now c) [
    | inr (d, late) ↦ inr (ground (arith, e, d), inr (inl late))
    | inl (d, due) ↦ elim (IsRested-cases now c) [
      | inr (b, failed) ↦ inr (ground (arith, e, d, b), inr (inr failed))
      | inl (b, rested) ↦ inl (ground (arith, e, d, b), (e, due, rested))
    ]
  ]
]
