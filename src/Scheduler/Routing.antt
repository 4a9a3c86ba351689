-- ===== src/Scheduler/Routing.antt =====
-- app/services/scheduler_lanes.py: the Redis queue that a request goes to. A priority is not negative.
use brainstorm_server.Common.{ℕ, String, Bool, Option, none, some, str_eq, if◌then◌else◌, ◌++◌}
use brainstorm_server.Common.Text.{Text, codes}
use brainstorm_server.SelfMap.Keys.{str_of}

abbrev pub default_lane : Text
default_lane = codes "message_queue"

abbrev pub lane_admin : Text
lane_admin = codes "sched:admin"

abbrev pub lane_house : Text
lane_house = codes "sched:house"

abbrev pub scheduled_lane : ℕ → Text
scheduled_lane priority = codes "sched:" ++ str_of priority

abbrev pub priority_of : Option ℕ → ℕ
priority_of none = 0
priority_of (some priority) = priority

-- `scheduling` is the priority of the policy that the user holds.
unfoldable pub resolve_scheduler_lane : Bool → String → Option ℕ → Text
resolve_scheduler_lane scheduler_enabled trigger_source scheduling =
    if scheduler_enabled
    then (if str_eq trigger_source "admin"
        then lane_admin
        else if str_eq trigger_source "periodic"
        then lane_house
        else if str_eq trigger_source "scheduled"
        then scheduled_lane (priority_of scheduling)
        else default_lane)
    else default_lane
