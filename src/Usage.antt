-- ===== src/Usage.antt =====
-- crates/central/src/usage.rs: the daily counters of each user. A date is a number of days since
-- the epoch. The counters are added to as integers, which holds below 2^63.
pub mod Reserve
pub mod Count
pub mod Increment
use oidc_agent_compat.Prelude.{
  ℕ, ◌*◌, ◌/◌, String, ◌==◌, Bool, true, false, ◌&&◌, Option, none, some, List, [], ◌∷◌, ◌++◌, find,
  any, select, update, eqb, if◌then◌else◌,
}
use oidc_agent_compat.Prelude.Int.{ℤ, pos, ◌+ℤ◌, ◌-ℤ◌, leb_ℤ, ltb_ℤ}
use oidc_agent_compat.Error.{Error}
use oidc_agent_compat.Entity.{UsageCounter}
use oidc_agent_compat.External.{External}
use oidc_agent_compat.World.{World, Exec, pure, ◌>>=◌, ◌>>◌, query, execute, write, new_v4, second}

abbrev pub period_daily : String
period_daily = "daily"

-- `today_date`
abbrev pub today : World → ℕ
today w = w.now / (86_400 * second)

-- the row of the unique index `(user_subject, period_date, period_kind)`
abbrev pub is_current : String → World → UsageCounter → Bool
is_current user_subject w r =
    r.user_subject == user_subject && (eqb r.period_date (today w) && r.period_kind == period_daily)

abbrev pub new_counter :
    String → String → Option String → World → (requests tokens : ℤ) → ℕ → UsageCounter
new_counter id user_subject group_name w requests tokens cost = record {
  id = id;
  user_subject = user_subject;
  group_name = group_name;
  period_date = today w;
  period_kind = period_daily;
  request_count = requests;
  token_count = tokens;
  cost_usd = cost;
}

-- `INSERT … ON CONFLICT … DO UPDATE`: the rows in conflict are updated, or the new row is added.
abbrev pub upsert :
    (UsageCounter → Bool) → (UsageCounter → UsageCounter) → UsageCounter → World → World
upsert current change new w = record w {
  usage_counters =
      if any current w.usage_counters
      then update current change w.usage_counters
      else w.usage_counters ++ new ∷ [];
}

unfoldable pub increment : External → String → Option String → ℤ → ℤ → ℕ → Exec Error (Unit {0})
increment x user_subject group_name request_count_delta token_count_delta cost_delta = do
  id ← new_v4
  let cost = x.as_f32 cost_delta
  write "usage increment" (λ w.
      upsert (is_current user_subject w)
        (λ r. record r {
          group_name = group_name;
          request_count = r.request_count +ℤ request_count_delta;
          token_count = r.token_count +ℤ token_count_delta;
          cost_usd = x.add_cost r.cost_usd cost;
        })
        (new_counter id user_subject group_name w request_count_delta token_count_delta cost) w)

abbrev pub reserve_one : Option String → UsageCounter → UsageCounter
reserve_one group_name r = record r {
  group_name = group_name;
  request_count = r.request_count +ℤ pos 1;
}

-- `… ON CONFLICT … DO UPDATE SET … WHERE request_count < $6`: the index is unique, so the row in
-- conflict is the one that a search finds. The answer is `rows_affected() > 0`.
abbrev pub reserve_row : String → String → Option String → ℤ → World → Bool × World
reserve_row id user_subject group_name quota w =
    elim (find (is_current user_subject w) w.usage_counters) [
      | none ↦ (
        true,
        record w {
          usage_counters =
              w.usage_counters ++ new_counter id user_subject group_name w (pos 1) (pos 0) 0 ∷ [];
        },
      )
      | some r ↦
          if ltb_ℤ r.request_count quota
          then (
            true,
            record w {
              usage_counters =
                  update (is_current user_subject w) (reserve_one group_name) w.usage_counters;
            },
          )
          else (false, w)
    ]

unfoldable pub try_reserve_request : String → Option String → ℤ → Exec Error Bool
try_reserve_request user_subject group_name daily_request_quota =
    if leb_ℤ daily_request_quota (pos 0) then pure false else do
      id ← new_v4
      execute "reserve usage request" (reserve_row id user_subject group_name daily_request_quota)

abbrev pub release_one : UsageCounter → UsageCounter
release_one r = record r { request_count = r.request_count -ℤ pos 1 }

abbrev pub released : String → World → World
released user_subject w = record w {
  usage_counters =
      update (λ r. is_current user_subject w r && ltb_ℤ (pos 0) r.request_count) release_one
        w.usage_counters;
}

unfoldable pub release_request : String → Exec Error (Unit {0})
release_request user_subject = write "release usage request" (released user_subject)

-- A snapshot is the row without its id.
unfoldable pub get_usage : String → Exec Error (Option UsageCounter)
get_usage user_subject = query "get usage" (λ w. find (is_current user_subject w) w.usage_counters)

unfoldable pub get_all_usage : Exec Error (List UsageCounter)
get_all_usage = query "get all usage" (λ w.
    select (λ r. eqb r.period_date (today w) && r.period_kind == period_daily) w.usage_counters)
