-- ===== src/Conditions.antt =====
-- internal/conditions/conditions.go: the conditions of a status. `FindStatusCondition` of the API
-- machinery is a parameter; times are already in UTC and are numbers.
pub mod Summary
use waycloak.Prelude.{
  ℕ, String, Bool, true, false, ◌&&◌, ◌==◌, List, [], ◌∷◌, Option, none, some, if◌then◌else◌,
}
use waycloak.Prelude.Int.{ℤ, eq_ℤ}
use waycloak.Prelude.Assoc.{lookup}

abbrev pub condition_true : String
condition_true = "True"

abbrev pub condition_unknown : String
condition_unknown = "Unknown"

pub record State : Type 0 where
  pub status : String
  pub reason : String
  pub message : String

-- `metav1.Condition`
pub record Condition : Type 0 where
  pub kind : String
  pub status : String
  pub reason : String
  pub message : String
  pub observed_generation : ℤ
  pub last_transition_time : ℕ

-- `Unknown`
abbrev pub unknown_state : String → State
unknown_state message = record {
  status = condition_unknown;
  reason = "ObservationUnavailable";
  message = message;
}

abbrev pub or_unknown : Option State → State
or_unknown (some s) = s
or_unknown none = unknown_state "Condition observation is unavailable"

-- The state that `Build` takes for a condition type.
abbrev pub state_of : List (String × State) → String → State
state_of states kind = or_unknown (lookup kind states)

-- The transition time that `Build` writes: the old one while the status stays.
abbrev pub transition_time : Option Condition → State → ℕ → ℕ
transition_time none s now = now
transition_time (some old) s now = if old.status == s.status then old.last_transition_time else now

module _ (find : List Condition → String → Option Condition) where
  abbrev pub condition_of : List Condition → ℤ → ℕ → List (String × State) → String → Condition
  condition_of previous generation now states kind = record {
    kind = kind;
    status = (state_of states kind).status;
    reason = (state_of states kind).reason;
    message = (state_of states kind).message;
    observed_generation = generation;
    last_transition_time = transition_time (find previous kind) (state_of states kind) now;
  }

  unfoldable pub build :
      List Condition → ℤ → ℕ → List String → List (String × State) → List Condition
  build previous generation now [] states = []
  build previous generation now (kind ∷ order) states =
      condition_of previous generation now states kind ∷ build previous generation now order states

  abbrev pub of_generation : ℤ → Option Condition → Option Condition
  of_generation generation none = none
  of_generation generation (some c) = if eq_ℤ c.observed_generation generation then some c else none

  unfoldable pub current : List Condition → String → ℤ → ℤ → Option Condition
  current values kind status_generation generation =
      if eq_ℤ status_generation generation
      then of_generation generation (find values kind)
      else none

  abbrev pub has_status_true : Option Condition → Bool
  has_status_true none = false
  has_status_true (some c) = c.status == condition_true

  unfoldable pub current_true : List Condition → String → ℤ → ℤ → Bool
  current_true values kind status_generation generation =
      has_status_true (current values kind status_generation generation)

abbrev pub summary_order : List String
summary_order = "Accepted" ∷ "ResolvedRefs" ∷ "Programmed" ∷ "Ready" ∷ []
