-- ===== src/Conditions/Summary.antt =====
-- What a reader of a status finds in the conditions that `Build` wrote.
use waycloak.Prelude.{
  ℕ, String, true, false, ◌==◌, ◌≡◌, refl, ◌∙◌, List, [], ◌∷◌, Option, none, some, if◌then◌else◌,
  contains, eq_iff, arith,
}
use waycloak.Prelude.Int.{ℤ, eq_ℤ, eq_ℤ_iff}
use waycloak.Conditions.{
  State, Condition, condition_true, build, condition_of, state_of, transition_time, current,
  current_true,
}

-- The documented behaviour of `FindStatusCondition`: the first condition of the type.
abbrev pub FindsFirst : (List Condition → String → Option Condition) → Type 0
FindsFirst find =
    ((kind : String) → find [] kind ≡ none)
    × ((c : Condition) (cs : List Condition) (kind : String)
        → find (c ∷ cs) kind ≡ (if c.kind == kind then some c else find cs kind))

module _ (find : List Condition → String → Option Condition) (first : FindsFirst find) where
  -- A condition type of the order is found with the condition computed for it.
  pub find-build :
      (previous : List Condition) (generation : ℤ) (now : ℕ) (order : List String)
      (states : List (String × State)) (kind : String)
      → find (build find previous generation now order states) kind ≡ (
          if contains order kind
          then some (condition_of find previous generation now states kind)
          else none)
  unfolding build
  find-build previous generation now [] states kind = first.0 kind
  find-build previous generation now (k ∷ order) states kind =
      first.1 (condition_of find previous generation now states k)
        (build find previous generation now order states) kind
      ∙ ground (arith, eq_iff k kind, find-build previous generation now order states kind)

  -- In a status built for `generation` and read for `wanted`, a condition type of the order counts
  -- as true exactly when the generations agree and its supplied state has status True; a type
  -- without a supplied state does not.
  pub current_true-build :
      (previous : List Condition) (generation wanted : ℤ) (now : ℕ) (order : List String)
      (states : List (String × State)) (kind : String)
      → contains order kind ≡ true
      → current_true find (build find previous generation now order states) kind generation wanted
        ≡ (if eq_ℤ generation wanted
            then (state_of states kind).status == condition_true
            else false)
  unfolding current_true current
  current_true-build previous generation wanted now order states kind h =
      rw (find-build previous generation now order states kind, h)
        (ground (arith, eq_ℤ_iff generation wanted))

  -- A status built from an earlier one built at `now`: for a condition type of both orders, the
  -- transition time of the earlier one is kept when the status is the same, and is the later
  -- clock's otherwise, whatever reason, message and generation do.
  pub build-Retained :
      (previous : List Condition) (g g' : ℤ) (now later : ℕ) (order order' : List String)
      (states states' : List (String × State)) (kind : String)
      → contains order kind ≡ true
      → contains order' kind ≡ true
      → find (build find (build find previous g now order states) g' later order' states') kind
        ≡ some (record {
          kind = kind;
          status = (state_of states' kind).status;
          reason = (state_of states' kind).reason;
          message = (state_of states' kind).message;
          observed_generation = g';
          last_transition_time =
              if (state_of states kind).status == (state_of states' kind).status
              then transition_time (find previous kind) (state_of states kind) now
              else later;
        })
  build-Retained previous g g' now later order order' states states' kind h h' =
      rw
        (
          find-build (build find previous g now order states) g' later order' states' kind,
          h',
          find-build previous g now order states kind,
          h,
        )
        refl
