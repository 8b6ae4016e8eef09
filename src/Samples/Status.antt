-- ===== src/Samples/Status.antt =====
-- The conditions of a ready route and a Pod enrolled in it, and the theorems at them.
use waycloak.Prelude.{
  ℕ, String, true, false, ◌==◌, ◌≡◌, refl, List, [], ◌∷◌, Option, none, some, if◌then◌else◌,
}
use waycloak.Prelude.Int.{pos}
use waycloak.Exec.{Err, ok, Traced, ◌>>=◌, perform, attempt, wrapping, lift, pure}
use waycloak.Prelude.Assoc.{lookup}
use waycloak.Conditions.{State, Condition, condition_true, build, current_true, summary_order}
use waycloak.Conditions.Summary.{FindsFirst, current_true-build, build-Retained}
use waycloak.Enrollment.{
  Pod, Route, Resolution, Reader, Call, route_label, resolve, resolve_label, resolve_route,
  check_conditions, check_condition,
}
use waycloak.Enrollment.Evidence.{Evidence, resolve_ready}

abbrev first_of : List Condition → String → Option Condition
first_of [] kind = none
first_of (c ∷ cs) kind = if c.kind == kind then some c else first_of cs kind

first_of-FindsFirst : FindsFirst first_of
first_of-FindsFirst = (λ kind. refl, λ c cs kind. refl)

abbrev good : State
good = record { status = condition_true; reason = "Ready"; message = "" }

abbrev states : List (String × State)
states = ("Accepted", good) ∷ ("ResolvedRefs", good) ∷ ("Programmed", good) ∷ ("Ready", good) ∷ []

current_true-build_example :
    current_true first_of
      (build first_of [] (pos 3) 10 summary_order states)
      "Ready"
      (pos 3)
      (pos 3)
    ≡ true
unfolding lookup
current_true-build_example =
    current_true-build first_of first_of-FindsFirst [] (pos 3) (pos 3) 10 summary_order states
      "Ready" refl

build-Retained_example :
    first_of
      (build first_of
        (build first_of [] (pos 3) 10 summary_order states)
        (pos 4)
        20
        summary_order
        states)
      "Ready"
    ≡ some (record {
      kind = "Ready";
      status = condition_true;
      reason = "Ready";
      message = "";
      observed_generation = pos 4;
      last_transition_time = 10;
    })
unfolding lookup
build-Retained_example =
    build-Retained first_of first_of-FindsFirst [] (pos 3) (pos 4) 10 20 summary_order summary_order
      states states "Ready" refl refl

abbrev route : Route
route = record {
  uid = "route-1";
  generation = pos 3;
  observed_generation = pos 3;
  conditions = build first_of [] (pos 3) 10 summary_order states;
}

abbrev pod : Pod
pod = record { uid = "pod-1"; labels = (route_label, "vpn") ∷ [] }

abbrev reader : Reader ℕ
reader = record {
  is_nil = false;
  get_pod = λ _ _ w. (ok pod, w);
  get_route = λ _ _ w. (ok route, w);
  is_dns_label = λ _. true;
  trim_space = λ s. s;
  find = first_of;
  has_prefix = λ _ _. false;
}

abbrev start : Traced ℕ Call
start = record { world = 0; log = [] }

abbrev resolved : Resolution
resolved = record {
  pod_uid = "pod-1";
  route_name = "vpn";
  route_uid = "route-1";
  enrolled = true;
  ready = true;
  reason = "Ready";
}

route_resolved : (resolve reader "apps" "web" "pod-1" start).0 ≡ ok (resolved, none)
unfolding resolve resolve_label resolve_route check_conditions check_condition build lookup ◌>>=◌
    perform attempt wrapping lift pure
route_resolved = refl

resolve_ready_example :
    ◌≡◌ {A = Option Err} none none
    × Evidence reader "apps" "web" "pod-1" resolved
        (resolve reader "apps" "web" "pod-1" start).1.log
resolve_ready_example =
    resolve_ready reader "apps" "web" "pod-1" start resolved none refl route_resolved refl
