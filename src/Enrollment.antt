-- ===== src/Enrollment.antt =====
-- internal/enrollment/resolver.go: which route a Pod is enrolled in and whether the route is ready.
-- The reader's GETs, the label syntax, `strings.TrimSpace` and `FindStatusCondition` are parameters.
pub mod Evidence
use waycloak.Prelude.{
  String, Bool, true, false, ◌==◌, not, List, [], ◌∷◌, Option, none, some, if◌then◌else◌, any, ◌||◌,
}
use waycloak.Prelude.Int.{ℤ, eq_ℤ}
use waycloak.Prelude.Assoc.{lookup}
use waycloak.Exec.{
  Err, new, sentinel, wrap, Sentinel, pod_uid_mismatch, not_found, errors_is, Result, ok, err,
  reject_if, Exec, pure, fail, lift, attempt, wrapping, ◌>>=◌, ◌>>◌, Traced, perform,
}
use waycloak.Conditions.{Condition, condition_true, summary_order}

pub record Pod : Type 0 where
  pub uid : String
  pub labels : List (String × String)

pub record Route : Type 0 where
  pub uid : String
  pub generation : ℤ
  pub observed_generation : ℤ
  pub conditions : List Condition

pub record Resolution : Type 0 where
  pub pod_uid : String
  pub route_name : String
  pub route_uid : String
  pub enrolled : Bool
  pub ready : Bool
  pub reason : String

pub record Reader (W : Type 0) : Type 0 where
  pub is_nil : Bool
  pub get_pod : String → String → Exec W Pod
  pub get_route : String → String → Exec W Route
  pub is_dns_label : String → Bool
  pub trim_space : String → String
  pub find : List Condition → String → Option Condition
  pub has_prefix : String → String → Bool

pub data Call : Type 0 where
  get_pod : String → String → Result Pod → Call
  get_route : String → String → Result Route → Call

abbrev pub route_label : String
route_label = "networking.waycloak.io/egress-route"

abbrev pub is_not_found : Sentinel → Bool
is_not_found not_found = true
is_not_found _ = false

module _ {W : Type 0} (r : Reader W) where
  abbrev pub or_not_ready : String → String
  or_not_ready reason = if r.trim_space reason == "" then "NotReady" else reason

  -- One condition type of the loop; `rest` is the outcome of the types after it.
  unfoldable pub check_condition : Resolution → Route → Resolution → Option Condition → Resolution
  check_condition result route rest none = record result { reason = "ObservationUnavailable" }
  check_condition result route rest (some c) =
      if not (eq_ℤ c.observed_generation route.generation)
      then record result { reason = "ObservationUnavailable" }
      else if not (c.status == condition_true)
      then record result { reason = or_not_ready c.reason }
      else rest

  -- The loop over the condition types of the route.
  unfoldable pub check_conditions : Resolution → Route → List String → Resolution
  check_conditions result route [] = record result { ready = true; reason = "Ready" }
  check_conditions result route (kind ∷ kinds) =
      check_condition result route (check_conditions result route kinds)
        (r.find route.conditions kind)

  unfoldable pub resolve_route :
      Resolution → Result Route → Exec (Traced W Call) (Resolution × Option Err)
  resolve_route result (err e) =
      if errors_is is_not_found e
      then pure (record result { reason = "RefNotFound" }, none)
      else pure
          (record result { reason = "ObservationUnavailable" }, some (wrap "read enrolled route" e))
  resolve_route result (ok route) =
      let found : Resolution = record result { route_uid = route.uid } in
      if not (eq_ℤ route.observed_generation route.generation)
      then pure (record found { reason = "ObservationUnavailable" }, none)
      else pure (check_conditions found route summary_order, none)

  unfoldable pub resolve_label :
      String → Resolution → Option String → Exec (Traced W Call) (Resolution × Option Err)
  resolve_label namespace result none = pure (result, none)
  resolve_label namespace result (some route_name) =
      let enrolled : Resolution = record result { enrolled = true; route_name = route_name } in
      if not (r.is_dns_label route_name)
      then pure (record enrolled { reason = "Invalid" }, none)
      else do
        route ←
            attempt (perform (get_route namespace route_name) (r.get_route namespace route_name))
        resolve_route enrolled route

  -- `Resolve`. A resolution beside an error is the pair's second component; the errors of the first
  -- steps, which return the empty resolution, are the action's.
  unfoldable pub resolve : String → String → String → Exec (Traced W Call) (Resolution × Option Err)
  resolve namespace name uid = do
    lift (reject_if r.is_nil (new "kubernetes reader is required"))
    pod ←
        wrapping "read exact Pod identity"
          (perform (get_pod namespace name) (r.get_pod namespace name))
    lift
        (reject_if (not (pod.uid == uid)) (wrap "observed another Pod" (sentinel pod_uid_mismatch)))
    resolve_label namespace
        (record {
          pod_uid = pod.uid;
          route_name = "";
          route_uid = "";
          enrolled = false;
          ready = false;
          reason = "Unenrolled";
        })
        (lookup route_label pod.labels)

  unfoldable pub has_alpha_annotation : List (String × String) → Bool
  has_alpha_annotation annotations =
      any
        (λ a.
          r.has_prefix a.0 "networking.waycloak.io/"
          || r.has_prefix a.0 "internal.networking.waycloak.io/")
        annotations
