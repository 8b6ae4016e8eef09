-- ===== src/Enrollment/Evidence.antt =====
-- What `Resolve` (internal/enrollment/resolver.go) has read when it calls a route ready.
use waycloak.Prelude.{
  String, Bool, true, false, ◌≡◌, refl, ap, ◌==◌, not, List, [], ◌∷◌, Option, none, some, arith,
  if◌then◌else◌,
}
use waycloak.Prelude.Int.{eq_ℤ}
use waycloak.Prelude.Assoc.{lookup}
use waycloak.Exec.{Err, wrap, errors_is, Result, ok, err, reject_if, pure, Traced}
use waycloak.Exec.Triple.{
  Triple, Post-ok, Triple-bind, Triple-wrapping, Triple-attempt, Triple-perform, Triple-pure,
  Triple-if, Triple-bind-lift,
}
use waycloak.Conditions.{Condition, condition_true, summary_order}
use waycloak.Enrollment.{
  Pod, Route, Resolution, Reader, Call, get_pod, get_route, route_label, is_not_found,
  check_condition, check_conditions, resolve_route, resolve_label, resolve,
}

-- The last of three resolutions is the ready one.
picked :
    (b b' : Bool) (x y z : Resolution)
    → x.ready ≡ false
    → y.ready ≡ false
    → (if not b then x else if not b' then y else z).ready ≡ true
    → (b ≡ true) × (b' ≡ true) × (z.ready ≡ true)
picked true true x y z nx ny h = (refl, refl, h)
picked true false x y z nx ny h = ground arith
picked false b' x y z nx ny h = ground arith

not-not : (b : Bool) → not b ≡ false → b ≡ true
not-not true h = refl
not-not false h = ground arith

same_uid : (b : Bool) (e : Err) → reject_if (not b) e ≡ ok tt → b ≡ true
same_uid true e h = refl
same_uid false e h = ground arith

module _ {W : Type 0} (r : Reader W) where
  -- A condition type stands in a route for its current generation, with status True.
  abbrev CurrentTrue : Route → String → Type 0
  CurrentTrue route kind =
      (c : Condition) × (r.find route.conditions kind ≡ some c)
      × (eq_ℤ c.observed_generation route.generation ≡ true)
      × (c.status == condition_true ≡ true)

  abbrev AllCurrent : Route → List String → Type 0
  AllCurrent route [] = Unit
  AllCurrent route (kind ∷ kinds) = CurrentTrue route kind × AllCurrent route kinds

  check_condition-Ready :
      (result rest : Resolution) (route : Route) (found : Option Condition)
      → result.ready ≡ false
      → (check_condition r result route rest found).ready ≡ true
      → ((c : Condition) × (found ≡ some c)
          × (eq_ℤ c.observed_generation route.generation ≡ true)
          × (c.status == condition_true ≡ true))
        × (rest.ready ≡ true)
  unfolding check_condition
  check_condition-Ready result rest route none n h = ground arith
  check_condition-Ready result rest route (some c) n h =
      let p =
        picked (eq_ℤ c.observed_generation route.generation) (c.status == condition_true) _ _ rest n
          n h in
      ((c, refl, p.0, p.1), p.2)

  check_conditions-Ready :
      (result : Resolution) (route : Route) (kinds : List String)
      → result.ready ≡ false
      → (check_conditions r result route kinds).ready ≡ true
      → AllCurrent route kinds
  unfolding check_conditions
  check_conditions-Ready result route [] n h = tt
  check_conditions-Ready result route (kind ∷ kinds) n h =
      let one =
        check_condition-Ready result (check_conditions r result route kinds) route
          (r.find route.conditions kind) n h in
      (one.0, check_conditions-Ready result route kinds n one.1)

  -- The answers on which a route is ready: the Pod's, with the wanted UID and the label, and the
  -- route's, observed at its generation, with its four conditions current and True.
  abbrev pub Evidence : String → String → String → Resolution → List Call → Type 0
  Evidence namespace name uid result log =
      (pod : Pod) × (route : Route) × (route_name : String) × (log
        ≡ get_route namespace route_name (ok route) ∷ get_pod namespace name (ok pod) ∷ [])
      × (pod.uid == uid ≡ true)
      × (lookup route_label pod.labels ≡ some route_name)
      × (r.is_dns_label route_name ≡ true)
      × (eq_ℤ route.observed_generation route.generation ≡ true)
      × AllCurrent route summary_order

  module _ (namespace name uid : String) (pod : Pod) (same : pod.uid == uid ≡ true) where
    abbrev Justified : Resolution × Option Err → Traced W Call → Type 0
    Justified out s = out.0.ready ≡ true → (out.1 ≡ none) × Evidence namespace name uid out.0 s.log

    unready :
        {P : Traced W Call → Type 0} (out : Resolution × Option Err)
        → out.0.ready ≡ false
        → Triple {S = Traced W Call} P (pure out) Justified (λ _ _. Unit)
    unready out n = Triple-pure out (λ s h t. absurd (ground (arith, n, t)))

    resolve_route-Justified :
        (result : Resolution) (route_name : String) (answer : Result Route)
        → result.ready ≡ false
        → lookup route_label pod.labels ≡ some route_name
        → r.is_dns_label route_name ≡ true
        → Triple
            (λ (s : Traced W Call).
              s.log ≡ get_route namespace route_name answer ∷ get_pod namespace name (ok pod) ∷ [])
            (resolve_route r result answer)
            Justified
            (λ _ _. Unit)
    unfolding resolve_route
    resolve_route-Justified result route_name (err e) n l d =
        Triple-if (errors_is is_not_found e) (pure (record result { reason = "RefNotFound" }, none))
          (pure (
            record result { reason = "ObservationUnavailable" },
            some (wrap "read enrolled route" e),
          ))
          (λ _. unready (record result { reason = "RefNotFound" }, none) n)
          (λ _.
            unready
              (
                record result { reason = "ObservationUnavailable" },
                some (wrap "read enrolled route" e),
              )
              n)
    resolve_route-Justified result route_name (ok route) n l d =
        Triple-if _ _ _ (λ _. unready _ n)
          (λ c. Triple-pure _ (λ s h t. (
            refl,
            (
              pod,
              route,
              route_name,
              h,
              same,
              l,
              d,
              not-not _ c,
              check_conditions-Ready (record result { route_uid = route.uid }) route summary_order n
                  t,
            ),
          )))

    resolve_label-Justified :
        (result : Resolution) (label : Option String)
        → result.ready ≡ false
        → lookup route_label pod.labels ≡ label
        → Triple
            (λ (s : Traced W Call). s.log ≡ get_pod namespace name (ok pod) ∷ [])
            (resolve_label r namespace result label)
            Justified
            (λ _ _. Unit)
    unfolding resolve_label
    resolve_label-Justified result none n l = unready _ n
    resolve_label-Justified result (some route_name) n l =
        Triple-if _ _ _ (λ _. unready _ n)
          (λ c.
            Triple-bind
              {Q = λ answer s.
                s.log
                ≡ get_route namespace route_name answer ∷ get_pod namespace name (ok pod) ∷ []}
              _ _
              (Triple-attempt _ (
                Triple-perform _ _
                  (λ a w s h. ap (λ log. get_route namespace route_name (ok a) ∷ log) h)
                  (λ e w s h. ap (λ log. get_route namespace route_name (err e) ∷ log) h)))
              (λ answer.
                resolve_route-Justified (record result { enrolled = true; route_name = route_name })
                  route_name answer n l (not-not _ c)))

  abbrev Justly : String → String → String → Resolution × Option Err → Traced W Call → Type 0
  Justly namespace name uid out s =
      out.0.ready ≡ true → (out.1 ≡ none) × Evidence namespace name uid out.0 s.log

  resolve-Justly :
      (namespace name uid : String)
      → Triple
          (λ (s : Traced W Call). s.log ≡ [])
          (resolve r namespace name uid)
          (Justly namespace name uid)
          (λ _ _. Unit)
  unfolding resolve
  resolve-Justly namespace name uid =
      Triple-bind-lift _ _ (λ _ _ _ _. tt)
        λ _ _.
          Triple-bind {Q = λ pod s. s.log ≡ get_pod namespace name (ok pod) ∷ []} _ _
            (Triple-wrapping _ _ (
              Triple-perform _ _ (λ a w s h. ap (λ log. get_pod namespace name (ok a) ∷ log) h)
                (λ e w s h. tt)))
            λ pod.
              Triple-bind-lift _ _ (λ _ _ _ _. tt)
                λ _ same.
                  resolve_label-Justified namespace name uid pod (same_uid (pod.uid == uid) _ same)
                    _ (lookup route_label pod.labels) refl refl

  -- Resolve reports a ready route without an error only when the Pod that it read had the wanted UID
  -- and the enrollment label, the label is a DNS label, and the route that it then read under that
  -- name was observed at its current generation with Accepted, ResolvedRefs, Programmed and Ready
  -- current and True. It made no other read.
  pub resolve_ready :
      (namespace name uid : String) (s : Traced W Call) (result : Resolution) (problem : Option Err)
      → s.log ≡ []
      → (resolve r namespace name uid s).0 ≡ ok (result, problem)
      → result.ready ≡ true
      → (problem ≡ none) × Evidence namespace name uid result (resolve r namespace name uid s).1.log
  resolve_ready namespace name uid s result problem start e h =
      Post-ok (Justly namespace name uid) (λ _ _. Unit) (resolve r namespace name uid s).0
        (resolve r namespace name uid s).1 (result, problem) e
        ((resolve-Justly namespace name uid).at s start) h
