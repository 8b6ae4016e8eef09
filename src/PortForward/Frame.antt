-- ===== src/PortForward/Frame.antt =====
-- The parts of internal/portforward/manager.go that leave the states of the leases alone: whatever
-- holds of the states before holds of them after, on every way to return.
use waycloak.Prelude.{Bool, true, false, ◌||◌, [], ◌∷◌, ltb, Option, none, some}
use waycloak.Exec.{Err, Result, ok, err, Exec, lift, attempt, call}
use waycloak.Exec.Triple.{
  Triple, Triple-pure, Triple-fail, Triple-lift, Triple-if, Triple-bind, Triple-attempt,
  Triple-call, Triple-read, Triple-own_state,
}
use waycloak.PortForward.Intent.{Intent, WithdrawalIntent, ProviderObservation}
use waycloak.PortForward.States.{RuntimeState, States}
use waycloak.PortForward.Manager.{
  Capabilities, Backends, Call, Run, now, is_serving, collect_rules, rule_set, replace_rules,
  count_active, check_capabilities, validate_capabilities,
}
use waycloak.PortForward.Reconcile.{
  observation, withdrawal_observation, without_capabilities, deliver_mapping, when_ready,
}
use waycloak.PortForward.Withdraw.{reply}

-- Readings of the states and the clock, which never fail.
module _ {W : Type 0} (b : Backends W) (P : States → Type 0) (E : Err → Run W → Type 0) where
  abbrev Reads : {A : Type 0} → Exec (Run W) A → Type 0
  Reads m = Triple (λ s. P s.own) m (λ _ s. P s.own) E

  pub now-Reads : Reads (now b)
  unfolding now
  now-Reads = Triple-read _ (λ a w s h. h)

  is_serving-Reads : (s : RuntimeState) → Reads (is_serving b s)
  unfolding is_serving
  is_serving-Reads s =
      Triple-if (s.draining || s.drained || s.blocked) _ _ (λ _. Triple-pure _ (λ s h. h))
        (λ _. Triple-bind _ _ now-Reads (λ t. Triple-pure _ (λ s h. h)))

  collect_rules-Reads : (states : States) → Reads (collect_rules b states)
  unfolding collect_rules
  collect_rules-Reads [] = Triple-pure _ (λ s h. h)
  collect_rules-Reads ((uid, s) ∷ rest) =
      Triple-bind _ _ (is_serving-Reads s)
        λ serving. Triple-bind _ _ (collect_rules-Reads rest) λ rules. Triple-pure _ (λ s h. h)

  pub rule_set-Reads : Reads (rule_set b)
  unfolding rule_set
  rule_set-Reads =
      Triple-bind {Q = λ _ s. P s.own} _ _ (Triple-own_state (λ s h. h))
        λ states. Triple-bind _ _ (collect_rules-Reads states) (λ rules. Triple-pure _ (λ s h. h))

module _ {W : Type 0} (b : Backends W) (P : States → Type 0) where
  -- The action leaves the states alone.
  abbrev pub Framed : {A : Type 0} → Exec (Run W) A → Type 0
  Framed m = Triple (λ s. P s.own) m (λ _ s. P s.own) (λ _ s. P s.own)

  pub call-Framed : {A : Type 0} (c : Result A → Call) (m : Exec W A) → Framed (call c m)
  call-Framed c m = Triple-call c m (λ a w s h. h) (λ e w s h. h)

  pub attempt-Framed : {A : Type 0} (m : Exec (Run W) A) → Framed m → Framed (attempt m)
  attempt-Framed m t = Triple-attempt m t

  pub lift-Framed : {A : Type 0} (r : Result A) → Framed (lift r)
  lift-Framed (ok a) = Triple-lift _ (λ s h. h)
  lift-Framed (err e) = Triple-lift _ (λ s h. h)

  pub now-Framed : Framed (now b)
  now-Framed = now-Reads b P (λ _ s. P s.own)

  pub replace_rules-Framed : Framed (replace_rules b)
  unfolding replace_rules
  replace_rules-Framed =
      Triple-bind _ _ (rule_set-Reads b P (λ _ s. P s.own)) (λ rules. call-Framed _ _)

  count_active-Framed : (states : States) → Framed (count_active b states)
  unfolding count_active
  count_active-Framed [] = Triple-pure _ (λ s h. h)
  count_active-Framed ((uid, s) ∷ rest) =
      Triple-bind _ _ now-Framed
        λ t. Triple-bind _ _ (count_active-Framed rest) (λ active. Triple-pure _ (λ s h. h))

  pub validate_capabilities-Framed :
      (i : Intent) (c : Capabilities) (known : Bool) → Framed (validate_capabilities b i c known)
  unfolding validate_capabilities
  validate_capabilities-Framed i c known =
      Triple-bind _ _ (lift-Framed (check_capabilities i c)) λ _.
        Triple-if known _ _ (λ _. Triple-pure _ (λ s h. h))
          (λ _.
            Triple-bind {Q = λ _ s. P s.own} _ _ (Triple-own_state (λ s h. h))
              λ states. Triple-bind _ _ (count_active-Framed states) (λ active. lift-Framed _))

  pub observation-Framed :
      (i : Intent) (mapping : ProviderObservation) → Framed (observation b i mapping)
  unfolding observation
  observation-Framed i mapping = Triple-bind _ _ now-Framed (λ t. Triple-pure _ (λ s h. h))

  pub reply-Framed :
      (i : WithdrawalIntent) (done : Bool) (e : Result (Unit {0})) → Framed (reply b i done e)
  unfolding reply withdrawal_observation
  reply-Framed i done e =
      Triple-bind {Q = λ _ s. P s.own} _ _
        (Triple-bind _ _ now-Framed (λ t. Triple-pure _ (λ s h. h))) λ o. Triple-pure _ (λ s h. h)

  pub without_capabilities-Framed :
      (previous : Option RuntimeState) (e : Err) → Framed (without_capabilities b previous e)
  unfolding without_capabilities
  without_capabilities-Framed none e = Triple-fail _ (λ s h. h)
  without_capabilities-Framed (some previous) e =
      Triple-if previous.blocked _ _ (λ _. Triple-fail _ (λ s h. h))
        (λ _. Triple-bind _ _ now-Framed λ t.
          Triple-if (ltb t previous.mapping.expires_at) _ _ (λ _. Triple-pure _ (λ s h. h))
            (λ _. Triple-fail _ (λ s h. h)))

  pub when_ready-Framed :
      (i : Intent) (mapping : ProviderObservation) (s : RuntimeState) (answer : Result Bool)
      → Framed (when_ready b i mapping s answer)
  unfolding when_ready deliver_mapping
  when_ready-Framed i mapping s (ok true) =
      Triple-bind _ _ (call-Framed _ _)
        λ d. Triple-bind _ _ (observation-Framed i mapping) (λ o. Triple-pure _ (λ s h. h))
  when_ready-Framed i mapping s (ok false) =
      Triple-bind _ _ (observation-Framed i mapping) (λ o. Triple-pure _ (λ s h. h))
  when_ready-Framed i mapping s (err e) =
      Triple-bind _ _ (observation-Framed i mapping) (λ o. Triple-pure _ (λ s h. h))
