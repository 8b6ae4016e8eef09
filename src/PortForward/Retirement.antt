-- ===== src/PortForward/Retirement.antt =====
-- `Withdraw` of internal/portforward/manager.go: what a completed and what a failed withdrawal leave.
use waycloak.Prelude.{
  String, Bool, true, false, ◌==◌, eq_iff, eq_refl, not, ◌||◌, List, [], ◌∷◌, ◌≡◌, refl, ap, sym,
  ◌∙◌, Option, none, some, Bool-cases, inl, inr, if◌then◌else◌,
}
use waycloak.Prelude.Assoc.{lookup, lookup-insert, lookup-erase}
use waycloak.Exec.{Err, Result, ok, err, and_then}
use waycloak.Exec.Triple.{
  Post-ok, Triple, Triple-any, Triple-pure, Triple-bind-lift, Triple-known, Triple-weaken,
  Triple-if, Triple-bind, Triple-attempt, Triple-call, Triple-own_state, Triple-set_own,
  Triple-read,
}
use waycloak.PortForward.Intent.{Intent, WithdrawalIntent, Gateway}
use waycloak.PortForward.States.{
  RuntimeState, States, LeaseRequest, provider_request, provider_protocols,
}
use waycloak.PortForward.Manager.{
  Backends, Call, Run, Reply, replace, withdrawn, withdraw_delivery, release_lease, now,
  replace_rules, store_state, delete_state,
}
use waycloak.PortForward.Reconcile.{withdrawal_observation}
use waycloak.PortForward.Withdraw.{
  reply, draining_state, start_draining, finish_draining, release_request, released, release,
  when_delivery_withdrawn, when_rules_withdrawn, when_rules_replaced, withdraw_from, withdraw,
}
use waycloak.PortForward.Frame.{rule_set-Reads}

-- What the lease is released under: what its state was served under, or what the withdrawal says
-- where there is no state.
abbrev pub Names : WithdrawalIntent → Option RuntimeState → LeaseRequest → Type 0
Names i (some s) request =
    (request.identity ≡ s.intent.lease_uid)
    × (request.internal_port ≡ s.intent.provider_internal_port)
    × (request.suggested_external_port ≡ s.intent.previous_public_port)
    × (request.protocols ≡ s.intent.protocols)
Names i none request =
    (request.identity ≡ i.lease_uid)
    × (request.internal_port ≡ i.provider_internal_port)
    × (request.suggested_external_port ≡ i.previous_public_port)
    × (request.protocols ≡ i.protocols)

module _ (i : WithdrawalIntent) where
  -- The rules were replaced, and then the backend confirmed that those of the lease are gone.
  abbrev pub RulesGone : List Call → Type 0
  RulesGone (withdrawn uid g (ok true) ∷ replace rules (ok _) ∷ log) =
      (uid ≡ i.lease_uid) × (g ≡ i.handoff_generation)
  RulesGone _ = ⊥

  abbrev pub DeliveryGone : List Call → Type 0
  DeliveryGone (withdraw_delivery w (ok true) ∷ log) = (w ≡ i) × RulesGone log
  DeliveryGone _ = ⊥

  abbrev pub LeaseReleased : Option RuntimeState → List Call → Type 0
  LeaseReleased found (release_lease request (ok _) ∷ log) =
      Names i found request × DeliveryGone log
  LeaseReleased found _ = ⊥

  -- The last calls of a completed withdrawal.
  abbrev pub Retired : Option RuntimeState → List Call → Type 0
  Retired found log = if i.release_provider then LeaseReleased found log else DeliveryGone log

-- The lease is dropped, or its target is drained.
abbrev pub Drained : Option RuntimeState → Type 0
Drained none = Unit
Drained (some s) = s.drained ≡ true

-- The last call was a failed replacement of the rules.
abbrev pub ReplaceFailed : List Call → Type 0
ReplaceFailed (replace rules (err e) ∷ log) = Unit
ReplaceFailed _ = ⊥

abbrev pub resumed : Option RuntimeState → Option RuntimeState
resumed none = none
resumed (some s) = some (record s { draining = false })

if_true : (A B : Type 0) (x : Bool) → x ≡ true → A → if x then A else B
if_true A B true e a = a
if_true A B false e a = cc

if_false : (A B : Type 0) (x : Bool) → x ≡ false → B → if x then A else B
if_false A B true e b = cc
if_false A B false e b = b

ok-injective : {A : Type 0} (a b : A) → ok a ≡ ok b → a ≡ b
ok-injective a b e = cc

provider_protocols_lem :
    (protocols mapped : List String) → provider_protocols protocols ≡ ok mapped → mapped ≡ protocols
unfolding provider_protocols
provider_protocols_lem [] mapped e = cc
provider_protocols_lem (p ∷ rest) mapped e =
    checked (p == "TCP" || p == "UDP") _ (provider_protocols rest) (provider_protocols_lem rest) e
  where
    checked :
        (b : Bool) (x : Err) (r : Result (List String))
        → ((m : List String) → r ≡ ok m → m ≡ rest)
        → (if b then and_then r (λ m. ok (p ∷ m)) else err x) ≡ ok mapped
        → mapped ≡ p ∷ rest
    checked true x (ok m) q h = sym (ok-injective _ _ h) ∙ ap (λ l. p ∷ l) (q m refl)
    checked true x (err y) q h = cc
    checked false x r q h = cc

provider_request-Names :
    (j : Intent) (request : LeaseRequest)
    → provider_request j ≡ ok request
    → (request.identity ≡ j.lease_uid)
      × (request.internal_port ≡ j.provider_internal_port)
      × (request.suggested_external_port ≡ j.previous_public_port)
      × (request.protocols ≡ j.protocols)
unfolding provider_request
provider_request-Names j request e = mapped (provider_protocols j.protocols) refl e
  where
    asked : List String → LeaseRequest
    asked protocols = record {
      identity = j.lease_uid;
      internal_port = j.provider_internal_port;
      suggested_external_port = j.previous_public_port;
      protocols = protocols;
    }

    mapped :
        (r : Result (List String))
        → provider_protocols j.protocols ≡ r
        → and_then r (λ m. ok (asked m)) ≡ ok request
        → (request.identity ≡ j.lease_uid)
          × (request.internal_port ≡ j.provider_internal_port)
          × (request.suggested_external_port ≡ j.previous_public_port)
          × (request.protocols ≡ j.protocols)
    mapped (ok m) q h =
        rw (sym (ok-injective _ _ h)) (refl, refl, refl, provider_protocols_lem j.protocols m q)
    mapped (err x) q h = absurd cc

release_request-Names :
    (i : WithdrawalIntent) (found : Option RuntimeState) (request : LeaseRequest)
    → release_request i found ≡ ok request
    → Names i found request
unfolding release_request
release_request-Names i (some s) request e = provider_request-Names s.intent request e
release_request-Names i none request e = provider_request-Names _ request e

module _ {W : Type 0} (b : Backends W) (i : WithdrawalIntent) (found : Option RuntimeState) where
  abbrev Completed : Reply → Run W → Type 0
  Completed r s =
      r.observation.withdrawn ≡ true → Drained (lookup i.lease_uid s.own) × Retired i found s.log

  abbrev Any : Err → Run W → Type 0
  Any e s = Unit

  reply_incomplete :
      {P : Run W → Type 0} (e : Result (Unit {0})) → Triple P (reply b i false e) Completed Any
  unfolding reply withdrawal_observation now
  reply_incomplete e =
      Triple-bind {Q = λ o _. o.withdrawn ≡ false} _ _
        (Triple-bind {Q = λ _ _. Unit} _ _ (Triple-read _ (λ a w s h. tt))
          (λ t. Triple-pure _ (λ s h. refl)))
        λ o. Triple-pure _ (λ s h. λ yes_it. cc)

  reply_complete :
      Triple
        (λ s. Drained (lookup i.lease_uid s.own) × Retired i found s.log)
        (reply b i true (ok tt))
        Completed
        Any
  unfolding reply withdrawal_observation now
  reply_complete =
      Triple-bind {Q = λ o s. Drained (lookup i.lease_uid s.own) × Retired i found s.log} _ _
        (Triple-bind {Q = λ _ s. Drained (lookup i.lease_uid s.own) × Retired i found s.log} _ _
          (Triple-read _ (λ a w s h. h)) (λ t. Triple-pure _ (λ s h. h)))
        λ o. Triple-pure _ (λ s h. λ _. h)

  abbrev drained_of : Option RuntimeState → Option RuntimeState
  drained_of none = none
  drained_of (some s) = some (draining_state s)

  module _ (before : States) where
    -- The states that `Withdraw` found, but that the lease drains.
    abbrev Started : States → Type 0
    Started states =
        (j : String)
        → lookup j states ≡ (if i.lease_uid == j then drained_of found else lookup j before)

    Started-none :
        (states : States) → found ≡ none → Started states → lookup i.lease_uid states ≡ none
    Started-none states e h = h i.lease_uid ∙ rw (eq_refl, e)

    finish_draining-Drained :
        Triple
          (λ s. Started s.own × DeliveryGone i s.log)
          (finish_draining b i found)
          (λ _ s. Drained (lookup i.lease_uid s.own) × DeliveryGone i s.log)
          Any
    unfolding finish_draining store_state
    finish_draining-Drained = by_found found refl
      where
        by_found :
            (f : Option RuntimeState)
            → found ≡ f
            → Triple
                (λ s. Started s.own × DeliveryGone i s.log)
                (finish_draining b i f)
                (λ _ s. Drained (lookup i.lease_uid s.own) × DeliveryGone i s.log)
                Any
        by_found none e = Triple-pure _ (λ s h. (rw (Started-none s.own e h.0) tt, h.1))
        by_found (some f) e =
            Triple-bind {Q = λ _ s. DeliveryGone i s.log} _ _ (Triple-own_state (λ s h. h.1))
              λ states. Triple-set_own _ (λ s h. (rw (lookup-insert, eq_refl) refl, h))

    abbrev LeaseAnswered : Result (Unit {0}) → Run W → Type 0
    LeaseAnswered (ok _) s = LeaseReleased i found s.log
    LeaseAnswered (err e) s = Unit

    Retired-released :
        (log : List Call)
        → i.release_provider ≡ true
        → LeaseReleased i found log
        → Retired i found log
    Retired-released log e h = if_true _ _ i.release_provider e h

    Retired-kept :
        (log : List Call) → i.release_provider ≡ false → DeliveryGone i log → Retired i found log
    Retired-kept log e h = if_false _ _ i.release_provider e h

    released-Completed :
        (answer : Result (Unit {0}))
        → i.release_provider ≡ true
        → Triple (LeaseAnswered answer) (released b i answer) Completed Any
    unfolding released delete_state
    released-Completed (err e) p = reply_incomplete (err e)
    released-Completed (ok _) p =
        Triple-bind {Q = λ _ s. Drained (lookup i.lease_uid s.own) × Retired i found s.log} _ _
          (Triple-bind {Q = λ _ s. LeaseReleased i found s.log} _ _ (Triple-own_state (λ s h. h))
            λ states.
              Triple-set_own _ (λ s h. (rw (lookup-erase, eq_refl) tt, Retired-released s.log p h)))
          λ _. reply_complete

    release-Completed :
        (request : Result LeaseRequest)
        → release_request i found ≡ request
        → i.release_provider ≡ true
        → Triple (λ s. DeliveryGone i s.log) (release b i request) Completed Any
    unfolding release
    release-Completed (err e) q p = reply_incomplete (err e)
    release-Completed (ok request) q p =
        Triple-if (not b.port_forward_set) _ _ (λ _. reply_incomplete _)
          (λ _.
            Triple-bind {Q = LeaseAnswered} _ _
              (Triple-attempt _ (
                Triple-call _ _ (λ x w s h. (release_request-Names i found request q, h))
                  (λ e w s h. tt)))
              (λ answer. released-Completed answer p))

    -- The answers of the two backends that confirm the withdrawal.
    abbrev DeliveryAnswered : Result Bool → Run W → Type 0
    DeliveryAnswered (ok true) s = Started s.own × DeliveryGone i s.log
    DeliveryAnswered _ s = Unit

    abbrev RulesAnswered : Result Bool → Run W → Type 0
    RulesAnswered (ok true) s = Started s.own × RulesGone i s.log
    RulesAnswered _ s = Unit

    answered_delivery :
        (x : Bool) (w : W) (s : Run W)
        → Started s.own × RulesGone i s.log
        → DeliveryAnswered (ok x) (record s { world = w; log = withdraw_delivery i (ok x) ∷ s.log })
    answered_delivery true w s h = (h.0, (refl, h.1))
    answered_delivery false w s h = tt

    when_delivery_withdrawn-Completed :
        (answer : Result Bool)
        → Triple (DeliveryAnswered answer) (when_delivery_withdrawn b i found answer) Completed Any
    unfolding when_delivery_withdrawn
    when_delivery_withdrawn-Completed (err e) = reply_incomplete (err e)
    when_delivery_withdrawn-Completed (ok false) = reply_incomplete (ok tt)
    when_delivery_withdrawn-Completed (ok true) = Triple-bind _ _ finish_draining-Drained λ _.
        Triple-if i.release_provider _ _
          (λ e.
            Triple-weaken _ (release-Completed (release_request i found) refl e) (λ s h. h.1)
              (λ a s h. h) (λ x s h. h))
          (λ e.
            Triple-weaken _ reply_complete (λ s h. (h.0, Retired-kept s.log e h.1)) (λ a s h. h)
              (λ x s h. h))

    when_rules_withdrawn-Completed :
        (answer : Result Bool)
        → Triple (RulesAnswered answer) (when_rules_withdrawn b i found answer) Completed Any
    unfolding when_rules_withdrawn
    when_rules_withdrawn-Completed (err e) = reply_incomplete (err e)
    when_rules_withdrawn-Completed (ok false) = reply_incomplete (ok tt)
    when_rules_withdrawn-Completed (ok true) =
        Triple-bind {Q = DeliveryAnswered} _ _
          (Triple-attempt _ (Triple-call _ _ answered_delivery (λ e w s h. tt)))
          when_delivery_withdrawn-Completed

    abbrev Replaced : List Call → Type 0
    Replaced (replace rules (ok _) ∷ log) = Unit
    Replaced _ = ⊥

    rules_gone :
        (log : List Call)
        → Replaced log
        → RulesGone i (withdrawn i.lease_uid i.handoff_generation (ok true) ∷ log)
    rules_gone (replace rules (ok _) ∷ log) h = (refl, refl)
    rules_gone _ h = absurd h

    answered_rules :
        (x : Bool) (w : W) (s : Run W)
        → Started s.own × Replaced s.log
        → RulesAnswered (ok x) (record s {
          world = w;
          log = withdrawn i.lease_uid i.handoff_generation (ok x) ∷ s.log;
        })
    answered_rules true w s h = (h.0, rules_gone s.log h.1)
    answered_rules false w s h = tt

    abbrev RulesReplaced : Result (Unit {0}) → Run W → Type 0
    RulesReplaced (ok _) s = Started s.own × Replaced s.log
    RulesReplaced (err e) s = Started s.own × ReplaceFailed s.log

    when_rules_replaced-Completed :
        (replaced : Result (Unit {0}))
        → Triple (RulesReplaced replaced) (when_rules_replaced b i found replaced) Completed Any
    unfolding when_rules_replaced
    when_rules_replaced-Completed (ok _) =
        Triple-bind {Q = RulesAnswered} _ _
          (Triple-attempt _ (Triple-call _ _ answered_rules (λ e w s h. tt)))
          when_rules_withdrawn-Completed
    when_rules_replaced-Completed (err e) =
        Triple-bind {Q = λ _ _. Unit} _ _ (Triple-any _) (λ _. reply_incomplete (err e))

    unstarted :
        (states : States)
        → lookup i.lease_uid before ≡ drained_of found
        → states ≡ before
        → Started states
    unstarted states l e j = elim (Bool-cases (i.lease_uid == j)) [
      | inl q ↦ rw q (rw e (ap (λ k. lookup k before) (sym ((eq_iff i.lease_uid j).0 q)) ∙ l))
      | inr q ↦ rw q (rw e refl)
    ]

    start_draining-Started :
        (f : Option RuntimeState)
        → found ≡ f
        → Triple
            (λ s. (lookup i.lease_uid before ≡ found) × (s.own ≡ before))
            (start_draining b i f)
            (λ _ s. Started s.own)
            Any
    unfolding start_draining store_state
    start_draining-Started none e = Triple-pure _ (λ s h. unstarted s.own (h.0 ∙ rw e refl) h.1)
    start_draining-Started (some f) e =
        Triple-if (f.draining || f.drained) _ _
          (λ q. Triple-pure _ (λ s h. unstarted s.own (h.0 ∙ rw e (rw q refl)) h.1))
          (λ q.
            Triple-bind {Q = λ states s. states ≡ before} _ _ (Triple-own_state (λ s h. h.1))
              λ states. Triple-set_own _ (λ s h j. rw lookup-insert (rw (h, e) refl)))

    withdraw_from-Completed :
        Triple
          (λ s. (lookup i.lease_uid before ≡ found) × (s.own ≡ before))
          (withdraw_from b i found)
          Completed
          Any
    unfolding withdraw_from replace_rules
    withdraw_from-Completed =
        Triple-bind-lift _ _ (λ e q s h. tt)
          λ _ admitted. Triple-bind _ _ (start_draining-Started found refl) λ _.
            Triple-bind {Q = RulesReplaced} _ _
              (Triple-attempt _ (
                Triple-bind {Q = λ _ s. Started s.own} _ _
                  (rule_set-Reads b Started (λ e. RulesReplaced (err e)))
                  (λ rules. Triple-call _ _ (λ x w s h. (h, tt)) (λ e w s h. (h, tt)))))
              when_rules_replaced-Completed

  withdraw-Completed :
      (before : States) (g : Gateway)
      → lookup i.lease_uid before ≡ found
      → Triple (λ s. s.own ≡ before) (withdraw b g i) Completed Any
  unfolding withdraw
  withdraw-Completed before g known =
      Triple-bind-lift _ _ (λ e q s h. tt)
        λ _ valid.
          Triple-bind-lift _ _ (λ e q s h. tt)
            λ _ set.
              Triple-bind {Q = λ states s. (states ≡ before) × (s.own ≡ before)} _ _
                (Triple-own_state (λ s h. (h, h)))
                λ states. Triple-known _ λ same. rw (ap (lookup i.lease_uid) same ∙ known) (
                  Triple-weaken _ (withdraw_from-Completed before) (λ s h. (known, h)) (λ r s h. h)
                    (λ e s h. h))

-- A reply of `Withdraw` that says the lease is withdrawn can be relied on: the lease's state is gone
-- or drained, and the last calls were a successful replacement of the rules, the rule backend's
-- confirmation for this lease and generation, the delivery backend's confirmation for this intent,
-- and, exactly if the intent asks for it, the provider's release of the lease: under the UID, the
-- ports and the protocols that its state was served under, or those of the intent where there was
-- no state.
pub withdraw_completed :
    {W : Type 0} (b : Backends W) (g : Gateway) (i : WithdrawalIntent) (s : Run W) (r : Reply)
    → (withdraw b g i s).0 ≡ ok r
    → r.observation.withdrawn ≡ true
    → Drained (lookup i.lease_uid (withdraw b g i s).1.own)
      × Retired i (lookup i.lease_uid s.own) (withdraw b g i s).1.log
withdraw_completed b g i s r e =
    Post-ok (Completed b i (lookup i.lease_uid s.own)) (Any b i (lookup i.lease_uid s.own))
      (withdraw b g i s).0 (withdraw b g i s).1 r e
      ((withdraw-Completed b i (lookup i.lease_uid s.own) s.own g refl).at s refl)
