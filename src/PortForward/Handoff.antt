-- ===== src/PortForward/Handoff.antt =====
-- Handoff generations in internal/portforward/manager.go: what `Reconcile` and `Withdraw` may do to
-- the state of a lease.
use waycloak.Prelude.{
  ℕ, String, true, ◌==◌, eq_iff, ◌≡◌, refl, ap, ltb, sym, ◌⊎◌, inl, inr, arith, Option, none, some,
  Bool-cases, subst,
}
use waycloak.Prelude.Int.{◌<ℤ◌, eq_ℤ_iff}
use waycloak.Prelude.Assoc.{lookup, insert, erase, lookup-insert, lookup-erase}
use waycloak.Exec.{Err, Result, ok, err, is_ok, Exec, attempt, ◌>>=◌, own_state}
use waycloak.Exec.Triple.{
  Post-both, Triple, Triple-pure, Triple-fail, Triple-bind-lift, Triple-known, Triple-if,
  Triple-bind, Triple-attempt, Triple-own_state, Triple-set_own,
}
use waycloak.PortForward.Intent.{Intent, ProviderObservation, Gateway, validate_runtime_intent}
use waycloak.PortForward.States.{RuntimeState, States, LeaseRequest, provider_request}
use waycloak.PortForward.Manager.{
  Capabilities, Backends, Run, admit, now, replace_rules, store_state, delete_state,
}
use waycloak.PortForward.Frame.{
  call-Framed, lift-Framed, now-Framed, replace_rules-Framed, validate_capabilities-Framed,
  observation-Framed, without_capabilities-Framed, when_ready-Framed,
}
use waycloak.PortForward.Reconcile.{
  block_state, is_some, accept_capabilities, refresh_due, drop_lease, refreshed, refresh,
  current_mapping, fresh_state, restore_state, when_replaced, install, reconcile_from, reconcile,
}

-- From one state of a lease to a later one: the generation stays, or it grows and the earlier
-- target had been drained. A lease may also appear or be dropped.
abbrev pub Advances : Option RuntimeState → Option RuntimeState → Type 0
Advances none t = Unit
Advances (some s) none = Unit
Advances (some s) (some t) =
    (s.intent.handoff_generation ≡ t.intent.handoff_generation)
    ⊎ ((s.intent.handoff_generation <ℤ t.intent.handoff_generation) × (s.drained ≡ true))

abbrev pub AllAdvance : States → States → Type 0
AllAdvance before after = (j : String) → Advances (lookup j before) (lookup j after)

Advances-refl : (s : Option RuntimeState) → Advances s s
Advances-refl none = tt
Advances-refl (some s) = inl refl

Advances-none : (s : Option RuntimeState) → Advances s none
Advances-none none = tt
Advances-none (some s) = tt

admit-Advances :
    (previous : Option RuntimeState) (i : Intent) (mapping : ProviderObservation) (renew : ℕ)
    → is_ok (admit previous i) ≡ true
    → Advances previous (some (fresh_state i mapping renew))
unfolding admit
admit-Advances none i mapping renew h = tt
admit-Advances (some s) i mapping renew h =
    ground (arith, eq_ℤ_iff i.handoff_generation s.intent.handoff_generation)

module _ (before : States) where
  insert-AllAdvance :
      (uid : String) (s : RuntimeState) (now : States)
      → Advances (lookup uid before) (some s)
      → AllAdvance before now
      → AllAdvance before (insert uid s now)
  insert-AllAdvance uid s now a h j = elim (Bool-cases (uid == j)) [
    | inl e ↦
        rw lookup-insert
          (rw e (subst (λ k. Advances (lookup k before) (some s)) ((eq_iff uid j).0 e) a))
    | inr e ↦ rw lookup-insert (rw e (h j))
  ]

  erase-AllAdvance :
      (uid : String) (now : States) → AllAdvance before now → AllAdvance before (erase uid now)
  erase-AllAdvance uid now h j = elim (Bool-cases (uid == j)) [
    | inl e ↦ rw lookup-erase (rw e (Advances-none (lookup j before)))
    | inr e ↦ rw lookup-erase (rw e (h j))
  ]

module _ {W : Type 0} (b : Backends W) (before : States) where
  abbrev Steady : {A : Type 0} → Exec (Run W) A → Type 0
  Steady m =
      Triple (λ s. AllAdvance before s.own) m (λ _ s. AllAdvance before s.own)
        (λ _ s. AllAdvance before s.own)

  store_state-Steady :
      (uid : String) (s : RuntimeState)
      → Advances (lookup uid before) (some s)
      → Steady (store_state b uid s)
  unfolding store_state
  store_state-Steady uid s a =
      Triple-bind {Q = λ states t. AllAdvance before states × AllAdvance before t.own} _ _
        (Triple-own_state (λ t h. (h, h)))
        λ states. Triple-set_own _ (λ t h. insert-AllAdvance before uid s states a h.0)

  delete_state-Steady : (uid : String) → Steady (delete_state b uid)
  unfolding delete_state
  delete_state-Steady uid =
      Triple-bind {Q = λ states t. AllAdvance before states × AllAdvance before t.own} _ _
        (Triple-own_state (λ t h. (h, h)))
        λ states. Triple-set_own _ (λ t h. erase-AllAdvance before uid states h.0)

  replaced-Steady : Steady (attempt (replace_rules b))
  replaced-Steady = Triple-attempt _ (replace_rules-Framed b (AllAdvance before))

  module _ (i : Intent) where
    block_state-Steady :
        (previous : Option RuntimeState) (e : Err)
        → lookup i.lease_uid before ≡ previous
        → Steady (block_state b i previous e)
    unfolding block_state
    block_state-Steady none e p = Triple-fail _ (λ s h. h)
    block_state-Steady (some s) e p =
        Triple-bind _ _ (store_state-Steady i.lease_uid _ (rw p (inl refl))) λ _.
          Triple-bind _ _ replaced-Steady
            (elim [ ok _ ↦ Triple-fail _ (λ s h. h) | err r ↦ Triple-fail _ (λ s h. h) ])

    accept_capabilities-Steady :
        (previous : Option RuntimeState) (c : Result Capabilities)
        → lookup i.lease_uid before ≡ previous
        → Steady (accept_capabilities b i previous c)
    unfolding accept_capabilities
    accept_capabilities-Steady previous (err e) p =
        without_capabilities-Framed b (AllAdvance before) previous e
    accept_capabilities-Steady previous (ok c) p =
        Triple-bind {Q = λ _ s. AllAdvance before s.own} _ _
          (Triple-attempt _
            (validate_capabilities-Framed b (AllAdvance before) i c (is_some previous)))
          (elim [ ok _ ↦ Triple-pure _ (λ s h. h) | err e ↦ block_state-Steady previous e p ])

    drop_lease-Steady : (e : Err) → Steady (drop_lease b i e)
    unfolding drop_lease
    drop_lease-Steady e =
        Triple-bind _ _ (delete_state-Steady i.lease_uid)
          λ _. Triple-bind _ _ replaced-Steady (λ r. Triple-fail _ (λ s h. h))

    refreshed-Steady :
        (previous : Option RuntimeState) (t : ℕ) (r : Result (ProviderObservation × ℕ))
        → Steady (refreshed b i previous t r)
    unfolding refreshed
    refreshed-Steady previous t (ok pair) = Triple-pure _ (λ s h. h)
    refreshed-Steady none t (err e) = drop_lease-Steady e
    refreshed-Steady (some s) t (err e) =
        Triple-if (ltb t s.mapping.expires_at) _ _ (λ _. Triple-pure _ (λ s h. h))
          (λ _. drop_lease-Steady e)

    refresh-Steady :
        (previous : Option RuntimeState) (t : ℕ) (request : LeaseRequest)
        → Steady (refresh b i previous t request)
    unfolding refresh
    refresh-Steady previous t request =
        Triple-bind _ _ (Triple-attempt _ (call-Framed b (AllAdvance before) _ _))
          λ answer. refreshed-Steady previous t _

    current_mapping-Steady :
        (previous : Option RuntimeState) (t : ℕ) (request : LeaseRequest)
        → Steady (current_mapping b i previous t request)
    unfolding current_mapping
    current_mapping-Steady none t request = refresh-Steady none t request
    current_mapping-Steady (some s) t request =
        Triple-if (refresh_due (some s) t) _ _ (λ _. refresh-Steady (some s) t request)
          (λ _. Triple-pure _ (λ s h. h))

    restore_state-Steady :
        (previous : Option RuntimeState)
        → lookup i.lease_uid before ≡ previous
        → Steady (restore_state b i previous)
    unfolding restore_state
    restore_state-Steady none p = delete_state-Steady i.lease_uid
    restore_state-Steady (some s) p = store_state-Steady i.lease_uid s (rw p (inl refl))

    when_replaced-Steady :
        (previous : Option RuntimeState) (mapping : ProviderObservation) (s : RuntimeState)
        (replaced : Result (Unit {0}))
        → lookup i.lease_uid before ≡ previous
        → Steady (when_replaced b i previous mapping s replaced)
    unfolding when_replaced
    when_replaced-Steady previous mapping s (err e) p =
        Triple-bind _ _ (restore_state-Steady previous p) λ _.
          Triple-bind _ _ (observation-Framed b (AllAdvance before) i mapping)
            (λ o. Triple-pure _ (λ s h. h))
    when_replaced-Steady previous mapping s (ok _) p =
        Triple-bind _ _ (Triple-attempt _ (call-Framed b (AllAdvance before) _ _))
          λ answer. when_ready-Framed b (AllAdvance before) i mapping s answer

    install-Steady :
        (previous : Option RuntimeState) (pair : ProviderObservation × ℕ)
        → lookup i.lease_uid before ≡ previous
        → is_ok (admit previous i) ≡ true
        → Steady (install b i previous pair)
    unfolding install
    install-Steady previous (mapping, renew) p a =
        Triple-bind _ _
          (store_state-Steady i.lease_uid _ (rw p (admit-Advances previous i mapping renew a)))
          λ _. Triple-bind _ _ replaced-Steady (λ r. when_replaced-Steady previous mapping _ r p)

    reconcile_from-Steady :
        (previous : Option RuntimeState)
        → lookup i.lease_uid before ≡ previous
        → Steady (reconcile_from b i previous)
    unfolding reconcile_from
    reconcile_from-Steady previous p =
        Triple-bind-lift (admit previous i) _ (λ e q s h. h)
          λ _ admitted.
            Triple-bind {Q = λ _ s. AllAdvance before s.own} _ _
              (Triple-attempt _ (call-Framed b (AllAdvance before) _ _))
              λ c. Triple-bind _ _ (accept_capabilities-Steady previous c p) λ _.
                Triple-bind _ _ (lift-Framed b (AllAdvance before) (provider_request i)) λ request.
                  Triple-bind _ _ (now-Framed b (AllAdvance before)) λ t.
                    Triple-bind _ _ (current_mapping-Steady previous t request)
                      λ pair. install-Steady previous pair p (ap is_ok admitted)

  -- The states that the method finds are those that it started from.
  from_states :
      {A : Type 0} (m : States → Exec (Run W) A)
      → ((states : States) → states ≡ before → Steady (m states))
      → Triple
          (λ s. s.own ≡ before)
          (own_state >>= m)
          (λ _ s. AllAdvance before s.own)
          (λ _ s. AllAdvance before s.own)
  from_states m k =
      Triple-bind {Q = λ states s. (states ≡ before) × AllAdvance before s.own} _ _
        (Triple-own_state (λ s h. (h, λ j. rw h (Advances-refl (lookup j before)))))
        λ states. Triple-known _ (k states)

  unmoved : (s : Run W) → s.own ≡ before → AllAdvance before s.own
  unmoved s h j = rw h (Advances-refl (lookup j before))

  reconcile-Steady :
      (g : Gateway) (i : Intent)
      → Triple
          (λ s. s.own ≡ before)
          (reconcile b g i)
          (λ _ s. AllAdvance before s.own)
          (λ _ s. AllAdvance before s.own)
  unfolding reconcile
  reconcile-Steady g i =
      Triple-bind-lift (validate_runtime_intent g i) _ (λ e q. unmoved)
        λ _ valid.
          Triple-bind-lift _ _ (λ e q. unmoved)
            λ _ set. from_states _ (λ states same.
              reconcile_from-Steady i (lookup i.lease_uid states)
                (ap (lookup i.lease_uid) (sym same)))

-- `Reconcile` moves the state of any lease only forward: however it ends and whatever the provider
-- and the backends answer, each lease that was and still is there keeps its handoff generation, or
-- has got a greater one after its earlier target had been drained.
pub reconcile-AllAdvance :
    {W : Type 0} (b : Backends W) (g : Gateway) (i : Intent) (s : Run W)
    → AllAdvance s.own (reconcile b g i s).1.own
reconcile-AllAdvance b g i s =
    Post-both (λ _ t. AllAdvance s.own t.own) (λ _ t. AllAdvance s.own t.own)
      (λ t. AllAdvance s.own t.own) (reconcile b g i s).0 (reconcile b g i s).1 (λ a t. t)
      (λ e t. t) ((reconcile-Steady b s.own g i).at s refl)
