-- ===== src/Cni/Plugin/Protect.antt =====
-- The second half of ADD in internal/cni/plugin.go: deny, record, wait, program, record.
use waycloak.Prelude.{ℕ, String, true, eq_refl, List, ◌∷◌, ◌≡◌, refl, inl, inr}
use waycloak.Exec.{Err, Result, ok, err, Exec, lift, attempt, Traced}
use waycloak.Exec.Triple.{
  Triple, Triple-pure, Triple-lift, Triple-wrapping, Triple-bind, Triple-attempt, Triple-weaken,
  Triple-perform, Triple-observe,
}
use waycloak.Cni.Types.{
  Binding, locked_down, ready, other, Phase, validate_binding, Attachment, Request,
}
use waycloak.Cni.Calls.{Plugin, Call, cleanup, save}
use waycloak.Cni.Plugin.{locked_attachment, allocated_attachment, add_recorded, add_protected}
use waycloak.Cni.Calls.{call_lockdown, call_cleanup, call_save, call_binding, call_prepare}
use waycloak.Cni.Plugin.Log.{
  denied, Prepared, GuardedSave, Guarded, lockdowns, Protected, Refused, Safe,
}
use waycloak.Cni.Plugin.Retry.{retry_value-Tried}

saved_GuardedSave :
    (ph : Phase) (a : Attachment) (log : List Call)
    → Prepared a log
    → denied a.pod.net_ns a.pod.uid log ≡ true
    → GuardedSave ph a log
saved_GuardedSave ready a log h d = (h, d)
saved_GuardedSave locked_down a log h d = tt
saved_GuardedSave (other text) a log h d = tt

module _ {W : Type 0} (p : Plugin W) (r : Request) (n : ℕ) where
  abbrev pub Fresh : Traced W Call → Type 0
  Fresh s = Guarded s.log × (lockdowns s.log ≡ n)

  abbrev pub Stopped : Err → Traced W Call → Type 0
  Stopped e s = Guarded s.log × Refused r n s.log

  call_lockdown-Safe :
      Triple Fresh (call_lockdown p r.pod.net_ns r.pod.uid) (λ _ s. Safe r s.log) Stopped
  unfolding call_lockdown
  call_lockdown-Safe =
      Triple-perform _ _ (λ a w s h. (h.0, simp eq_refl)) (λ e w s h. (h.0, inr (inl h.1)))

  -- What the store answered to the record of the deny state.
  abbrev Recorded : Result (Unit {0}) → List Call → Type 0
  Recorded (ok _) log = Safe r log
  Recorded (err e) (save a (err _) ∷ log) = GuardedSave a.phase a log × Safe r log
  Recorded (err e) _ = ⊥

  rolled_back :
      (e : Err) (x : Result (Unit {0})) (log : List Call)
      → Recorded (err e) log
      → Guarded log × Refused r n (cleanup r.pod.net_ns r.pod.uid x ∷ log)
  rolled_back e x (save a (err y) ∷ log) h = ((h.0, h.1.0), inr (inr (refl, refl, h.1.1)))
  rolled_back e x _ h = absurd h

  add_recorded-Safe :
      (recorded : Result (Unit {0}))
      → Triple
          (λ s. Recorded recorded s.log)
          (add_recorded p r recorded)
          (λ _ s. Safe r s.log)
          Stopped
  unfolding add_recorded call_cleanup
  add_recorded-Safe (ok _) = Triple-pure _ (λ s h. h)
  add_recorded-Safe (err e) =
      Triple-bind {Q = λ _ s. Guarded s.log × Refused r n s.log}
        (attempt (call_cleanup p r.pod.net_ns r.pod.uid)) _
        (Triple-attempt _ (
          Triple-perform _ _ (λ a w s h. rolled_back e (ok a) s.log h)
            (λ x w s h. rolled_back e (err x) s.log h)))
        (elim [ ok _ ↦ Triple-lift _ (λ s h. h) | err f ↦ Triple-lift _ (λ s h. h) ])

  -- A call that touches neither the policy nor a record of a ready attachment.
  kept :
      {A : Type 0} (m : Exec (Traced W Call) A)
      → Triple (λ s. Safe r s.log) m (λ _ s. Safe r s.log) (λ _ s. Safe r s.log)
      → Triple (λ s. Safe r s.log) m (λ _ s. Safe r s.log) Stopped
  kept m t = Triple-weaken m t (λ s h. h) (λ a s h. h) (λ e s h. (h.0, inl h.1))

  pub lift-Fresh : (x : Result (Unit {0})) → Triple Fresh (lift x) (λ _ s. Fresh s) (λ _ s. Fresh s)
  lift-Fresh (ok _) = Triple-lift _ (λ s h. h)
  lift-Fresh (err e) = Triple-lift _ (λ s h. h)

  call_binding-Safe :
      Triple (λ s. Safe r s.log) (call_binding p r.pod) (λ _ s. Safe r s.log) (λ _ s. Safe r s.log)
  unfolding call_binding
  call_binding-Safe = Triple-perform _ _ (λ a w s h. h) (λ e w s h. h)

  call_save-Safe :
      (a : Attachment)
      → a.phase ≡ locked_down
      → Triple
          (λ s. Safe r s.log)
          (call_save p a)
          (λ _ s. Safe r s.log)
          (λ e s. Recorded (err e) s.log)
  unfolding call_save
  call_save-Safe a e =
      Triple-perform _ _ (λ x w s h. ((rw e tt, h.0), h.1)) (λ x w s h. (rw e tt, h))

  call_save_allocated-Safe :
      (a : Attachment)
      → a.phase ≡ locked_down
      → Triple (λ s. Safe r s.log) (call_save p a) (λ _ s. Safe r s.log) Stopped
  unfolding call_save
  call_save_allocated-Safe a e =
      Triple-perform _ _ (λ x w s h. ((rw e tt, h.0), h.1)) (λ x w s h. ((rw e tt, h.0), inl h.1))

  lift-Safe :
      (x : Result (Unit {0}))
      → Triple {S = Traced W Call}
          (λ s. Safe r s.log)
          (lift x)
          (λ _ s. Safe r s.log)
          (λ _ s. Safe r s.log)
  lift-Safe (ok _) = Triple-lift _ (λ s h. h)
  lift-Safe (err e) = Triple-lift _ (λ s h. h)

  call_prepare-Prepared :
      (a : Attachment) (b : Binding)
      → a.pod ≡ r.pod
      → a.binding_uid ≡ b.uid
      → a.binding_generation ≡ b.generation
      → a.gateway_uid ≡ b.gateway_uid
      → Triple
          (λ s. Safe r s.log)
          (call_prepare p r.pod b)
          (λ _ s. Safe r s.log × Prepared a s.log)
          Stopped
  unfolding call_prepare
  call_prepare-Prepared a b ep eu eg ew =
      Triple-perform _ _ (λ x w s h. (((h.1, h.0), h.1), (ep, eu, eg, ew)))
        (λ e w s h. ((h.1, h.0), inl h.1))

  call_save-Protected :
      (a : Attachment)
      → a.phase ≡ ready
      → a.pod ≡ r.pod
      → Triple
          (λ s. Safe r s.log × Prepared a s.log)
          (call_save p a)
          (λ _ s. Guarded s.log × Protected r s.log)
          Stopped
  unfolding call_save
  call_save-Protected a er ep =
      Triple-perform _ _
        (λ x w s h. (
          (saved_GuardedSave a.phase a s.log h.1 (rw ep h.0.1), h.0.0),
          (ep, rw er refl, h.1, h.0.1),
        ))
        (λ e w s h. ((saved_GuardedSave a.phase a s.log h.1 (rw ep h.0.1), h.0.0), inl h.0.1))

  pub add_protected-Protected :
      (ns : String)
      → Triple Fresh (add_protected p r ns) (λ _ s. Guarded s.log × Protected r s.log) Stopped
  unfolding add_protected
  add_protected-Protected ns = Triple-bind _ _ (Triple-wrapping _ _ call_lockdown-Safe) λ _.
      Triple-bind _ _ (Triple-observe {Q = λ _ s. Safe r s.log} _ (λ t w s h. h)) λ locked_at.
        Triple-bind _ _ (Triple-attempt {Q = λ x s. Recorded x s.log} _ (call_save-Safe _ refl))
          λ recorded. Triple-bind _ _ (add_recorded-Safe recorded) λ _.
            Triple-bind _ _
              (Triple-wrapping _ _ (
                kept _ (
                  retry_value-Tried p (λ log. Safe r log) (λ _ s. Safe r s.log) _ _
                    call_binding-Safe)))
              λ found.
                Triple-bind _ _
                  (Triple-wrapping _ _ (kept _ (lift-Safe (validate_binding found r.pod.uid))))
                  λ _.
                    Triple-bind _ _ (Triple-observe {Q = λ _ s. Safe r s.log} _ (λ t w s h. h))
                      λ allocated_at.
                        Triple-bind _ _ (Triple-wrapping _ _ (call_save_allocated-Safe _ refl)) λ _.
                          Triple-bind _ _
                            (Triple-wrapping _ _ (
                              call_prepare-Prepared
                                (allocated_attachment (locked_attachment r ns locked_at) found
                                  allocated_at)
                                found refl refl refl refl))
                            λ _.
                              Triple-bind _ _
                                (Triple-observe
                                  {Q = λ _ s.
                                    Safe r s.log
                                    × Prepared
                                        (allocated_attachment (locked_attachment r ns locked_at)
                                          found allocated_at)
                                        s.log}
                                  _ (λ t w s h. h))
                                λ ready_at. Triple-wrapping _ _ (call_save-Protected _ refl refl)
