-- ===== src/Dataplane/Lockdown.antt =====
-- The order of the backend's calls: the path of a workload opens behind an installed lockdown.
use waycloak.Prelude.{String, ◌≡◌, refl, ap, List, [], ◌∷◌, ◌⊎◌, inl}
use waycloak.Exec.{Result, ok, err, Exec, lift, wrapping, ◌>>◌, Traced, perform}
use waycloak.Exec.Triple.{
  Triple, Post-both, Post-ok, Triple-bind, Triple-bind-lift, Triple-lift, Triple-wrapping,
  Triple-perform,
}
use waycloak.Dataplane.{
  Netip, Config, Backend, Call, install_lockdown, configure, repair, validate, prepare, verify,
}

module _ (n : Netip) where
  -- `uid` is locked down in a log.
  abbrev LockedDown : String → List (Call n) → Type 0
  LockedDown uid [] = ⊥
  LockedDown uid (install_lockdown u (ok _) ∷ log) = (u ≡ uid) ⊎ LockedDown uid log
  LockedDown uid (_ ∷ log) = LockedDown uid log

  -- Whatever was configured or repaired was a valid configuration, and its workload had been locked
  -- down before.
  abbrev pub Behind : List (Call n) → Type 0
  Behind [] = Unit
  Behind (configure c r ∷ log) = (validate n c ≡ ok tt) × LockedDown c.pod_uid log × Behind log
  Behind (repair c r ∷ log) = (validate n c ≡ ok tt) × LockedDown c.pod_uid log × Behind log
  Behind (_ ∷ log) = Behind log

  module _ {W : Type 0} (b : Backend n W) where
    abbrev State : Type 0
    State = Traced W (Call n)

    -- The log is as it should be, however the action returns.
    abbrev Keeps : {A : Type 0} → Exec State A → Type 0
    Keeps {A} m = Triple {A = A} (λ s. Behind s.log) m (λ _ s. Behind s.log) (λ _ s. Behind s.log)

    lift-Keeps : {A : Type 0} (r : Result A) → Keeps (lift r)
    lift-Keeps (ok a) = Triple-lift (ok a) (λ s h. h)
    lift-Keeps (err e) = Triple-lift (err e) (λ s h. h)

    abbrev Locked : Config n → State → Type 0
    Locked c s = LockedDown c.pod_uid s.log × Behind s.log

    validated :
        (c : Config n) (t : String) (r : Result (Unit {0}))
        → Triple {S = State}
            (Locked c)
            (wrapping t (lift r))
            (λ _ s. (r ≡ ok tt) × Locked c s)
            (λ _ s. Behind s.log)
    validated c t (ok tt) = Triple-wrapping t _ (Triple-lift (ok tt) (λ s h. (refl, h)))
    validated c t (err e) = Triple-wrapping t _ (Triple-lift (err e) (λ s h. h.1))

    -- A lockdown, the validation and then a call that takes the configuration.
    opened :
        (c : Config n) (t t' t'' : String) (op : Result (Unit {0}) → Call n) (m : Exec W (Unit {0}))
        → ((r : Result (Unit {0})) (log : List (Call n))
            → (validate n c ≡ ok tt)
            → LockedDown c.pod_uid log
            → Behind log
            → Behind (op r ∷ log))
        → Keeps (
            wrapping t (perform (install_lockdown c.pod_uid) (b.install_lockdown c.pod_uid))
            >> (wrapping t' (lift (validate n c)) >> wrapping t'' (perform op m)))
    opened c t t' t'' op m keep =
        Triple-bind {Q = λ _. Locked c} _ _
          (Triple-wrapping t _ (Triple-perform _ _ (λ a w s h. (inl refl, h)) (λ e w s h. h)))
          λ _.
            Triple-bind {Q = λ _ s. (validate n c ≡ ok tt) × Locked c s} _ _
              (validated c t' (validate n c))
              λ _. Triple-wrapping t'' _ (
                Triple-perform op m (λ a w s h. keep (ok a) s.log h.0 h.1.0 h.1.1)
                  (λ e w s h. keep (err e) s.log h.0 h.1.0 h.1.1))

    after_checks :
        {A : Type 0} (r : Result (Unit {0})) (m : Exec State A) → Keeps m → Keeps (lift r >> m)
    after_checks r m t = Triple-bind {Q = λ _ s. Behind s.log} _ _ (lift-Keeps r) (λ _. t)

    at_end :
        {A : Type 0} (m : Exec State A) → Keeps m → (s : State) → Behind s.log → Behind (m s).1.log
    at_end {A} m t s h =
        Post-both {S = State} {A = A} (λ _ s. Behind s.log) (λ _ s. Behind s.log)
          (λ s. Behind s.log) (m s).0 (m s).1 (λ a h. h) (λ e h. h) (t.at s h)

    -- Whatever the backend answers, Prepare configures a workload's path only with a configuration
    -- that is valid, and after the lockdown of that workload was installed: a log that was so stays
    -- so, also when Prepare fails.
    pub prepare-Behind : (c : Config n) (s : State) → Behind s.log → Behind (prepare n b c s).1.log
    unfolding prepare
    prepare-Behind c s h =
        at_end _
          (after_checks _ _
            (after_checks _ _ (opened c _ _ _ (configure c) _ (λ r log v l k. (v, l, k)))))
          s h

    -- Whatever the backend answers, Verify repairs a workload's path only with a configuration
    -- that is valid, and after the lockdown of that workload was installed: a log that was so
    -- stays so, also when Verify fails.
    pub verify-Behind : (c : Config n) (s : State) → Behind s.log → Behind (verify n b c s).1.log
    unfolding verify
    verify-Behind c s h =
        at_end _
          (after_checks _ _
            (after_checks _ _ (opened c _ _ _ (repair c) _ (λ r log v l k. (v, l, k)))))
          s h

    abbrev Done : Config n → List (Call n) → Unit {0} → State → Type 0
    Done c log _ s =
        (validate n c ≡ ok tt)
        × (s.log ≡ configure c (ok tt) ∷ install_lockdown c.pod_uid (ok tt) ∷ log)

    checked :
        {P : State → Type 0} (t : String) (r : Result (Unit {0}))
        → Triple P (wrapping t (lift r)) (λ _ s. (r ≡ ok tt) × P s) (λ _ _. Unit)
    checked t (ok tt) = Triple-wrapping t _ (Triple-lift (ok tt) (λ s h. (refl, h)))
    checked t (err e) = Triple-wrapping t _ (Triple-lift (err e) (λ s h. tt))

    prepare-Done :
        (c : Config n) (log : List (Call n))
        → Triple (λ s. s.log ≡ log) (prepare n b c) (Done c log) (λ _ _. Unit)
    unfolding prepare
    prepare-Done c log =
        Triple-bind-lift _ _ (λ _ _ _ _. tt)
          λ _ _.
            Triple-bind-lift _ _ (λ _ _ _ _. tt)
              λ _ _.
                Triple-bind {Q = λ _ s. s.log ≡ install_lockdown c.pod_uid (ok tt) ∷ log} _ _
                  (Triple-wrapping _ _ (
                    Triple-perform _ _
                      (λ a w s h. ap (λ l. install_lockdown c.pod_uid (ok tt) ∷ l) h)
                      (λ e w s h. tt)))
                  λ _.
                    Triple-bind
                      {Q = λ _ s.
                        (validate n c ≡ ok tt) × (s.log ≡ install_lockdown c.pod_uid (ok tt) ∷ log)}
                      _ _ (checked _ (validate n c))
                      λ _. Triple-wrapping _ _ (
                        Triple-perform _ _ (λ a w s h. (h.0, ap (λ l. configure c (ok tt) ∷ l) h.1))
                          (λ e w s h. tt))

    -- When Prepare succeeds, the configuration is valid, and the lockdown and then the
    -- configuration are exactly the calls made, both answered without an error.
    pub prepare_done :
        (c : Config n) (s : State)
        → (prepare n b c s).0 ≡ ok tt
        → (validate n c ≡ ok tt)
          × ((prepare n b c s).1.log
              ≡ configure c (ok tt) ∷ install_lockdown c.pod_uid (ok tt) ∷ s.log)
    prepare_done c s h =
        Post-ok (Done c s.log) (λ _ _. Unit) (prepare n b c s).0 (prepare n b c s).1 tt h
          ((prepare-Done c s.log).at s refl)
