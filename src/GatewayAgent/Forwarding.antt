-- ===== src/GatewayAgent/Forwarding.antt =====
-- `Reconcile` of internal/gatewaydataplane/service.go: when it forwards, and how it ends, whatever its
-- environment does.
use waycloak.Prelude.{
  Bool, true, false, ◌||◌, not, List, [], ◌∷◌, ◌≡◌, refl, ◌∙◌, ◌⊎◌, inl, inr, arith,
}
use waycloak.Exec.{Err, Result, ok, err, is_ok, fail}
use waycloak.Exec.Triple.{
  Post, Triple, Triple-pure, Triple-fail, Triple-if, Triple-bind, Triple-attempt, Triple-call,
  Triple-own_state, Triple-set_own, Triple-weaken,
}
use waycloak.GatewayAgent.{
  EngineObservation, State, Service, Call, ensure_overlay, replace_rules, observe, probe, Run,
  replace, withdraw_rules, unready, when_forwarding, when_probed, when_engine_ready,
  engine_answered, tunnel_of, overlay_ensured, reconcile,
}

module _ {C : Type 0} where
  -- The engine was observed with tunnel and DNS ready, right behind an overlay in place.
  abbrev pub EngineReady : List (Call C) → Type 0
  EngineReady (observe (ok o) ∷ ensure_overlay _ (ok _) ∷ _) =
      (o.tunnel_ready ≡ true) × (o.dns_ready ≡ true)
  EngineReady _ = ⊥

  -- Rules that do not forward may have been installed since.
  abbrev pub Reasserted : List (Call C) → Type 0
  Reasserted (replace_rules _ false (ok _) ∷ rest) = EngineReady rest
  Reasserted l = EngineReady l

  abbrev pub EnsuredFirst : List (Call C) → Type 0
  EnsuredFirst (ensure_overlay _ (ok _) ∷ _) = Unit
  EnsuredFirst _ = ⊥

  -- The split-DNS probe succeeded then.
  abbrev pub Grounds : List (Call C) → Type 0
  Grounds (probe (ok _) ∷ rest) = Reasserted rest
  Grounds _ = ⊥

  -- Rules that forward are installed only on these grounds.
  abbrev pub Guarded : List (Call C) → Type 0
  Guarded [] = Unit
  Guarded (replace_rules _ true _ ∷ rest) = Grounds rest × Guarded rest
  Guarded (_ ∷ rest) = Guarded rest

  -- The newest rules forward, and were installed.
  abbrev pub Open : List (Call C) → Type 0
  Open [] = ⊥
  Open (replace_rules _ forward r ∷ _) = (forward ≡ true) × (is_ok r ≡ true)
  Open (_ ∷ rest) = Open rest

  -- The newest rules asked for do not forward.
  abbrev pub Closed : List (Call C) → Type 0
  Closed [] = ⊥
  Closed (replace_rules _ forward _ ∷ _) = forward ≡ false
  Closed (_ ∷ rest) = Closed rest

abbrev pub all_ready : State
all_ready = record { healthy = true; tunnel_ready = true; dns_ready = true }

module _ {C W : Type 0} (s : Service C W) where
  abbrev pub Opened : Unit {0} → Run C W → Type 0
  Opened _ t = (t.own ≡ all_ready) × Open t.log × Guarded t.log

  abbrev pub Withdrawn : Err → Run C W → Type 0
  Withdrawn _ t = (t.own.healthy ≡ false) × Closed t.log × Guarded t.log

  -- The service is not healthy, over grounds that held so far.
  abbrev Down : Run C W → Type 0
  Down t = (t.own.healthy ≡ false) × Guarded t.log

  withdraw_rules-Withdrawn : (e : Err) → Triple Down (withdraw_rules s e) Opened Withdrawn
  unfolding withdraw_rules replace
  withdraw_rules-Withdrawn e =
      Triple-bind {Q = λ _ t. (t.own.healthy ≡ false) × Closed t.log × Guarded t.log} _ _
        (Triple-attempt _
          (Triple-call _ _ (λ a w t h. (h.0, refl, h.1)) (λ x w t h. (h.0, refl, h.1))))
        λ r. Triple-fail _ (λ t h. h)

  unready-Withdrawn : (e : Err) → Triple (λ t. Guarded t.log) (unready s e) Opened Withdrawn
  unfolding unready
  unready-Withdrawn e =
      Triple-bind {Q = λ _ t. Guarded t.log} _ _ (Triple-own_state (λ t h. h)) λ o.
        Triple-bind {Q = λ _. Down} _ _ (Triple-set_own _ (λ t h. (refl, h)))
          λ _. withdraw_rules-Withdrawn e

  -- What the answer to the rules that forward leaves.
  abbrev Forwarded : Result (Unit {0}) → Run C W → Type 0
  Forwarded r t =
      (t.own.tunnel_ready ≡ true)
      × (t.own.dns_ready ≡ true)
      × (is_ok r ≡ true → Open t.log)
      × Guarded t.log

  when_forwarding-Opened :
      (r : Result (Unit {0})) → Triple (Forwarded r) (when_forwarding s r) Opened Withdrawn
  unfolding when_forwarding
  when_forwarding-Opened (err e) =
      Triple-bind {Q = λ _ t. Guarded t.log} _ _ (Triple-own_state (λ t (a, b, f, g). g)) λ o.
        Triple-bind {Q = λ _. Down} _ _ (Triple-set_own _ (λ t h. (refl, h)))
          λ _. withdraw_rules-Withdrawn e
  when_forwarding-Opened (ok _) =
      Triple-bind {Q = λ o t. (o ≡ t.own) × Forwarded (ok tt) t} _ _
        (Triple-own_state (λ t h. (refl, h)))
        λ o. Triple-set_own _ (λ t (e, (a, b, f, g)). (cc, f refl, g))

  -- A precondition that speaks of the log, beside the flags that are up.
  abbrev Probing : (List (Call C) → Type 0) → Run C W → Type 0
  Probing L t = (t.own.tunnel_ready ≡ true) × L t.log × Guarded t.log

  when_probed-Opened :
      (r : Result (Unit {0}))
      → Triple
          (λ t. (t.own.tunnel_ready ≡ true) × (is_ok r ≡ true → Grounds t.log) × Guarded t.log)
          (when_probed s r)
          Opened
          Withdrawn
  unfolding when_probed replace
  when_probed-Opened (err e) =
      Triple-weaken _ (unready-Withdrawn _) (λ t (a, f, g). g) (λ a t h. h) (λ x t h. h)
  when_probed-Opened (ok _) =
      Triple-bind {Q = λ o t. (o ≡ t.own) × Probing Grounds t} _ _
        (Triple-own_state (λ t (a, f, g). (refl, (a, f refl, g))))
        λ o.
          Triple-bind
            {Q = λ _ t.
              (t.own.tunnel_ready ≡ true)
              × (t.own.dns_ready ≡ true)
              × Grounds t.log
              × Guarded t.log}
            _ _ (Triple-set_own _ (λ t (e, (a, f, g)). (cc, refl, f, g)))
            λ _.
              Triple-bind {Q = Forwarded} _ _
                (Triple-attempt _ (
                  Triple-call _ _ (λ _ w t (a, b, f, g). (a, b, (λ _. (refl, refl)), (f, g)))
                    (λ x w t (a, b, f, g). (a, b, (λ q. (refl, q)), (f, g)))))
                when_forwarding-Opened

  when_engine_ready-Opened : Triple (Probing EngineReady) (when_engine_ready s) Opened Withdrawn
  unfolding when_engine_ready replace
  when_engine_ready-Opened =
      Triple-bind {Q = λ o t. (o ≡ t.own) × Probing EngineReady t} _ _
        (Triple-own_state (λ t h. (refl, h)))
        λ o.
          Triple-bind {Q = λ _. Probing Reasserted} _ _
            (Triple-if _ _ _
              (λ b. Triple-pure _ (λ t (e, (a, f, g)). (a, EngineReady-Reasserted t.log f, g)))
              (λ b.
                Triple-call _ _ (λ _ w t (e, (a, f, g)). (a, f, g))
                  (λ x w t (e, (a, f, g)). (still_down o t.own e b, refl, g))))
            λ _.
              Triple-bind
                {Q = λ r t.
                  (t.own.tunnel_ready ≡ true) × (is_ok r ≡ true → Grounds t.log) × Guarded t.log}
                _ _
                (Triple-attempt _ (
                  Triple-call _ _ (λ _ w t (a, f, g). (a, (λ _. f), g))
                    (λ x w t (a, f, g). (a, (λ q. cc), g))))
                when_probed-Opened
    where
      still_down : (o p : State) → o ≡ p → o.healthy ≡ false → p.healthy ≡ false
      still_down o p e b = cc

      EngineReady-Reasserted : (l : List (Call C)) → EngineReady l → Reasserted l
      EngineReady-Reasserted (observe r ∷ rest) h = h
      EngineReady-Reasserted [] h = h
      EngineReady-Reasserted (ensure_overlay c r ∷ rest) h = h
      EngineReady-Reasserted (probe r ∷ rest) h = h
      EngineReady-Reasserted (replace_rules c f r ∷ rest) h = absurd h

  -- What the engine's answer leaves.
  abbrev Observed : Result EngineObservation → Run C W → Type 0
  Observed (ok o) t =
      (t.own.tunnel_ready ≡ o.tunnel_ready)
      × (o.tunnel_ready ≡ true → o.dns_ready ≡ true → EngineReady t.log)
      × Guarded t.log
  Observed (err e) t = Guarded t.log

  engine_answered-Opened :
      (r : Result EngineObservation) → Triple (Observed r) (engine_answered s r) Opened Withdrawn
  unfolding engine_answered
  engine_answered-Opened (err e) = unready-Withdrawn e
  engine_answered-Opened (ok o) =
      Triple-if _ _ _
        (λ b. Triple-weaken _ (unready-Withdrawn _) (λ t (a, f, g). g) (λ a t h. h) (λ x t h. h))
        (λ b.
          Triple-weaken _ when_engine_ready-Opened
            (λ t (a, f, g). (
              a ∙ (both o.tunnel_ready o.dns_ready b).0,
              f (both o.tunnel_ready o.dns_ready b).0 (both o.tunnel_ready o.dns_ready b).1,
              g,
            ))
            (λ a t h. h) (λ x t h. h))
    where
      both : (a b : Bool) → (not a || not b) ≡ false → (a ≡ true) × (b ≡ true)
      both a b e = (ground arith, ground arith)

  -- The same before the flag is set.
  abbrev Answered : Result EngineObservation → Run C W → Type 0
  Answered (ok o) t =
      (o.tunnel_ready ≡ true → o.dns_ready ≡ true → EngineReady t.log) × Guarded t.log
  Answered (err e) t = Guarded t.log

  Answered-Observed :
      (r : Result EngineObservation) (o : State) (t : Run C W)
      → Answered r t
      → Observed r (record t { own = record o { tunnel_ready = tunnel_of r } })
  Answered-Observed (ok x) o t (f, g) = (refl, f, g)
  Answered-Observed (err e) o t g = g

  overlay_ensured-Opened :
      (r : Result (Unit {0}))
      → Triple
          (λ t. (is_ok r ≡ true → EnsuredFirst t.log) × Guarded t.log)
          (overlay_ensured s r)
          Opened
          Withdrawn
  unfolding overlay_ensured
  overlay_ensured-Opened (err e) =
      Triple-bind {Q = λ _. Down} _ _ (Triple-set_own _ (λ t (f, g). (refl, g)))
        λ _. withdraw_rules-Withdrawn e
  overlay_ensured-Opened (ok _) =
      Triple-bind {Q = Answered} _ _
        (Triple-attempt _ (
          Triple-call _ _
            (λ o w t (f, g). ((λ a b. EnsuredFirst-EngineReady o t.log (f refl) a b), g))
            (λ x w t (f, g). g)))
        λ r. Triple-bind {Q = λ o t. Answered r t} _ _ (Triple-own_state (λ t h. h)) λ o.
          Triple-bind {Q = λ _. Observed r} _ _
            (Triple-set_own _ (λ t h. Answered-Observed r o t h)) λ _. engine_answered-Opened r
    where
      EnsuredFirst-EngineReady :
          (o : EngineObservation) (l : List (Call C))
          → EnsuredFirst l
          → o.tunnel_ready ≡ true
          → o.dns_ready ≡ true
          → EngineReady (observe (ok o) ∷ l)
      EnsuredFirst-EngineReady o (ensure_overlay c (ok x) ∷ rest) h a b = (a, b)
      EnsuredFirst-EngineReady o (ensure_overlay c (err x) ∷ rest) h a b = absurd h
      EnsuredFirst-EngineReady o [] h a b = absurd h
      EnsuredFirst-EngineReady o (observe r ∷ rest) h a b = absurd h
      EnsuredFirst-EngineReady o (probe r ∷ rest) h a b = absurd h
      EnsuredFirst-EngineReady o (replace_rules c f r ∷ rest) h a b = absurd h

  pub reconcile_wired : s.wired ≡ true → Triple (λ t. Guarded t.log) (reconcile s) Opened Withdrawn
  unfolding reconcile
  reconcile_wired w =
      Triple-if _ _ _ (λ b. absurd (wired_not s.wired w b))
        (λ b.
          Triple-bind {Q = λ r t. (is_ok r ≡ true → EnsuredFirst t.log) × Guarded t.log} _ _
            (Triple-attempt _
              (Triple-call _ _ (λ _ v t g. ((λ _. tt), g)) (λ x v t g. ((λ q. cc), g))))
            overlay_ensured-Opened)
    where
      wired_not : (b : Bool) → b ≡ true → not b ≡ true → ⊥
      wired_not b h k = ground arith

  reconcile_unwired :
      (t : Run C W) → s.wired ≡ false → ((reconcile s t).1 ≡ t) × (is_ok (reconcile s t).0 ≡ false)
  unfolding reconcile fail
  reconcile_unwired t w = rw w (refl, refl)

-- Reconcile of a service over rules that forward only on their grounds leaves such rules. It succeeds
-- only with all three flags up and rules that forward as the newest ones, installed without an error.
-- It fails with everything as it was, where a part of the service is missing, or with the health flag
-- down and rules that do not forward as the newest ones asked for.
pub reconcile_outcome :
    {C W : Type 0} (s : Service C W) (t : Run C W)
    → Guarded t.log
    → Post
        (λ _ u. (u.own ≡ all_ready) × Open u.log × Guarded u.log)
        (λ _ u.
          ((s.wired ≡ false) × (u ≡ t)) ⊎ ((u.own.healthy ≡ false) × Closed u.log × Guarded u.log))
        (reconcile s t).0
        (reconcile s t).1
reconcile_outcome {C} {W} s t g = by_wiring s.wired refl
  where
    impossible : true ≡ false → ⊥
    impossible e = cc

    Outcome : Result (Unit {0}) → Run C W → Type 0
    Outcome =
        Post (λ _ u. (u.own ≡ all_ready) × Open u.log × Guarded u.log)
          (λ _ u.
            ((s.wired ≡ false) × (u ≡ t))
            ⊎ ((u.own.healthy ≡ false) × Closed u.log × Guarded u.log))

    failed :
        (r : Result (Unit {0})) (u : Run C W)
        → s.wired ≡ false
        → (u ≡ t) × (is_ok r ≡ false)
        → Outcome r u
    failed (ok _) u w h = absurd (impossible h.1)
    failed (err e) u w h = inl (w, h.0)

    ended : (r : Result (Unit {0})) (u : Run C W) → Post (Opened s) (Withdrawn s) r u → Outcome r u
    ended (ok _) u h = h
    ended (err e) u h = inr h

    by_wiring : (b : Bool) → s.wired ≡ b → Outcome (reconcile s t).0 (reconcile s t).1
    by_wiring false w = failed _ _ w (reconcile_unwired s t w)
    by_wiring true w = ended _ _ ((reconcile_wired s w).at t g)
