-- ===== src/Scheduling/Capability.antt =====
-- When internal/scheduling/nodes.go labels a Node as ready for protected Pods.
use waycloak.Prelude.{
  ℕ, String, Bool, true, false, ◌&&◌, ◌==◌, not, ◌≡◌, refl, sym, ◌∙◌, ◌+◌, ◌≤◌, ◌⊎◌, inl, inr,
  Bool-cases, List, [], ◌∷◌, Option, none, some, if◌then◌else◌, arith,
}
use waycloak.Prelude.Assoc.{lookup, insert, erase, lookup-erase}
use waycloak.Exec.{Result, ok, err, Exec, pure, fail, lift, Traced, observe, errors_is}
use waycloak.Exec.Triple.{
  Post, Triple-known, Triple, Post-both, Triple-bind, Triple-lift, Triple-wrapping, Triple-perform,
  Triple-attempt, Triple-if, Triple-pure, Triple-fail,
}
use waycloak.Scheduling.{
  skew_of, NodeReport, Node, Publisher, Call, get, apply, patch, cni_ready_label,
  capability_epoch_label, label, same_release, supports_release_identity, is_in_window,
  is_supported, without_capability, withdraw_found, withdraw, withdraw_and_fail, labels_for,
  publish, apply_report, is_not_found,
}

not-not : (b : Bool) → not b ≡ false → b ≡ true
not-not true h = refl
not-not false h = ground arith

module _ {W : Type 0} (p : Publisher W) where
  -- The observation is at most the clock skew away from the clock, on either side.
  abbrev pub Fresh : Option ℕ → ℕ → Type 0
  Fresh none now = ⊥
  Fresh (some t) now = (now ≤ t + skew_of p) × (t ≤ now + skew_of p)

  -- The report is one on which a node may be labelled.
  abbrev Admissible : NodeReport → ℕ → Type 0
  Admissible report now = Fresh report.observed_at now × (is_supported p report ≡ true)

  in_window-Fresh :
      (observed : Option ℕ) (now : ℕ) → is_in_window p observed now ≡ true → Fresh observed now
  unfolding is_in_window
  in_window-Fresh none now h = absurd cc
  in_window-Fresh (some t) now h = (ground arith, ground arith)

  -- The label of readiness is applied for a ready report of the publisher's own release only.
  abbrev Positive : NodeReport → List (String × String) → Type 0
  Positive report labels =
      (lookup cni_ready_label labels ≡ none)
      ⊎ ((report.ready ≡ true)
          × (same_release report.release_identity p.release_identity ≡ true)
          × (lookup cni_ready_label labels ≡ some "true"))

  ready_release :
      (same other named : Bool) (ready profile caps : Bool)
      → (((if same then true else named && not ready && other) && profile) && caps) ≡ true
      → ready ≡ true
      → same ≡ true
  ready_release same other named ready profile caps h e = ground arith

  labels_for-Positive :
      (report : NodeReport) (now : ℕ)
      → is_supported p report ≡ true
      → Positive report (labels_for p report now)
  unfolding labels_for is_supported supports_release_identity insert lookup
  labels_for-Positive report now h = elim (Bool-cases report.ready) [
    | inl e ↦ inr (e, ready_release _ _ _ _ _ _ h e, rw e refl)
    | inr e ↦ inl (rw e refl)
  ]

  -- A log, of calls made at this time, in which the capability labels were only applied for an admissible report of that node
  -- and only taken off elsewhere.
  abbrev pub Sound : NodeReport → ℕ → List Call → Type 0
  Sound report now [] = Unit
  Sound report now (get name r ∷ log) = Sound report now log
  Sound report now (apply name labels r ∷ log) =
      ((name ≡ report.node_name) × Admissible report now × Positive report labels)
      × Sound report now log
  Sound report now (patch node r ∷ log) =
      (lookup cni_ready_label node.labels ≡ none)
      × (lookup capability_epoch_label node.labels ≡ none)
      × Sound report now log

  module _ (report : NodeReport) (now : ℕ) where
    abbrev Keeps : {A : Type 0} → Exec (Traced W Call) A → Type 0
    Keeps {A} m =
        Triple {A = A} (λ s. Sound report now s.log) m (λ _ s. Sound report now s.log)
          (λ _ s. Sound report now s.log)

    lift-Keeps : {A : Type 0} (r : Result A) → Keeps (lift r)
    lift-Keeps (ok a) = Triple-lift (ok a) (λ s h. h)
    lift-Keeps (err e) = Triple-lift (err e) (λ s h. h)

    withdrawn_lookup :
        (node : Node)
        → (lookup cni_ready_label (without_capability p node).labels ≡ none)
          × (lookup capability_epoch_label (without_capability p node).labels ≡ none)
    withdrawn_lookup node = (
      lookup-erase capability_epoch_label cni_ready_label (erase cni_ready_label node.labels)
          ∙ lookup-erase cni_ready_label cni_ready_label node.labels,
      lookup-erase capability_epoch_label capability_epoch_label
          (erase cni_ready_label node.labels),
    )

    withdraw_found-Keeps : (found : Result Node) → Keeps (withdraw_found p found)
    unfolding withdraw_found
    withdraw_found-Keeps (err e) =
        Triple-if (errors_is is_not_found e) (pure tt) (fail e) (λ _. Triple-pure tt (λ s h. h))
          (λ _. Triple-fail e (λ s h. h))
    withdraw_found-Keeps (ok node) =
        let gone = withdrawn_lookup node in
        Triple-if (label node cni_ready_label == "" && label node capability_epoch_label == "") _ _
          (λ _. Triple-pure tt (λ s h. h))
          (λ _. Triple-wrapping "withdraw authenticated node capability" _ (
            Triple-perform (patch (without_capability p node)) (p.patch (without_capability p node))
              (λ a w s h. (gone.0, gone.1, h)) (λ e w s h. (gone.0, gone.1, h))))

    withdraw-Keeps : (name : String) → Keeps (withdraw p name)
    unfolding withdraw
    withdraw-Keeps name = Triple-bind {Q = λ _ s. Sound report now s.log} _ _ (lift-Keeps _) λ _.
        Triple-bind {Q = λ _ s. Sound report now s.log} _ _
          (Triple-attempt _ (Triple-perform _ _ (λ a w s h. h) (λ e w s h. h))) withdraw_found-Keeps

    withdraw_and_fail-Keeps : (name text : String) → Keeps (withdraw_and_fail p name text)
    unfolding withdraw_and_fail
    withdraw_and_fail-Keeps name text =
        Triple-bind {Q = λ _ s. Sound report now s.log} _ _ (Triple-attempt _ (withdraw-Keeps name))
          λ _. Triple-fail _ (λ s h. h)

    publish-Keeps : Admissible report now → Keeps (publish p report now)
    unfolding publish
    publish-Keeps ok_now =
        Triple-bind {Q = λ _ s. Sound report now s.log} _ _
          (Triple-perform _ _ (λ a w s h. h) (λ e w s h. h))
          λ _.
            Triple-bind {Q = λ _ s. Sound report now s.log} _ _
              (Triple-wrapping _ _ (
                Triple-perform _ _
                  (λ a w s h. ((refl, ok_now, labels_for-Positive report now ok_now.1), h))
                  (λ e w s h. ((refl, ok_now, labels_for-Positive report now ok_now.1), h))))
              λ _.
                Triple-if _ _ _ (λ _. withdraw-Keeps report.node_name)
                  (λ _. Triple-pure tt (λ s h. h))

    -- The clock has not been read, and would say `now`.
    abbrev Unread : {A : Type 0} → A → Traced W Call → Type 0
    Unread a s = (now ≡ (p.now s.world).0) × Sound report now s.log

    checked-Unread :
        (r : Result (Unit {0})) → Triple (Unread tt) (lift r) Unread (λ _ s. Sound report now s.log)
    checked-Unread (ok _) = Triple-lift _ (λ s h. h)
    checked-Unread (err e) = Triple-lift _ (λ s h. h.1)

    apply_report-Keeps :
        (agent : Option String)
        → Triple
            (Unread tt)
            (apply_report p agent report)
            (λ _ s. Sound report now s.log)
            (λ _ s. Sound report now s.log)
    unfolding apply_report observe
    apply_report-Keeps agent = Triple-bind {Q = Unread} _ _ (checked-Unread _) λ _.
        Triple-bind {Q = Unread} _ _ (checked-Unread _) λ _.
          Triple-bind {Q = λ seen s. (now ≡ seen) × Sound report now s.log} _ _
            (record { at = λ s h. read s h }) λ seen. Triple-known _ λ same. rw (sym same) checked
      where
        read :
            (s : Traced W Call)
            → Unread tt s
            → Post
                (λ seen (u : Traced W Call). (now ≡ seen) × Sound report now u.log)
                (λ _ u. Sound report now u.log)
                (observe {C = Call} p.now s).0
                (observe {C = Call} p.now s).1
        read s h = h

        checked : Keeps (
            if not (is_in_window p report.observed_at now)
            then withdraw_and_fail p report.node_name
                "node capability observation time is outside the accepted window"
            else if not (is_supported p report)
            then withdraw_and_fail p report.node_name
                "node capability or immutable release identity is unsupported"
            else publish p report now)
        checked =
            Triple-if (not (is_in_window p report.observed_at now)) _ _
              (λ _. withdraw_and_fail-Keeps _ _)
              (λ fresh.
                Triple-if (not (is_supported p report)) _ _ (λ _. withdraw_and_fail-Keeps _ _)
                  (λ fit. publish-Keeps (in_window-Fresh _ now (not-not _ fresh), not-not _ fit)))

  -- Whatever the client answers, Apply labels only the node of the report, only on an observation
  -- within the clock skew, on either side, of what the clock says when Apply starts, and from a supported release, profile and set of
  -- capabilities; it sets the readiness label only for a ready report of the publisher's own release
  -- (not for the release that a transition plan admits); and every patch takes both capability
  -- labels off. A log that was so stays so.
  pub apply_report-Sound :
      (agent : Option String) (report : NodeReport) (s : Traced W Call)
      → Sound report (p.now s.world).0 s.log
      → Sound report (p.now s.world).0 (apply_report p agent report s).1.log
  apply_report-Sound agent report s h =
      Post-both {S = Traced W Call} {A = Unit {0}} (λ _ u. Sound report (p.now s.world).0 u.log)
        (λ _ u. Sound report (p.now s.world).0 u.log) (λ u. Sound report (p.now s.world).0 u.log)
        (apply_report p agent report s).0 (apply_report p agent report s).1 (λ a h. h) (λ e h. h)
        ((apply_report-Keeps report (p.now s.world).0 agent).at s (refl, h))
