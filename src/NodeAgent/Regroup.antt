-- ===== src/NodeAgent/Regroup.antt =====
-- `withdrawAttachmentGroup` and `quarantineAttachmentGroup` of internal/nodeagent/service.go and the
-- guarded log.
use waycloak.Prelude.{
  String, Bool, true, false, List, [], ◌∷◌, ◌≡◌, refl, sym, ◌∙◌, ap, eq_iff, All, inr, inl, Option,
  none, some, if◌then◌else◌,
}
use waycloak.Exec.{Err, Result, ok, err, Exec, lift, join_all}
use waycloak.Exec.Triple.{
  Triple, Triple-pure, Triple-lift, Triple-bind, Triple-attempt, Triple-call, Triple-weaken,
  Triple-wrapping,
}
use waycloak.Cni.Types.{PodIdentity, Attachment}
use waycloak.Dataplane.{Netip}
use waycloak.NodeAgent.Types.{WorkloadBinding, Service, Call, get_pod, identity, cleanup, Run}
use waycloak.NodeAgent.Withdraw.{is_exact, call_identity, clean_attachment}
use waycloak.NodeAgent.Groups.{
  classified, classify, live_attachments, for_each, lockdown_attachments, observe_each,
  quarantine_group, delete_attachment, publish_found, withdraw_group,
}
use waycloak.NodeAgent.Guard.{Guarded, Departed, Identified, Released}
use waycloak.NodeAgent.Guarding.{
  Keeps, lift-Keeps, observe_not_ready-Keeps, lock_attachment-Keeps, forget_observation-Keeps,
}
use waycloak.NodeAgent.Departure.{
  Guarded-ShutStable, publish_withdrawal-Released, Absent, withdrawal_binding-Absent,
}
use waycloak.NodeAgent.Grouping.{map-All, Same}

classified-exact :
    (a : Attachment) (found : Result String) (e : Option Err)
    → (classified a found e).0 ≡ true
    → is_exact a found ≡ true
unfolding classified
classified-exact a found (some e) h = cc
classified-exact a found none h = h

live-All :
    (P : Attachment → Type 0) (is_live : Bool) (a : Attachment) (live : List Attachment)
    → (is_live ≡ true → P a)
    → All P live
    → All P (if is_live then a ∷ live else live)
live-All P true a live p h = (p refl, h)
live-All P false a live p h = h

module _ {n : Netip} {W : Type 0} (s : Service n W) (K : Attachment → Type 0) where
  -- A loop keeps what each of its steps keeps.
  for_each-Loop :
      {f : Attachment → Exec (Run n W) (Unit {0})} {E : Err → Run n W → Type 0}
      (P : List Attachment → Run n W → Type 0)
      → ((a : Attachment) (rest : List Attachment)
          → Triple (P (a ∷ rest)) (f a) (λ _. P rest) (λ _. P rest))
      → (attachments : List Attachment)
      → Triple (P attachments) (for_each s f attachments) (λ _. P []) E
  unfolding for_each
  for_each-Loop P step [] = Triple-pure _ (λ t h. h)
  for_each-Loop P step (a ∷ rest) =
      Triple-bind {Q = λ _. P rest} _ _ (Triple-attempt _ (step a rest)) λ answer.
        Triple-bind {Q = λ _. P []} _ _ (for_each-Loop P step rest) λ more. Triple-pure _ (λ t h. h)

  pub lockdown_attachments-Keeps :
      (attachments : List Attachment) → Keeps (Guarded K) (lockdown_attachments s attachments)
  unfolding lockdown_attachments
  lockdown_attachments-Keeps =
      for_each-Loop (λ _ t. Guarded K t.log)
        (λ a rest. lock_attachment-Keeps s (Guarded K) (Guarded-ShutStable K) a)

  observe_each-Keeps :
      (attachments : List Attachment) → Keeps (Guarded K) (observe_each s attachments)
  unfolding observe_each
  observe_each-Keeps [] = Triple-pure _ (λ t h. h)
  observe_each-Keeps (a ∷ rest) =
      Triple-bind {Q = λ _ t. Guarded K t.log} _ _
        (observe_not_ready-Keeps s (Guarded K) (Guarded-ShutStable K) a.pod.namespace a.pod.uid)
        λ _. observe_each-Keeps rest

  -- A predicate on the log that identifications keep.
  abbrev IdentityStable : (List (Call n) → Type 0) → Type 0
  IdentityStable L =
      (path : String) (x : Result String) (log : List (Call n)) → L log → L (identity path x ∷ log)

  module _ (L : List (Call n) → Type 0) (stable : IdentityStable L) where
    abbrev Classified : Attachment → Bool × List Err → Run n W → Type 0
    Classified a x t = L t.log × (x.0 ≡ true → Identified a t.log)

    classify-Classified :
        {E : Err → Run n W → Type 0} (a : Attachment)
        → Triple (λ t. L t.log) (classify s a) (Classified a) E
    unfolding classify call_identity is_exact
    classify-Classified a =
        Triple-bind {Q = λ found t. L t.log × (is_exact a found ≡ true → Identified a t.log)} _ _
          (Triple-attempt _ (
            Triple-call _ _
              (λ x w t h.
                (stable _ _ _ h, λ e. inl (refl, ap ok ((eq_iff x a.namespace_identity).0 e))))
              (λ x w t h. (stable _ _ _ h, λ e. cc))))
          λ found. Triple-pure _ (λ t h. (h.0, λ e. h.1 (classified-exact a found _ e)))

  -- The live attachments of a group are all identified, and nothing but identifications is called.
  pub live_attachments-Identified :
      {E : Err → Run n W → Type 0} (L : List (Call n) → Type 0)
      → IdentityStable L
      → (P : Attachment → Type 0) (attachments : List Attachment) → All P attachments
      → Triple
          (λ t. L t.log)
          (live_attachments s attachments)
          (λ x t. L t.log × All (λ a. P a × Identified a t.log) x.0)
          E
  unfolding live_attachments
  live_attachments-Identified L stable P [] h = Triple-pure _ (λ t g. (g, tt))
  live_attachments-Identified L stable P (a ∷ rest) (p, h) =
      Triple-bind _ _ (classify-Classified L stable a) λ (is_live, errs).
        Triple-bind _ _
          (live_attachments-Identified (λ log. L log × (is_live ≡ true → Identified a log))
            (λ path x log g. (stable path x log g.0, λ e. inr (g.1 e))) P rest h)
          λ (live, more).
            Triple-pure _ (λ t g. (g.0.0, live-All _ is_live a live (λ e. (p, g.0.1 e)) g.1))

  All-Unit : (attachments : List Attachment) → All (λ _. Unit {0}) attachments
  All-Unit [] = tt
  All-Unit (a ∷ rest) = (tt, All-Unit rest)

  pub live_attachments-Keeps :
      (attachments : List Attachment) → Keeps (Guarded K) (live_attachments s attachments)
  live_attachments-Keeps attachments =
      Triple-weaken _
        (live_attachments-Identified (Guarded K) (λ path x log h. h) (λ _. Unit) attachments
          (All-Unit attachments))
        (λ t h. h) (λ x t h. h.0) (λ e t h. h)

  -- The deletions of a group, once it is released.
  abbrev pub Deleting : Run n W → Type 0
  Deleting t = Guarded K t.log × Released t.log

  pub delete_attachment-Deleting :
      (text : String) (a : Attachment)
      → Triple Deleting (delete_attachment s text a) (λ _. Deleting) (λ _. Deleting)
  unfolding delete_attachment
  delete_attachment-Deleting text a =
      Triple-wrapping _ _
        (Triple-call _ _ (λ x w t h. ((h.1, h.0), h.1)) (λ x w t h. ((h.1, h.0), h.1)))

  -- The log of a group whose Pod has departed; `Known` is what is known of a live attachment.
  module _ (i : PodIdentity) where
    abbrev Gone : List (Call n) → Type 0
    Gone log = Guarded K log × Departed i log

    abbrev Known : List (Call n) → Attachment → Type 0
    Known log a = (Same i a × K a) × Identified a log

    Departed-Same :
        (a : Attachment) (log : List (Call n)) → Same i a → Departed i log → Departed a.pod log
    Departed-Same a (identity path x ∷ log) same d = Departed-Same a log same d
    Departed-Same a (cleanup path uid x ∷ log) same d = Departed-Same a log same d
    Departed-Same a (get_pod ns name x ∷ log) same d =
        (d.0 ∙ sym same.0, d.1 ∙ sym same.1, rw same.2 d.2)
    Departed-Same a _ same d = absurd d

    abbrev Cleaning : List Attachment → Run n W → Type 0
    Cleaning live t = Gone t.log × All (Known t.log) live

    clean_attachment-Cleaning :
        (a : Attachment) (rest : List Attachment)
        → Triple
            (Cleaning (a ∷ rest))
            (clean_attachment s a)
            (λ _. Cleaning rest)
            (λ _. Cleaning rest)
    unfolding clean_attachment
    clean_attachment-Cleaning a rest =
        Triple-call _ _ (λ x w t h. cleaned (ok x) w t h) (λ x w t h. cleaned (err x) w t h)
      where
        cleaned :
            (x : Result (Unit {0})) (w : W) (t : Run n W)
            → Cleaning (a ∷ rest) t
            → Cleaning rest (record t { world = w; log = cleanup a.pod.net_ns a.pod.uid x ∷ t.log })
        cleaned x w t ((g, d), (k, h)) = (
          (((a, k.0.1, refl, refl, Departed-Same a t.log k.0.0 d, k.1), g), d),
          map-All (λ b q. q) rest h,
        )

    publish_found-Deleting :
        (b : Option WorkloadBinding)
        → Triple (Absent K s b) (publish_found s b) (λ _. Deleting) (λ _ t. Guarded K t.log)
    unfolding publish_found
    publish_found-Deleting none = Triple-pure _ (λ t h. h)
    publish_found-Deleting (some b) = publish_withdrawal-Released K s b

    lift-if :
        {P : Run n W → Type 0} (r : Result (Unit {0}))
        → ((t : Run n W) → P t → Guarded K t.log)
        → Triple P (lift r) (λ _. P) (λ _ t. Guarded K t.log)
    lift-if (ok _) f = Triple-lift _ (λ t h. h)
    lift-if (err e) f = Triple-lift _ (λ t h. f t h)

    pub withdraw_group-Keeps :
        (attachments : List Attachment)
        → All (λ a. Same i a × K a) attachments
        → Triple
            (λ t. Gone t.log)
            (withdraw_group s i attachments)
            (λ _ t. Guarded K t.log)
            (λ _ t. Guarded K t.log)
    unfolding withdraw_group
    withdraw_group-Keeps attachments same =
        Triple-bind _ _
          (live_attachments-Identified Gone (λ path x log h. h) (λ a. Same i a × K a) attachments
            same)
          λ (live, errs).
            Triple-bind {Q = λ _. Cleaning live} _ _ (lift-if (join_all errs) (λ t h. h.0.0)) λ _.
              Triple-bind {Q = λ _. Cleaning []} _ _
                (for_each-Loop Cleaning clean_attachment-Cleaning live)
                λ cleanup_errs.
                  Triple-bind {Q = λ _ t. Guarded K t.log} _ _
                    (Triple-weaken _ (lift-if (join_all cleanup_errs) (λ t h. h)) (λ t h. h.0.0)
                      (λ _ t h. h) (λ e t h. h))
                    λ _. Triple-bind _ _ (withdrawal_binding-Absent K s i.namespace i.uid) λ b.
                      Triple-bind _ _ (publish_found-Deleting b) λ _.
                        Triple-bind {Q = λ _. Deleting} _ _
                          (for_each-Loop (λ _. Deleting) (λ a rest. delete_attachment-Deleting _ a)
                            attachments)
                          λ delete_errs.
                            Triple-bind {Q = λ _. Deleting} _ _
                              (lift-if (join_all delete_errs) (λ t h. h.0))
                              λ _.
                                Triple-weaken _
                                  (forget_observation-Keeps s (Guarded K) (Guarded-ShutStable K)
                                    i.uid)
                                  (λ t h. h.0) (λ _ t h. h) (λ e t h. h)

  pub quarantine_group-Keeps :
      (attachments : List Attachment) (cause : Err)
      → Keeps (Guarded K) (quarantine_group s attachments cause)
  unfolding quarantine_group
  quarantine_group-Keeps attachments cause =
      Triple-bind {Q = λ _ t. Guarded K t.log} _ _ (live_attachments-Keeps attachments)
        λ (live, errs).
          Triple-bind {Q = λ _ t. Guarded K t.log} _ _ (observe_each-Keeps attachments) λ _.
            Triple-bind {Q = λ _ t. Guarded K t.log} _ _ (lockdown_attachments-Keeps live)
              λ more. lift-Keeps (Guarded K) _
