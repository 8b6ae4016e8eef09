-- ===== src/Cni/Removal/Release.antt =====
-- DEL in internal/cni/plugin.go: what it may take away, read off the log of its calls.
use waycloak.Prelude.{
  String, Bool, true, false, ◌&&◌, ◌==◌, eq_iff, List, [], ◌∷◌, ◌≡◌, refl, ap, arith, Option, none,
  some, if◌then◌else◌,
}
use waycloak.Exec.{Err, Result, ok, err, pure, lift, attempt, wrapping, Traced}
use waycloak.Exec.Triple.{
  Post-both, Triple, Triple-pure, Triple-fail, Triple-lift, Triple-if, Triple-wrapping, Triple-bind,
  Triple-attempt, Triple-perform,
}
use waycloak.Cni.Types.{Resolution, Key, Attachment}
use waycloak.Exec.{errors_is}
use waycloak.Cni.Calls.{
  Plugin, Call, resolve, withdraw, identity, cleanup, load, delete, is_sentinel_not_exist,
  is_sentinel_pod_not_found, is_identity, call_identity, call_cleanup, call_load, call_delete,
  call_resolve, call_withdraw,
}
use waycloak.Cni.Removal.{delete_goes_on, delete_withdrawn, delete_loaded, delete_attachment}

-- The newest attachment that the store loaded.
abbrev pub last_loaded : List Call → Option Attachment
last_loaded [] = none
last_loaded (load k (ok a) ∷ log) = some a
last_loaded (_ ∷ log) = last_loaded log

-- The agent's newest answer was that the attachment's Pod is absent, or that exactly this Pod, by
-- its UID, is terminating.
abbrev pub Departed : Attachment → List Call → Type 0
Departed a (resolve pod (ok x) ∷ log) =
    (pod ≡ a.pod) × (x.pod_uid ≡ a.pod.uid) × (x.terminating ≡ true)
Departed a (resolve pod (err e) ∷ log) =
    (pod ≡ a.pod) × (errors_is is_sentinel_pod_not_found e ≡ true)
Departed a (identity path x ∷ log) = Departed a log
Departed a _ = ⊥

-- The newest calls are a confirmed withdrawal, and at most successful cleanups after it.
abbrev pub withdrawn : List Call → Bool
withdrawn [] = false
withdrawn (withdraw pod (ok _) ∷ log) = true
withdrawn (cleanup path uid (ok _) ∷ log) = withdrawn log
withdrawn (_ ∷ log) = false

-- A namespace was identified as a given one, just before a withdrawal.
abbrev pub Identified : String → String → List Call → Type 0
Identified path name (withdraw pod x ∷ log) = Identified path name log
Identified path name (identity seen x ∷ log) = (seen ≡ path) × (x ≡ ok name)
Identified path name _ = ⊥

-- A withdrawal is asked only for the loaded attachment, its Pod departed. A namespace is cleaned
-- only after a confirmed withdrawal, and only if it was identified as the loaded attachment's. A
-- record is deleted only after a confirmed withdrawal.
abbrev pub Discharged : List Call → Type 0
Discharged [] = Unit
Discharged (withdraw pod x ∷ log) =
    ((a : Attachment) × (last_loaded log ≡ some a) × (pod ≡ a.pod) × Departed a log)
    × Discharged log
Discharged (cleanup path uid x ∷ log) =
    ((a : Attachment) × (last_loaded log ≡ some a)
      × (uid ≡ a.pod.uid)
      × (withdrawn log ≡ true)
      × Identified path a.namespace_identity log)
    × Discharged log
Discharged (delete k x ∷ log) = (withdrawn log ≡ true) × Discharged log
Discharged (_ ∷ log) = Discharged log

is_identity→eq :
    (observed : Result String) (name : String)
    → is_identity observed name ≡ true
    → observed ≡ ok name
is_identity→eq (ok found) name h = ap ok ((eq_iff found name).0 h)
is_identity→eq (err e) name h = cc

module _ {W : Type 0} (p : Plugin W) where
  abbrev Kept : Traced W Call → Type 0
  Kept s = Discharged s.log

  abbrev Failed : Err → Traced W Call → Type 0
  Failed e s = Discharged s.log

  module _ (a : Attachment) where
    abbrev Held : Traced W Call → Type 0
    Held s = Discharged s.log × (last_loaded s.log ≡ some a)

    abbrev Going : Bool → Traced W Call → Type 0
    Going true s = Held s × Departed a s.log
    Going false s = Discharged s.log

    resolution_gone :
        (x : Resolution)
        → (x.pod_uid == a.pod.uid && x.terminating) ≡ true
        → (x.pod_uid ≡ a.pod.uid) × (x.terminating ≡ true)
    resolution_gone x h = ground (arith, eq_iff x.pod_uid a.pod.uid)

    goes_on_ok :
        (x : Resolution)
        → delete_goes_on a (ok x) ≡ ok true
        → (x.pod_uid ≡ a.pod.uid) × (x.terminating ≡ true)
    unfolding delete_goes_on
    goes_on_ok x h = resolution_gone x (cc)

    goes_on_err :
        (e : Err)
        → delete_goes_on a (err e) ≡ ok true
        → errors_is is_sentinel_pod_not_found e ≡ true
    unfolding delete_goes_on
    goes_on_err e h = ground arith

    -- The agent has answered; if DEL goes on, the Pod departed.
    abbrev Asked : Result Resolution → Traced W Call → Type 0
    Asked answer s = Held s × (delete_goes_on a answer ≡ ok true → Departed a s.log)

    call_resolve-Asked : Triple Held (attempt (call_resolve p a.pod)) Asked Failed
    unfolding call_resolve
    call_resolve-Asked = Triple-attempt _ (
        Triple-perform _ _ (λ x w s h. (h, λ g. (refl, (goes_on_ok x g).0, (goes_on_ok x g).1)))
          (λ e w s h. (h, λ g. (refl, goes_on_err e g))))

    goes_on-Going :
        (answer : Result Resolution) (b : Result Bool)
        → delete_goes_on a answer ≡ b
        → Triple (Asked answer) (lift b) Going Failed
    goes_on-Going answer (ok true) e = Triple-lift _ (λ s h. (h.0, h.1 e))
    goes_on-Going answer (ok false) e = Triple-lift _ (λ s h. h.0.0)
    goes_on-Going answer (err x) e = Triple-lift _ (λ s h. h.0.0)

    -- The namespace was looked at; if it is the attachment's, the log says so.
    abbrev Seen : String → Result String → Traced W Call → Type 0
    Seen path observed s =
        Held s
        × Departed a s.log
        × (is_identity observed a.namespace_identity ≡ true
            → Identified path a.namespace_identity s.log)

    call_identity-Seen :
        (path : String) → Triple (Going true) (attempt (call_identity p path)) (Seen path) Failed
    unfolding call_identity
    call_identity-Seen path = Triple-attempt _ (
        Triple-perform _ _
          (λ found w s h. (h.0, h.1, λ e. (refl, ap ok ((eq_iff found a.namespace_identity).0 e))))
          (λ x w s h. (h.0, h.1, λ e. cc)))

    lift-Seen :
        (path : String) (observed : Result String) (x : Result (Unit {0}))
        → Triple (Seen path observed) (lift x) (λ _. Seen path observed) Failed
    lift-Seen path observed (ok _) = Triple-lift _ (λ s h. h)
    lift-Seen path observed (err e) = Triple-lift _ (λ s h. h.0.0)

    -- The withdrawal is confirmed.
    abbrev Confirmed : String → Result String → Traced W Call → Type 0
    Confirmed path observed s =
        Held s
        × (withdrawn s.log ≡ true)
        × (is_identity observed a.namespace_identity ≡ true
            → Identified path a.namespace_identity s.log)

    call_withdraw-Confirmed :
        (path : String) (observed : Result String)
        → Triple (Seen path observed) (call_withdraw p a.pod) (λ _. Confirmed path observed) Failed
    unfolding call_withdraw
    call_withdraw-Confirmed path observed =
        Triple-perform _ _ (λ x w s h. ((((a, h.0.1, refl, h.1), h.0.0), h.0.1), refl, h.2))
          (λ e w s h. ((a, h.0.1, refl, h.1), h.0.0))

    abbrev Cleaned : Unit {0} → Traced W Call → Type 0
    Cleaned _ s = Discharged s.log × (withdrawn s.log ≡ true)

    cleanup-Cleaned :
        (path : String) (observed : Result String)
        → Triple
            (Confirmed path observed)
            (if is_identity observed a.namespace_identity
              then wrapping "remove exact Waycloak network state" (call_cleanup p path a.pod.uid)
              else pure tt)
            Cleaned
            Failed
    unfolding call_cleanup
    cleanup-Cleaned path observed =
        Triple-if (is_identity observed a.namespace_identity) _ _
          (λ e. Triple-wrapping _ _ (
            Triple-perform _ _ (λ x w s h. (((a, h.0.1, refl, h.1, h.2 e), h.0.0), h.1))
              (λ x w s h. ((a, h.0.1, refl, h.1, h.2 e), h.0.0))))
          (λ e. Triple-pure tt (λ s h. (h.0.0, h.1)))

    delete_withdrawn-Discharged :
        (key : Key) (netns : String)
        → Triple (Going true) (delete_withdrawn p key netns a) (λ _. Kept) Failed
    unfolding delete_withdrawn call_delete
    delete_withdrawn-Discharged key netns =
        Triple-bind _ _ (call_identity-Seen (if netns == "" then a.pod.net_ns else netns))
          λ observed. Triple-bind _ _ (lift-Seen _ observed _) λ _.
            Triple-bind _ _ (Triple-wrapping _ _ (call_withdraw-Confirmed _ observed)) λ _.
              Triple-bind _ _ (cleanup-Cleaned _ observed) λ _.
                Triple-wrapping _ _
                  (Triple-perform _ _ (λ x w s h. (h.1, h.0)) (λ e w s h. (h.1, h.0)))

    if_Going-Discharged :
        (key : Key) (netns : String) (goes_on : Bool)
        → Triple
            (Going goes_on)
            (if goes_on then delete_withdrawn p key netns a else pure tt)
            (λ _. Kept)
            Failed
    if_Going-Discharged key netns true = delete_withdrawn-Discharged key netns
    if_Going-Discharged key netns false = Triple-pure tt (λ s h. h)

  -- What the store answered.
  abbrev Loaded : Result Attachment → Traced W Call → Type 0
  Loaded (ok a) s = Discharged s.log × (last_loaded s.log ≡ some a)
  Loaded (err e) s = Discharged s.log

  delete_loaded-Discharged :
      (key : Key) (netns : String) (loaded : Result Attachment)
      → Triple (Loaded loaded) (delete_loaded p key netns loaded) (λ _. Kept) Failed
  unfolding delete_loaded
  delete_loaded-Discharged key netns (err e) =
      Triple-if (errors_is is_sentinel_not_exist e) _ _ (λ _. Triple-pure tt (λ s h. h))
        (λ _. Triple-fail _ (λ s h. h))
  delete_loaded-Discharged key netns (ok a) = Triple-bind _ _ (call_resolve-Asked a) λ answer.
      Triple-bind _ _ (goes_on-Going a answer (delete_goes_on a answer) refl)
        (if_Going-Discharged a key netns)

  delete_attachment-Kept :
      (key : Key) (netns : String) → Triple Kept (delete_attachment p key netns) (λ _. Kept) Failed
  unfolding delete_attachment call_load
  delete_attachment-Kept key netns = Triple-bind {Q = λ _. Kept} _ _ (lift-Kept _) λ _.
      Triple-bind {Q = Loaded} _ _
        (Triple-attempt _ (Triple-perform _ _ (λ a w s h. (h, refl)) (λ e w s h. h)))
        (delete_loaded-Discharged key netns)
    where
      lift-Kept : (x : Result (Unit {0})) → Triple Kept (lift x) (λ _. Kept) Failed
      lift-Kept (ok _) = Triple-lift _ (λ s h. h)
      lift-Kept (err e) = Triple-lift _ (λ s h. h)

-- DEL keeps the log discharged, whatever the agent, the enforcer and the store answer and however
-- it ends: it withdraws only the loaded attachment of a Pod that the agent called absent or, by the
-- exact UID, terminating; it cleans only a namespace identified as that attachment's, after the
-- confirmed withdrawal; and it deletes a record only after the confirmed withdrawal.
pub delete_attachment-Discharged :
    {W : Type 0} (p : Plugin W) (key : Key) (netns : String) (s : Traced W Call)
    → Discharged s.log
    → Discharged (delete_attachment p key netns s).1.log
delete_attachment-Discharged p key netns s h =
    Post-both (λ _ t. Discharged t.log) (λ _ t. Discharged t.log) (λ t. Discharged t.log)
      (delete_attachment p key netns s).0 (delete_attachment p key netns s).1 (λ a t. t) (λ e t. t)
      ((delete_attachment-Kept p key netns).at s h)
