-- ===== src/Binding/Ownership.antt =====
-- Which reservations `Release` and `Quarantine` of internal/binding/allocation.go may change.
use waycloak.Prelude.{String, Bool, true, false, ◌==◌, not, ◌≡◌, refl, List, [], ◌∷◌, arith}
use waycloak.Exec.{errors_is, Result, ok, err, Exec, lift, Traced}
use waycloak.Exec.Triple.{
  Triple, Post-both, Triple-bind, Triple-lift, Triple-wrapping, Triple-perform, Triple-attempt,
  Triple-observe, Triple-if, Triple-pure, Triple-fail, Triple-weaken,
}
use waycloak.Binding.Leases.{
  Lease, reservation_matches, quarantine_matches, annotation, state_annotation, state_quarantined,
}
use waycloak.Binding.Allocator.{
  Cluster, Call, patch, delete, get, WorkloadBinding, quarantined, quarantine_existing,
  quarantine_created, quarantine, release_found, release, desired_lease, call_create, call_get,
  is_already_exists,
}

-- The reservation is the binding's own active one, under some address.
abbrev Own : WorkloadBinding → Lease → Type 0
Own b l =
    (address : String) × (reservation_matches l b.gateway_uid b.pod_uid b.identity address ≡ true)

-- The newest call read this reservation.
abbrev pub JustRead : Lease → List Call → Type 0
JustRead l (get namespace name (ok found) ∷ log) = found ≡ l
JustRead l _ = ⊥

-- Every DELETE was of a reservation just read that was the binding's own, and every PATCH marked such a one,
-- not being deleted, as quarantined.
abbrev pub Respectful : WorkloadBinding → List Call → Type 0
Respectful b [] = Unit
Respectful b (delete l r ∷ log) = (Own b l × JustRead l log) × Respectful b log
Respectful b (patch l r ∷ log) =
    ((before : Lease) × (l ≡ quarantined before)
      × Own b before
      × (before.deleting ≡ false)
      × JustRead before log)
    × Respectful b log
Respectful b (_ ∷ log) = Respectful b log

not-not : (b : Bool) → not b ≡ false → b ≡ true
not-not true h = refl
not-not false h = ground arith

module _ {W : Type 0} (c : Cluster W) (b : WorkloadBinding) where
  abbrev Keeps : {A : Type 0} → Exec (Traced W Call) A → Type 0
  Keeps {A} m =
      Triple {A = A} (λ s. Respectful b s.log) m (λ _ s. Respectful b s.log)
        (λ _ s. Respectful b s.log)

  abbrev Kept : {A : Type 0} → A → Traced W Call → Type 0
  Kept a s = Respectful b s.log

  lift-Keeps : {A : Type 0} (r : Result A) → Keeps (lift r)
  lift-Keeps (ok a) = Triple-lift (ok a) (λ s h. h)
  lift-Keeps (err e) = Triple-lift (err e) (λ s h. h)

  at_end :
      {A : Type 0} (m : Exec (Traced W Call) A)
      → Keeps m
      → (s : Traced W Call) → Respectful b s.log
      → Respectful b (m s).1.log
  at_end {A} m t s h =
      Post-both {S = Traced W Call} {A = A} Kept Kept (λ s. Respectful b s.log) (m s).0 (m s).1
        (λ a h. h) (λ e h. h) (t.at s h)

  -- The reservation that the client answered with is the one just read.
  abbrev Answered : Result Lease → Traced W Call → Type 0
  Answered (ok l) s = Kept l s × JustRead l s.log
  Answered (err e) s = Kept e s × Unit {0}

  release_found-Keeps :
      (address : String) (found : Result Lease)
      → Triple (Answered found) (release_found c b address found) Kept Kept
  unfolding release_found
  release_found-Keeps address (err e) =
      Triple-weaken _ (lift-Keeps _) (λ s h. h.0) (λ a s h. h) (λ e s h. h)
  release_found-Keeps address (ok current) =
      Triple-if (not (reservation_matches current b.gateway_uid b.pod_uid b.identity address)) _ _
        (λ _. Triple-fail _ (λ s h. h.0))
        (λ own.
          Triple-bind {Q = Kept} _ _
            (Triple-attempt _ (
              Triple-perform (delete current) (c.delete current)
                (λ a w s h. (((address, not-not _ own), h.1), h.0))
                (λ e w s h. (((address, not-not _ own), h.1), h.0))))
            (λ deleted. lift-Keeps _))

  release-Keeps : Keeps (release c b)
  unfolding release
  release-Keeps = Triple-bind {Q = Kept} _ _ (lift-Keeps _) λ _.
      Triple-bind {Q = Kept} _ _ (Triple-wrapping _ _ (lift-Keeps _)) λ address.
        Triple-bind {Q = Answered} _ _
          (Triple-attempt _ (Triple-perform _ _ (λ a w s h. (h, refl)) (λ e w s h. (h, tt))))
          λ found. release_found-Keeps (c.prefix_string address) found

  quarantine_existing-Keeps :
      (address : String) (current : Lease)
      → Triple
          (λ s. Kept current s × JustRead current s.log)
          (quarantine_existing c b address current)
          Kept
          Kept
  unfolding quarantine_existing
  quarantine_existing-Keeps address current =
      Triple-if current.deleting _ _ (λ _. Triple-fail _ (λ s h. h.0))
        (λ alive.
          Triple-if (annotation current state_annotation == state_quarantined) _ _
            (λ _.
              Triple-if (quarantine_matches current b.gateway_uid b.pod_uid b.identity address) _ _
                (λ _. Triple-pure tt (λ s h. h.0)) (λ _. Triple-fail _ (λ s h. h.0)))
            (λ _.
              Triple-if
                (not (reservation_matches current b.gateway_uid b.pod_uid b.identity address)) _ _
                (λ _. Triple-fail _ (λ s h. h.0))
                (λ own.
                  Triple-perform (patch (quarantined current)) (c.patch (quarantined current))
                    (λ a w s h. ((current, refl, (address, not-not _ own), alive, h.1), h.0))
                    (λ e w s h. ((current, refl, (address, not-not _ own), alive, h.1), h.0)))))

  quarantine_created-Keeps :
      (address : String) (l : Lease) (answer : Result (Unit {0}))
      → Keeps (quarantine_created c b address l answer)
  unfolding quarantine_created call_get
  quarantine_created-Keeps address l (ok _) = Triple-pure tt (λ s h. h)
  quarantine_created-Keeps address l (err e) =
      Triple-if (not (errors_is is_already_exists e)) _ _ (λ _. Triple-fail _ (λ s h. h))
        (λ _.
          Triple-bind {Q = λ l s. Kept l s × JustRead l s.log} _ _
            (Triple-wrapping _ _ (Triple-perform _ _ (λ a w s h. (h, refl)) (λ e w s h. h)))
            (λ current. quarantine_existing-Keeps address current))

  quarantine-Keeps : Keeps (quarantine c b)
  unfolding quarantine desired_lease call_create
  quarantine-Keeps = Triple-bind {Q = Kept} _ _ (lift-Keeps _) λ _.
      Triple-bind {Q = Kept} _ _ (Triple-wrapping _ _ (lift-Keeps _)) λ address.
        Triple-bind {Q = Kept} _ _
          (Triple-bind {Q = Kept} _ _ (Triple-observe _ (λ a w s h. h))
            (λ t. Triple-pure _ (λ s h. h)))
          λ l.
            Triple-bind {Q = Kept} _ _
              (Triple-attempt _ (Triple-perform _ _ (λ a w s h. h) (λ e w s h. h)))
              λ created. quarantine_created-Keeps (c.prefix_string address) _ created

  -- Whatever the client answers, Release and a Quarantine after it delete and patch only a
  -- reservation that a GET right before answered as active and as the binding's own by gateway UID, Pod UID and identity, under
  -- some address; a patch marks one that is not being deleted as quarantined. A log that was so
  -- stays so through both.
  pub release-quarantine-Respectful :
      (s : Traced W Call)
      → Respectful b s.log
      → Respectful b (release c b s).1.log × Respectful b (quarantine c b (release c b s).1).1.log
  release-quarantine-Respectful s h =
      let r = at_end (release c b) release-Keeps s h in
      (r, at_end (quarantine c b) quarantine-Keeps (release c b s).1 r)
