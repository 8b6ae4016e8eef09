-- ===== src/Binding/Totality.antt =====
-- `Reserve` of internal/binding/allocation.go ends, and what it returns.
use waycloak.Prelude.{
  ℕ, suc, zero, ◌+◌, ◌%◌, ◌≤◌, ◌<◌, String, true, false, ◌∷◌, eq_refl, not, ◌≡◌, refl, arith, ltb,
  Option, some, none, Bool-cases, inl, inr,
}
use waycloak.Prelude.Assoc.{lookup}
use waycloak.Exec.{Err, Result, ok, err, errors_is, Exec, attempt, perform, Traced}
use waycloak.Exec.Triple.{
  Post, Triple, Triple-any, Triple-pure, Triple-fail, Triple-if, Triple-bind, Triple-attempt,
  Triple-weaken, Triple-known, Triple-perform_known, Triple-observe,
}
use waycloak.Binding.Leases.{Lease, reservation_matches, Prefix, v4, annotation}
use waycloak.Binding.Allocator.{
  Cluster, Call, create, Gateway, Reservation, Round, reserved, vanished, conflict, is_not_found,
  is_already_exists, usable, probe_address, next_attempt, allocation_identity, desired_lease,
  call_create, call_get, probe_existing, probe_created, probe, reserve_next, reserve_loop,
  pool_base, pool_bits, reserve,
}

module _ {W : Type 0} (c : Cluster W) where
  -- A reservation that a CREATE found, answering that it exists already, is still there at a GET of it
  -- in the world that the CREATE leaves.
  abbrev pub Lasting : Type 0
  Lasting =
      (l : Lease) (w : W) (e f : Err)
      → (c.create l w).0 ≡ err e
      → errors_is is_already_exists e ≡ true
      → (c.get l.namespace l.name (c.create l w).1).0 ≡ err f
      → errors_is is_not_found f ≡ false

  module _ (lasting : Lasting) (g : Gateway) (pod_uid identity : String) where
    -- The reservation is the own one of the Pod, at this address.
    abbrev pub Own : Reservation → Type 0
    Own r =
        (r.identity ≡ identity)
        × (reservation_matches r.lease g.uid pod_uid identity (c.prefix_string (v4 r.address 32))
            ≡ true)

    abbrev Any : {A : Type 0} → A → Traced W Call → Type 0
    Any a s = Unit

    abbrev Ended : ℕ → Round → Traced W Call → Type 0
    Ended address (reserved r) s = Own r × (r.address ≡ address)
    Ended address vanished s = ⊥
    Ended address conflict s = Unit

    desired_lease-Own :
        (address : String)
        → Triple
            (λ (s : Traced W Call). Unit)
            (desired_lease c g pod_uid identity address)
            (λ l _. reservation_matches l g.uid pod_uid identity address ≡ true)
            Any
    unfolding desired_lease reservation_matches annotation lookup
    desired_lease-Own address =
        Triple-bind {Q = λ _ _. Unit} _ _ (Triple-observe _ (λ a w s h. tt)) λ t.
          Triple-pure _ (λ s h.
            ground (arith, eq_refl identity, eq_refl g.uid, eq_refl pod_uid, eq_refl address))

    -- The answer to the GET: the reservation, or an error that is not its absence.
    abbrev Read : Result Lease → Traced W Call → Type 0
    Read (ok l) s = Unit
    Read (err e) s = errors_is is_not_found e ≡ false

    -- A GET of the reservation would not miss it.
    abbrev There : Lease → Traced W Call → Type 0
    There l s =
        (f : Err) → (c.get l.namespace l.name s.world).0 ≡ err f → errors_is is_not_found f ≡ false

    -- Where the CREATE answered that the reservation exists, it is there.
    abbrev Created : Lease → Result (Unit {0}) → Traced W Call → Type 0
    Created l (ok _) s = Unit
    Created l (err e) s = errors_is is_already_exists e ≡ true → There l s

    call_create-Created :
        {P : Type 0} (l : Lease)
        → Triple
            (λ (s : Traced W Call). P)
            (attempt (call_create c l))
            (λ r s. P × Created l r s)
            Any
    unfolding call_create perform attempt
    call_create-Created l = record { at = λ s p. (p, created s (c.create l s.world).0 refl) }
      where
        created :
            (s : Traced W Call) (r : Result (Unit {0}))
            → (c.create l s.world).0 ≡ r
            → Created l r (record { world = (c.create l s.world).1; log = create l r ∷ s.log })
        created s (ok _) q = tt
        created s (err e) q = λ there f missed. lasting l s.world e f q there missed

    call_get-Read : (l : Lease) → Triple (There l) (attempt (call_get c l)) Read Any
    unfolding call_get
    call_get-Read l = Triple-attempt _ (Triple-perform_known _ _ (λ r w s h q. answered s r h q _))
      where
        answered :
            (u : Traced W Call) (r : Result Lease)
            → There l u
            → (c.get l.namespace l.name u.world).0 ≡ r
            → (s : Traced W Call) → Post (λ a. Read (ok a)) (λ e. Read (err e)) r s
        answered u (ok a) h q s = tt
        answered u (err e) h q s = h e q

    probe_existing-Ended :
        (address : ℕ) (r : Result Lease)
        → Triple (Read r) (probe_existing c g pod_uid identity address r) (Ended address) Any
    unfolding probe_existing
    probe_existing-Ended address (err e) =
        Triple-if (errors_is is_not_found e) _ _ (λ q. Triple-pure _ (λ s h. absurd cc))
          (λ _. Triple-fail _ (λ s h. tt))
    probe_existing-Ended address (ok l) =
        elim (Bool-cases
          (reservation_matches l g.uid pod_uid identity (c.prefix_string (v4 address 32)))) [
            | inl e ↦ Triple-pure _ (λ s h. rw e ((refl, e), refl))
            | inr e ↦ Triple-pure _ (λ s h. rw e tt)
          ]

    probe_created-Ended :
        (address : ℕ) (l : Lease) (r : Result (Unit {0}))
        → reservation_matches l g.uid pod_uid identity (c.prefix_string (v4 address 32)) ≡ true
        → Triple (Created l r) (probe_created c g pod_uid identity address l r) (Ended address) Any
    unfolding probe_created
    probe_created-Ended address l (ok _) own = Triple-pure _ (λ s h. ((refl, own), refl))
    probe_created-Ended address l (err e) own =
        Triple-if (not (errors_is is_already_exists e)) _ _ (λ _. Triple-fail _ (λ s h. tt))
          (λ exists.
            Triple-bind _ _
              (Triple-weaken _ (call_get-Read l) (λ s h. h (ground arith)) (λ a s h. h)
                (λ e s h. h))
              (probe_existing-Ended address))

    probe-Ended :
        (address : ℕ)
        → Triple
            (λ (s : Traced W Call). Unit)
            (probe c g pod_uid identity address)
            (Ended address)
            Any
    unfolding probe
    probe-Ended address = Triple-bind _ _ (desired_lease-Own (c.prefix_string (v4 address 32))) λ l.
        Triple-bind _ _ (call_create-Created l)
          λ r. Triple-known _ λ own. probe_created-Ended address l r own

    -- The loop ends with an own reservation at an address that it probed.
    abbrev pub Reserved : ℕ → ℕ → ℕ → Option Reservation → Traced W Call → Type 0
    Reserved base start count none s = ⊥
    Reserved base start count (some r) s =
        Own r × ((n : ℕ) × (n < count) × (r.address ≡ probe_address base start count n))

    reserve_next-Reserved :
        (base start count n : ℕ) (again : ℕ → Exec (Traced W Call) (Option Reservation)) (r : Round)
        → n < count
        → Triple (λ (s : Traced W Call). Unit) (again (n + 1)) (Reserved base start count) Any
        → Triple
            (Ended (probe_address base start count n) r)
            (reserve_next c (again (next_attempt n r)) r)
            (Reserved base start count)
            Any
    unfolding reserve_next next_attempt
    reserve_next-Reserved base start count n again (reserved x) p more =
        Triple-pure _ (λ s h. (h.0, (n, p, h.1)))
    reserve_next-Reserved base start count n again vanished p more = record { at = λ s h. absurd h }
    reserve_next-Reserved base start count n again conflict p more = more

    reserve_loop-Reserved :
        (base start count fuel n : ℕ)
        → count < fuel + n
        → n ≤ count
        → Triple
            (λ (s : Traced W Call). Unit)
            (reserve_loop c g pod_uid identity base start count fuel n)
            (Reserved base start count)
            Any
    unfolding reserve_loop
    reserve_loop-Reserved base start count zero n enough low =
        Triple-pure _ (λ s h. absurd (omega arith))
    reserve_loop-Reserved base start count (suc fuel) n enough low =
        Triple-if (not (ltb n count)) _ _ (λ _. Triple-fail _ (λ s h. tt))
          (λ below.
            let p : n < count = ground arith in
            Triple-bind _ _ (probe-Ended (probe_address base start count n)) λ r.
              reserve_next-Reserved base start count n
                (reserve_loop c g pod_uid identity base start count fuel) r p
                (reserve_loop-Reserved base start count fuel (n + 1) (omega arith) (omega arith)))

  reserve-Reserved :
      (lasting : Lasting) (fuel : ℕ) (g : Gateway) (pod_uid : String) (pool : Prefix)
      → usable (pool_bits c pool) < fuel
      → Triple
          (λ (s : Traced W Call). Unit)
          (reserve c fuel g pod_uid pool)
          (Reserved lasting g pod_uid
            (allocation_identity c g.uid pod_uid)
            (pool_base c pool)
            (c.seed pod_uid % usable (pool_bits c pool))
            (usable (pool_bits c pool)))
          (λ _ _. Unit)
  unfolding reserve
  reserve-Reserved lasting fuel g pod_uid pool enough =
      Triple-bind {Q = λ _ _. Unit} _ _ (Triple-any _) λ _.
        Triple-bind {Q = λ _ _. Unit} _ _ (Triple-any _) λ _.
          Triple-bind {Q = λ _ _. Unit} _ _ (Triple-any _) λ _.
            Triple-bind {Q = λ _ _. Unit} _ _ (Triple-any _) λ _.
              reserve_loop-Reserved lasting g pod_uid (allocation_identity c g.uid pod_uid)
                (pool_base c pool) (c.seed pod_uid % usable (pool_bits c pool))
                (usable (pool_bits c pool)) fuel 0 (omega (arith, enough)) (omega arith)

-- If a reservation that a CREATE finds to exist already is still there at a GET of it in the world that
-- the CREATE leaves, then
-- Reserve ends within one more round than the pool has client addresses: with an error, or with a
-- reservation that is that of the gateway and the Pod, holds the Pod's allocation identity and is
-- active, at an address that was probed in one of as many rounds as there are client addresses.
pub reserve_total :
    {W : Type 0} (c : Cluster W) (fuel : ℕ) (g : Gateway) (pod_uid : String) (pool : Prefix)
    (s : Traced W Call)
    → Lasting c
    → usable (pool_bits c pool) < fuel
    → Post
        (λ found _.
          (r : Reservation) × (found ≡ some r)
          × (r.identity ≡ allocation_identity c g.uid pod_uid)
          × (reservation_matches r.lease g.uid pod_uid
                (allocation_identity c g.uid pod_uid)
                (c.prefix_string (v4 r.address 32))
              ≡ true)
          × ((n : ℕ) × (n < usable (pool_bits c pool))
              × (r.address
                  ≡ probe_address
                      (pool_base c pool)
                      (c.seed pod_uid % usable (pool_bits c pool))
                      (usable (pool_bits c pool))
                      n)))
        (λ _ _. Unit)
        (reserve c fuel g pod_uid pool s).0
        (reserve c fuel g pod_uid pool s).1
reserve_total {W} c fuel g pod_uid pool s lasting enough =
    (Triple-weaken (reserve c fuel g pod_uid pool)
        (reserve-Reserved c lasting fuel g pod_uid pool enough) (λ u h. h) spelled (λ e u h. tt)).at
      s tt
  where
    count : ℕ
    count = usable (pool_bits c pool)

    spelled :
        (found : Option Reservation) (u : Traced W Call)
        → Reserved c lasting g pod_uid
            (allocation_identity c g.uid pod_uid)
            (pool_base c pool)
            (c.seed pod_uid % count)
            count
            found
            u
        → (r : Reservation) × (found ≡ some r)
          × (r.identity ≡ allocation_identity c g.uid pod_uid)
          × (reservation_matches r.lease g.uid pod_uid
                (allocation_identity c g.uid pod_uid)
                (c.prefix_string (v4 r.address 32))
              ≡ true)
          × ((n : ℕ) × (n < count)
              × (r.address ≡ probe_address (pool_base c pool) (c.seed pod_uid % count) count n))
    spelled none u h = absurd h
    spelled (some r) u h = (r, refl, h.0.0, h.0.1, h.1)
