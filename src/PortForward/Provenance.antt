-- ===== src/PortForward/Provenance.antt =====
-- Where a port that `Reserve` of internal/portforward/allocation.go returns comes from.
use native.Mathlib.Nat.{mod-lt}
use Prim.Native.String.{◌++◌}
use waycloak.Prelude.{
  String, ℕ, zero, suc, ◌+◌, ◌≤◌, Bool, true, false, ◌&&◌, ◌==◌, not, ◌≡◌, refl, ◌⊎◌, inl, inr,
  List, [], ◌∷◌, Option, none, some, any, nat_eq, arith, if◌then◌else◌,
}
use waycloak.Exec.{Err, wrap, errors_is, Result, ok, err, Exec, pure, fail, Traced}
use waycloak.Exec.Triple.{
  Triple, Post-ok, Triple-bind, Triple-bind-lift, Triple-wrapping, Triple-perform, Triple-attempt,
  Triple-observe, Triple-if, Triple-pure, Triple-fail, Triple-weaken,
}
use waycloak.PortForward.Reservations.{
  holds_port, label_of, annotation_of, gateway_uid_annotation, with_port, port_label, state_label,
  quarantine_expired, Reserved, Object, Client, Call, list, create, get, delete, in_range,
  probed_port, port_count, Listing, held, occupied, reservation_port, is_active_of,
  desired_reservation, scan_removed, scan_one, scan, create_refused, create_answered, create_loop,
  reserve_scanned, reserve_port, is_not_found, is_already_exists,
}

abbrev InRange : ℕ → Type 0
InRange port = (49152 ≤ port) × (port ≤ 65535)

probed_port-InRange : (start offset : ℕ) → InRange (probed_port start offset)
unfolding probed_port
probed_port-InRange start offset =
    let r = mod-lt (start + offset) {m = 16384} (omega arith) in (omega arith, omega arith)

in_range_lem : (p : Option ℕ) (port : ℕ) → in_range p ≡ some port → InRange port
in_range_lem none port h = ground arith
in_range_lem (some q) port h = ground arith

abbrev Among : Reserved → List Reserved → Type 0
Among r [] = ⊥
Among r (x ∷ xs) = (x ≡ r) ⊎ Among r xs

-- The client listed a reservation, and the calls since were only DELETEs.
abbrev Listed : Reserved → List Call → Type 0
Listed r (list namespace labels (ok rs) ∷ log) = Among r rs
Listed r (delete x answer ∷ log) = Listed r log
Listed r _ = ⊥

-- The name of a gateway's reservation of a port.
abbrev pub reservation_name : {W : Type 0} → Client W → Object → ℕ → String
reservation_name c gateway port = "waycloak-pf-" ++ c.short_uid gateway.uid ++ "-" ++ c.itoa port

module _ {W : Type 0} (c : Client W) (lease gateway : Object) where
  -- The last call created the reservation of the port for the lease, or read, under the name of the
  -- gateway's reservation of this port, an active one of the lease.
  abbrev Created : ℕ → List Call → Type 0
  Created port (create r (ok _) ∷ log) =
      (now : ℕ) × (r ≡ desired_reservation c lease gateway port now)
  Created port (get namespace name (ok r) ∷ log) =
      (namespace ≡ gateway.namespace)
      × (name ≡ reservation_name c gateway port)
      × (is_active_of c lease r ≡ true)
  Created port _ = ⊥

  -- Or the client listed an active reservation of the lease for the port.
  abbrev pub Backed : ℕ → List Call → Type 0
  Backed port log =
      ((r : Reserved) × Listed r log
        × (is_active_of c lease r ≡ true)
        × (reservation_port c r ≡ some port))
      ⊎ Created port log

  abbrev Good : ℕ → Traced W Call → Type 0
  Good port s = InRange port × Backed port s.log

  abbrev Any : Err → Traced W Call → Type 0
  Any _ _ = Unit

  abbrev Known : List Reserved → Traced W Call → Type 0
  Known rs s = (r : Reserved) → Among r rs → Listed r s.log

  abbrev Found : Listing → Traced W Call → Type 0
  Found (held port) s = Good port s
  Found (occupied taken) s = Unit

  port_range : (r : Reserved) (port : ℕ) → reservation_port c r ≡ some port → InRange port
  unfolding reservation_port
  port_range r port e = in_range_lem (c.parse (label_of r port_label)) port e

  scan_removed-Found :
      (rs : List Reserved) (rest : Exec (Traced W Call) Listing) (answer : Result (Unit {0}))
      → Triple (Known rs) rest Found Any
      → Triple (Known rs) (scan_removed c rest answer) Found Any
  unfolding scan_removed
  scan_removed-Found rs rest (ok _) t = t
  scan_removed-Found rs rest (err e) t =
      Triple-if (errors_is is_not_found e) rest
        (fail (wrap "remove expired provider port quarantine" e)) (λ _. t)
        (λ _. Triple-fail _ (λ s h. tt))

  scan_one-Found :
      (now : ℕ) (r : Reserved) (rs : List Reserved) (skip take : Exec (Traced W Call) Listing)
      (port : Option ℕ)
      → reservation_port c r ≡ port
      → Triple (Known rs) skip Found Any
      → Triple (Known rs) take Found Any
      → Triple (Known (r ∷ rs)) (scan_one c lease now r skip take port) Found Any
  unfolding scan_one
  scan_one-Found now r rs skip take none e ts tk = Triple-fail _ (λ s h. tt)
  scan_one-Found now r rs skip take (some port) e ts tk =
      Triple-if (is_active_of c lease r) _ _
        (λ a. Triple-pure (held port) (λ s h. (port_range r port e, inl (r, h r (inl refl), a, e))))
        (λ _.
          Triple-if (label_of r state_label == "quarantine" && quarantine_expired r now) _ _
            (λ _.
              Triple-bind {Q = λ _ s. Known rs s} _ _
                (Triple-attempt _ (
                  Triple-perform (delete r) (c.delete r) (λ a w s h x m. h x (inr m))
                    (λ a w s h x m. h x (inr m))))
                (λ answer. scan_removed-Found rs skip answer ts))
            (λ _. Triple-weaken take tk (λ s h x m. h x (inr m)) (λ a s h. h) (λ a s h. h)))

  scan-Found :
      (now : ℕ) (rs : List Reserved) (taken : List ℕ)
      → Triple (Known rs) (scan c lease gateway now rs taken) Found Any
  unfolding scan
  scan-Found now [] taken = Triple-pure (occupied taken) (λ s h. tt)
  scan-Found now (r ∷ rs) taken =
      Triple-if (not (annotation_of r gateway_uid_annotation == gateway.uid)) _ _
        (λ _.
          Triple-weaken _ (scan-Found now rs taken) (λ s h x m. h x (inr m)) (λ a s h. h)
            (λ a s h. h))
        (λ _.
          scan_one-Found now r rs _ _ (reservation_port c r) refl (scan-Found now rs taken)
            (scan-Found now rs (with_port c (reservation_port c r) taken)))

  -- A read reservation that is active for the lease is evidence for the port.
  abbrev Read : ℕ → Result Reserved → Traced W Call → Type 0
  Read port (ok r) s = is_active_of c lease r ≡ true → Created port s.log
  Read port (err e) s = Unit

  -- An action that needs no precondition and returns a good port.
  abbrev Returns : Exec (Traced W Call) ℕ → Type 0
  Returns m = Triple {S = Traced W Call} (λ _. Unit) m Good Any

  after-Read :
      (port : ℕ) (next : Exec (Traced W Call) ℕ) (answer : Result Reserved) (b : Bool)
      → InRange port
      → Returns next
      → (b ≡ true → (s : Traced W Call) → Read port answer s → Created port s.log)
      → Triple (Read port answer) (if b then pure port else next) Good Any
  after-Read port next answer b range t k =
      Triple-if b _ _ (λ e. Triple-pure port (λ s h. (range, inr (k e s h))))
        (λ _. Triple-weaken next t (λ s h. tt) (λ a s h. h) (λ e s h. h))

  create_refused-Good :
      (now port : ℕ) (next : Exec (Traced W Call) ℕ) (e : Err)
      → InRange port
      → Returns next
      → Returns (create_refused c lease gateway port now next e)
  unfolding create_refused desired_reservation
  create_refused-Good now port next e range t =
      Triple-if (not (errors_is is_already_exists e)) _ _ (λ _. Triple-fail _ (λ s h. tt))
        (λ _.
          Triple-bind {Q = Read port} _ _
            (Triple-attempt _
              (Triple-perform _ _ (λ a w s h. λ active. (refl, refl, active)) (λ e w s h. tt)))
            after)
    where
      after :
          (answer : Result Reserved)
          → Triple
              (Read port answer)
              (if holds_port c lease answer then pure port else next)
              Good
              Any
      after (ok r) = after-Read port next (ok r) _ range t (λ active s h. h active)
      after (err e) =
          after-Read port next (err e) false range t (λ no s h. absurd (ground (arith, no)))

  create_answered-Good :
      (now port : ℕ) (next : Exec (Traced W Call) ℕ) (answer : Result (Unit {0}))
      → InRange port
      → Returns next
      → Triple {S = Traced W Call}
          (λ s. answer ≡ ok tt → Created port s.log)
          (create_answered c lease gateway port now next answer)
          Good
          Any
  unfolding create_answered
  create_answered-Good now port next (ok tt) range t =
      Triple-pure port (λ s h. (range, inr (h refl)))
  create_answered-Good now port next (err e) range t =
      Triple-weaken _ (create_refused-Good now port next e range t) (λ s h. tt) (λ a s h. h)
        (λ e s h. h)

  create_loop-Good :
      (n now start offset : ℕ) (taken : List ℕ)
      → Returns (create_loop c n lease gateway now start taken offset)
  unfolding create_loop
  create_loop-Good zero now start offset taken = Triple-fail _ (λ s h. tt)
  create_loop-Good (suc n) now start offset taken =
      let rest = create_loop-Good n now start (offset + 1) taken in
      Triple-if (any (λ p. nat_eq p (probed_port start offset)) taken) _ _ (λ _. rest)
        (λ _.
          Triple-bind {Q = λ answer s. answer ≡ ok tt → Created (probed_port start offset) s.log} _
            _
            (Triple-attempt _ (
              Triple-perform
                (create (desired_reservation c lease gateway (probed_port start offset) now))
                (c.create (desired_reservation c lease gateway (probed_port start offset) now))
                (λ a w s h e. (now, refl)) (λ x w s h e. absurd (ground (arith, e)))))
            (λ answer.
              create_answered-Good now (probed_port start offset) _ answer
                (probed_port-InRange start offset) rest))

  scanned-Good :
      (now : ℕ) (l : Listing) → Triple (Found l) (reserve_scanned c lease gateway now l) Good Any
  unfolding reserve_scanned
  scanned-Good now (held port) = Triple-pure port (λ s h. h)
  scanned-Good now (occupied taken) = create_loop-Good port_count now _ 0 taken

  reserve_port-Good : Triple {S = Traced W Call} (λ _. Unit) (reserve_port c lease gateway) Good Any
  unfolding reserve_port
  reserve_port-Good =
      Triple-bind-lift _ _ (λ _ _ _ _. tt)
        λ _ _.
          Triple-bind {Q = Known} _ _
            (Triple-wrapping _ _ (Triple-perform _ _ (λ rs w s h x m. m) (λ e w s h. tt)))
            λ rs.
              Triple-bind {Q = λ _ s. Known rs s} _ _ (Triple-observe _ (λ a w s h. h))
                λ now. Triple-bind {Q = Found} _ _ (scan-Found now rs []) (scanned-Good now)

  -- A port that Reserve returns lies between 49152 and 65535, and there is evidence for it in the
  -- log: the client listed an active reservation of that lease UID for the port and only DELETEs
  -- followed, or the last call created the reservation of the port for the lease, or the last call
  -- read, in the gateway's namespace and under the name of the gateway's reservation of this very
  -- port, a reservation that is active for that lease UID.
  pub reserve_port-Backed :
      (s : Traced W Call) (port : ℕ)
      → (reserve_port c lease gateway s).0 ≡ ok port
      → ((49152 ≤ port) × (port ≤ 65535)) × Backed port (reserve_port c lease gateway s).1.log
  reserve_port-Backed s port e =
      Post-ok Good Any (reserve_port c lease gateway s).0 (reserve_port c lease gateway s).1 port e
        (reserve_port-Good.at s tt)
