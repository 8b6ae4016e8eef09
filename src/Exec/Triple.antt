-- ===== src/Exec/Triple.antt =====
-- Pre- and postconditions of actions, with a postcondition for each way to return.
use waycloak.Prelude.{Bool, true, false, ◌≡◌, refl, if◌then◌else◌, String, ◌∷◌}
use waycloak.Exec.{
  Err, wrap, Result, ok, err, Exec, pure, fail, continue, wrap_result, ◌>>=◌, attempt, wrapping,
  lift, Traced, perform, observe, Owned, call, read, own_state, set_own, gets, modify,
}

module _ {S A : Type 0} where
  -- `Q` of a value and the state beside it, `E` of an error and the state beside it.
  abbrev pub Post : (A → S → Type 0) → (Err → S → Type 0) → Result A → S → Type 0
  Post Q E (ok a) s = Q a s
  Post Q E (err e) s = E e s

  -- Whatever `P` state it starts in, `m` returns with its postcondition.
  pub record Triple (P : S → Type 0) (m : Exec S A) (Q : A → S → Type 0) (E : Err → S → Type 0)
      : Type 0 where
    pub at : (s : S) → P s → Post Q E (m s).0 (m s).1

module _ {S A : Type 0} {P : S → Type 0} {Q : A → S → Type 0} {E : Err → S → Type 0} where
  pub Triple-pure : (a : A) → ((s : S) → P s → Q a s) → Triple P (pure a) Q E
  unfolding pure
  Triple-pure a h = record { at = h }

  pub Triple-fail : (e : Err) → ((s : S) → P s → E e s) → Triple P (fail e) Q E
  unfolding fail
  Triple-fail e h = record { at = h }

  pub Triple-lift : (r : Result A) → ((s : S) → P s → Post Q E r s) → Triple P (lift r) Q E
  unfolding lift
  Triple-lift r h = record { at = h }

  -- A part of the precondition that does not speak of the state.
  pub Triple-known :
      {C : Type 0} (m : Exec S A) → (C → Triple P m Q E) → Triple (λ s. C × P s) m Q E
  Triple-known m t = record { at = λ s h. (t h.0).at s h.1 }

  pub Triple-gets : (f : S → A) → ((s : S) → P s → Q (f s) s) → Triple P (gets f) Q E
  unfolding gets
  Triple-gets f h = record { at = h }

  pub Triple-if :
      (b : Bool) (m n : Exec S A)
      → (b ≡ true → Triple P m Q E)
      → (b ≡ false → Triple P n Q E)
      → Triple P (if b then m else n) Q E
  Triple-if true m n tm tn = tm refl
  Triple-if false m n tm tn = tn refl

  pub Triple-wrapping :
      (text : String) (m : Exec S A)
      → Triple P m Q (λ e. E (wrap text e))
      → Triple P (wrapping text m) Q E
  unfolding wrapping
  Triple-wrapping text m t = record { at = λ s h. go (m s).0 (m s).1 (t.at s h) }
    where
      go :
          (r : Result A) (s : S)
          → Post Q (λ e. E (wrap text e)) r s
          → Post Q E (wrap_result text r) s
      go (ok a) s h = h
      go (err e) s h = h

module _ {S : Type 0} {P : S → Type 0} {Q : Unit {0} → S → Type 0} {E : Err → S → Type 0} where
  pub Triple-modify : (f : S → S) → ((s : S) → P s → Q tt (f s)) → Triple P (modify f) Q E
  unfolding modify
  Triple-modify f h = record { at = h }

module _ {S A B : Type 0} {P : S → Type 0} {Q : A → S → Type 0} {R : B → S → Type 0}
    {E : Err → S → Type 0} where
  pub Triple-bind :
      (m : Exec S A) (f : A → Exec S B)
      → Triple P m Q E
      → ((a : A) → Triple (Q a) (f a) R E)
      → Triple P (m >>= f) R E
  unfolding ◌>>=◌
  Triple-bind m f tm tf = record { at = λ s h. go (m s).0 (m s).1 (tm.at s h) }
    where
      go : (r : Result A) (s : S) → Post Q E r s → Post R E (continue r f s).0 (continue r f s).1
      go (ok a) s h = (tf a).at s h
      go (err e) s h = h

module _ {S A B : Type 0} {P : S → Type 0} {R : B → S → Type 0} {E : Err → S → Type 0} where
  -- What follows a check may use that the check passed.
  pub Triple-bind-lift :
      (r : Result A) (f : A → Exec S B)
      → ((e : Err) → r ≡ err e → (s : S) → P s → E e s)
      → ((a : A) → r ≡ ok a → Triple P (f a) R E)
      → Triple P (lift r >>= f) R E
  unfolding ◌>>=◌
  Triple-bind-lift (ok a) f e k = record { at = (k a refl).at }
  Triple-bind-lift (err x) f e k = record { at = e x refl }

module _ {S A : Type 0} {P : S → Type 0} {Q : Result A → S → Type 0} {E : Err → S → Type 0} where
  pub Triple-attempt :
      (m : Exec S A) → Triple P m (λ a. Q (ok a)) (λ e. Q (err e)) → Triple P (attempt m) Q E
  unfolding attempt
  Triple-attempt m t = record { at = λ s h. go (m s).0 (m s).1 (t.at s h) }
    where
      go : (r : Result A) (s : S) → Post (λ a. Q (ok a)) (λ e. Q (err e)) r s → Q r s
      go (ok a) s h = h
      go (err e) s h = h

-- What both ways to return have in common.
pub Post-both :
    {S A : Type 0} (Q : A → S → Type 0) (E : Err → S → Type 0) (G : S → Type 0) (r : Result A)
    (s : S)
    → ((a : A) → Q a s → G s)
    → ((e : Err) → E e s → G s)
    → Post Q E r s
    → G s
Post-both Q E G (ok a) s q e h = q a h
Post-both Q E G (err x) s q e h = e x h

pub Post-ok :
    {S A : Type 0} (Q : A → S → Type 0) (E : Err → S → Type 0) (r : Result A) (s : S) (a : A)
    → r ≡ ok a
    → Post Q E r s
    → Q a s
Post-ok Q E r s a e h = rw e at h

-- Strengthen the precondition and weaken the postconditions.
module _ {S A : Type 0} {P P' : S → Type 0} {Q Q' : A → S → Type 0} {E E' : Err → S → Type 0} where
  pub Triple-weaken :
      (m : Exec S A)
      → Triple P m Q E
      → ((s : S) → P' s → P s)
      → ((a : A) (s : S) → Q a s → Q' a s)
      → ((e : Err) (s : S) → E e s → E' e s)
      → Triple P' m Q' E'
  Triple-weaken m t p q e = record { at = λ s h. go (m s).0 (m s).1 (t.at s (p s h)) }
    where
      go : (r : Result A) (s : S) → Post Q E r s → Post Q' E' r s
      go (ok a) s h = q a s h
      go (err x) s h = e x s h

-- Every action returns, one way or the other.
pub Triple-any :
    {S A : Type 0} {P : S → Type 0} (m : Exec S A) → Triple P m (λ _ _. Unit) (λ _ _. Unit)
Triple-any {S} {A} m = record { at = λ s h. go (m s).0 (m s).1 }
  where
    go : (r : Result A) (s : S) → Post (λ _ _. Unit) (λ _ _. Unit) r s
    go (ok a) s = tt
    go (err e) s = tt

-- A logged call: whatever the implementation answers, and whatever world it leaves.
module _ {W C A : Type 0} {P : Traced W C → Type 0} {Q : A → Traced W C → Type 0}
    {E : Err → Traced W C → Type 0} where
  pub Triple-perform :
      (c : Result A → C) (m : Exec W A)
      → ((a : A) (w : W) (s : Traced W C)
          → P s
          → Q a (record { world = w; log = c (ok a) ∷ s.log }))
      → ((e : Err) (w : W) (s : Traced W C)
          → P s
          → E e (record { world = w; log = c (err e) ∷ s.log }))
      → Triple P (perform c m) Q E
  unfolding perform
  Triple-perform c m q e = record { at = λ s h. go (m s.world).0 (m s.world).1 s h }
    where
      go :
          (r : Result A) (w : W) (s : Traced W C)
          → P s
          → Post Q E r (record { world = w; log = c r ∷ s.log })
      go (ok a) w s h = q a w s h
      go (err x) w s h = e x w s h

  -- The same where the state before tells something of the answer.
  pub Triple-perform_known :
      (c : Result A → C) (m : Exec W A)
      → ((r : Result A) (w : W) (s : Traced W C)
          → P s
          → (m s.world).0 ≡ r
          → Post Q E r (record { world = w; log = c r ∷ s.log }))
      → Triple P (perform c m) Q E
  unfolding perform
  Triple-perform_known c m q = record { at = λ s h. q (m s.world).0 (m s.world).1 s h refl }

  pub Triple-observe :
      (m : W → A × W)
      → ((a : A) (w : W) (s : Traced W C) → P s → Q a (record s { world = w }))
      → Triple P (observe m) Q E
  unfolding observe
  Triple-observe m q = record { at = λ s h. q (m s.world).0 (m s.world).1 s h }

-- The same beside a state of the code's own, which a call leaves alone.
module _ {W C O A : Type 0} {P : Owned W C O → Type 0} {Q : A → Owned W C O → Type 0}
    {E : Err → Owned W C O → Type 0} where
  pub Triple-call :
      (c : Result A → C) (m : Exec W A)
      → ((a : A) (w : W) (s : Owned W C O)
          → P s
          → Q a (record s { world = w; log = c (ok a) ∷ s.log }))
      → ((e : Err) (w : W) (s : Owned W C O)
          → P s
          → E e (record s { world = w; log = c (err e) ∷ s.log }))
      → Triple P (call c m) Q E
  unfolding call
  Triple-call c m q e = record { at = λ s h. go (m s.world).0 (m s.world).1 s h }
    where
      go :
          (r : Result A) (w : W) (s : Owned W C O)
          → P s
          → Post Q E r (record s { world = w; log = c r ∷ s.log })
      go (ok a) w s h = q a w s h
      go (err x) w s h = e x w s h

  pub Triple-read :
      (m : W → A × W)
      → ((a : A) (w : W) (s : Owned W C O) → P s → Q a (record s { world = w }))
      → Triple P (read m) Q E
  unfolding read
  Triple-read m q = record { at = λ s h. q (m s.world).0 (m s.world).1 s h }

module _ {W C O : Type 0} {P : Owned W C O → Type 0} {E : Err → Owned W C O → Type 0} where
  pub Triple-own_state :
      {Q : O → Owned W C O → Type 0}
      → ((s : Owned W C O) → P s → Q s.own s)
      → Triple P own_state Q E
  unfolding own_state
  Triple-own_state h = record { at = h }

  pub Triple-set_own :
      {Q : Unit {0} → Owned W C O → Type 0} (o : O)
      → ((s : Owned W C O) → P s → Q tt (record s { own = o }))
      → Triple P (set_own o) Q E
  unfolding set_own
  Triple-set_own o h = record { at = h }
