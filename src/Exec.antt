-- ===== src/Exec.antt =====
-- Go methods as actions: a state goes in, and the result (a value or an `error`) comes out beside
-- the new state, which an error does not undo. Calls on an interface are performed on a world that
-- the interface's implementation owns, and are logged, newest first, with the answer.
pub mod Triple
use waycloak.Prelude.{String, Bool, true, false, ◌||◌, List, [], ◌∷◌, Option, none, some}

-- The sentinel errors that the modelled code tests for by `errors.Is` or a Kubernetes predicate.
pub data Sentinel : Type 0 where
  not_exist not_found already_exists pod_not_found binding_not_ready : Sentinel
  pod_identity_invalid pod_lookup_failed pod_uid_mismatch pod_node_mismatch : Sentinel
  resolution_invalid resolution_not_found resolution_unavailable : Sentinel
  sandbox_ambiguous pool_exhausted unsafe_pool reservation_conflict : Sentinel
  reservation_deleting identity_quarantined unsupported overlay_exhausted : Sentinel

-- `errors.New`, a sentinel, `fmt.Errorf` with one or two `%w`, and `errors.Join`.
pub data Err : Type 0 where
  new : String → Err
  sentinel : Sentinel → Err
  wrap : String → Err → Err
  join : Err → Err → Err

-- `errors.Is(err, target)`, through the wrapped and the joined errors.
unfoldable pub errors_is : (Sentinel → Bool) → Err → Bool
errors_is target (new text) = false
errors_is target (sentinel s) = target s
errors_is target (wrap text e) = errors_is target e
errors_is target (join e f) = errors_is target e || errors_is target f

pub data Result (A : Type 0) : Type 0 where
  ok : A → Result A
  err : Err → Result A

-- `errors.Join(errs...)`: nil if there is none.
abbrev pub join_all : List Err → Result (Unit {0})
join_all [] = ok tt
join_all (e ∷ es) = elim (join_all es) [ ok _ ↦ err e | err r ↦ err (join e r) ]

abbrev pub is_ok : {A : Type 0} → Result A → Bool
is_ok (ok a) = true
is_ok (err e) = false

abbrev pub Exec : Type 0 → Type 0 → Type 0
Exec S A = S → Result A × S

-- Opening `◌>>=◌` opens these too.
unfoldable pub pure : {S A : Type 0} → A → Exec S A
pure a s = (ok a, s)

unfoldable pub fail : {S A : Type 0} → Err → Exec S A
fail e s = (err e, s)

-- A function of the code that touches no state.
unfoldable pub lift : {S A : Type 0} → Result A → Exec S A
lift r s = (r, s)

abbrev pub continue : {S A B : Type 0} → Result A → (A → Exec S B) → Exec S B
continue (ok a) f s = f a s
continue (err e) f s = (err e, s)

-- `value, err := m()` where the code goes on whatever `err` is.
unfoldable pub attempt : {S A : Type 0} → Exec S A → Exec S (Result A)
attempt m s = let (r, s') = m s in (ok r, s')

abbrev pub wrap_result : {A : Type 0} → String → Result A → Result A
wrap_result text (ok a) = ok a
wrap_result text (err e) = err (wrap text e)

-- `if err != nil { return fmt.Errorf("text: %w", err) }`
unfoldable pub wrapping : {S A : Type 0} → String → Exec S A → Exec S A
wrapping text m s = let (r, s') = m s in (wrap_result text r, s')

unfoldable pub gets : {S A : Type 0} → (S → A) → Exec S A
gets f s = (ok (f s), s)

unfoldable pub modify : {S : Type 0} → (S → S) → Exec S (Unit {0})
modify f s = (ok tt, f s)

infixl 10 ◌>>=◌ ◌>>◌
unfoldable pub ◌>>=◌ : {S A B : Type 0} → Exec S A → (A → Exec S B) → Exec S B
unfolding pure fail lift attempt wrapping gets modify
◌>>=◌ m f s = let (r, s') = m s in continue r f s'

abbrev pub ◌>>◌ : {S B : Type 0} → Exec S (Unit {0}) → Exec S B → Exec S B
m >> k = m >>= λ _. k

-- The world of an interface's implementation, and the log of the calls made on it.
pub record Traced (W C : Type 0) : Type 0 where
  pub world : W
  pub log : List C

-- A call, logged with its arguments and its answer.
unfoldable pub perform : {W C A : Type 0} → (Result A → C) → Exec W A → Exec (Traced W C) A
perform c m s = let (r, w) = m s.world in (r, record { world = w; log = c r ∷ s.log })

-- A reading that cannot fail and is not logged, such as the clock's.
unfoldable pub observe : {W C A : Type 0} → (W → A × W) → Exec (Traced W C) A
observe m s = let (a, w) = m s.world in (ok a, record s { world = w })

-- The same beside a state `own` that belongs to the code itself.
pub record Owned (W C O : Type 0) : Type 0 where
  pub world : W
  pub log : List C
  pub own : O

unfoldable pub call : {W C O A : Type 0} → (Result A → C) → Exec W A → Exec (Owned W C O) A
call c m s = let (r, w) = m s.world in (r, record s { world = w; log = c r ∷ s.log })

unfoldable pub read : {W C O A : Type 0} → (W → A × W) → Exec (Owned W C O) A
read m s = let (a, w) = m s.world in (ok a, record s { world = w })

unfoldable pub own_state : {W C O : Type 0} → Exec (Owned W C O) O
own_state s = (ok s.own, s)

unfoldable pub set_own : {W C O : Type 0} → O → Exec (Owned W C O) (Unit {0})
set_own o s = (ok tt, record s { own = o })

-- `if bad { return errors.New(text) }`
abbrev pub reject_if : Bool → Err → Result (Unit {0})
reject_if true e = err e
reject_if false e = ok tt

-- `if err := first; err != nil { return err }`, where no state is touched.
abbrev pub and_then : {A B : Type 0} → Result A → (A → Result B) → Result B
and_then (ok a) f = f a
and_then (err e) f = err e
