-- ===== src/Cni/Plugin/Retry.antt =====
-- The loop of `retryValue` in internal/cni/plugin.go keeps what each attempt keeps.
use waycloak.Prelude.{ℕ, suc, zero, List}
use waycloak.Exec.{Result, ok, err, Exec, attempt, Traced}
use waycloak.Exec.Triple.{
  Triple, Triple-pure, Triple-fail, Triple-if, Triple-bind, Triple-attempt, Triple-observe,
}
use waycloak.Cni.Calls.{Plugin, Call}
use waycloak.Cni.Plugin.{retry_next, retry_last, retry_value}

-- An invariant of the log that a failed attempt keeps is an invariant of the retries, and what a
-- successful attempt establishes, they establish.
module _ {W A : Type 0} (p : Plugin W) (P : List Call → Type 0)
    (Q : A → Traced W Call → Type 0) where
  abbrev pub Tried : Exec (Traced W Call) A → Type 0
  Tried m = Triple (λ s. P s.log) m Q (λ _ s. P s.log)

  abbrev pub Answered : Result A → Traced W Call → Type 0
  Answered (ok a) s = Q a s
  Answered (err e) s = P s.log

  retry_next-Tried :
      (again : Exec (Traced W Call) A) (r : Result A)
      → Tried again
      → Triple (Answered r) (retry_next p again r) Q (λ _ s. P s.log)
  unfolding retry_next
  retry_next-Tried again (ok v) k = Triple-pure v (λ s h. h)
  retry_next-Tried again (err e) k =
      Triple-bind {Q = λ _ s. P s.log} _ _ (Triple-observe _ (λ a w s h. h))
        λ done. Triple-if done _ _ (λ _. Triple-fail _ (λ s h. h)) (λ _. k)

  retry_last-Tried : (r : Result A) → Triple (Answered r) (retry_last p r) Q (λ _ s. P s.log)
  unfolding retry_last
  retry_last-Tried (ok v) = Triple-pure v (λ s h. h)
  retry_last-Tried (err e) = Triple-fail _ (λ s h. h)

  pub retry_value-Tried :
      (n : ℕ) (op : Exec (Traced W Call) A) → Tried op → Tried (retry_value p n op)
  unfolding retry_value
  retry_value-Tried zero op k =
      Triple-bind {Q = Answered} (attempt op) _ (Triple-attempt op k) (λ r. retry_last-Tried r)
  retry_value-Tried (suc n) op k =
      Triple-bind {Q = Answered} (attempt op) _ (Triple-attempt op k)
        λ r. retry_next-Tried (retry_value p n op) r (retry_value-Tried n op k)
