-- ===== src/Scheduling/Controller.antt =====
-- internal/scheduling/controller.go: when a node's label of readiness is looked at again.
use waycloak.Prelude.{
  ℕ, suc, ◌+◌, ◌-◌, ◌*◌, ◌≤◌, true, false, Bool, ◌==◌, not, ◌≡◌, ◌↔◌, refl, Option, none, some,
  if◌then◌else◌, ltb, arith, String,
}
use waycloak.Prelude.Int.{ℤ, pos, negsuc}
use waycloak.Exec.{
  errors_is, Result, ok, err, Exec, pure, fail, attempt, ◌>>=◌, ◌>>◌, Traced, perform, observe,
}
use waycloak.Scheduling.{
  Node, Publisher, Call, get, cni_ready_label, capability_epoch_label, label, second,
  is_stale_epoch, stale, withdraw, is_not_found,
}

-- `DefaultFreshness` in nanoseconds.
abbrev pub default_freshness : ℕ
default_freshness = 20000000000

unfoldable pub freshness_of : ℕ → ℕ
freshness_of freshness = if ltb 0 freshness then freshness else default_freshness

-- `freshness - now.Sub(time.Unix(epoch, 0))`, which is not negative for a node that is not stale; an
-- epoch that does not parse is 0.
abbrev pub requeue_at : Option ℤ → ℕ → ℕ → ℕ
requeue_at none now freshness = freshness - now
requeue_at (some (pos epoch)) now freshness = freshness + epoch * second - now
requeue_at (some (negsuc n)) now freshness = freshness - (now + suc n * second)

module _ {W : Type 0} (p : Publisher W) where
  unfoldable pub requeue_after : Node → ℕ → ℕ → ℕ
  requeue_after node now freshness =
      requeue_at (p.parse (label node capability_epoch_label)) now freshness

  unfoldable pub reconcile_found : ℕ → Result Node → Exec (Traced W Call) ℕ
  reconcile_found freshness (err e) = if errors_is is_not_found e then pure 0 else fail e
  reconcile_found freshness (ok node) =
      if not (label node cni_ready_label == "true") then pure 0 else do
        now ← observe p.now
        if stale p (some node) now (freshness_of freshness)
            then withdraw p node.name >> pure 0
            else pure (requeue_after node now (freshness_of freshness))

  -- `Reconcile` returns the time after which to look again, 0 for never. `p` is the publisher with
  -- nothing but the reconciler's client and clock.
  unfoldable pub reconcile_node : ℕ → String → Exec (Traced W Call) ℕ
  reconcile_node freshness name = do
    found ← attempt (perform (get name) (p.get name))
    reconcile_found freshness found

  requeue_epoch :
      (epoch : Option ℤ) (now freshness : ℕ)
      → is_stale_epoch p epoch now freshness ≡ false
      → (t : ℕ) → now ≤ t
      → is_stale_epoch p epoch t freshness ≡ ltb (now + requeue_at epoch now freshness) t
  unfolding is_stale_epoch
  requeue_epoch none now freshness h t late = ground arith
  requeue_epoch (some (pos epoch)) now freshness h t late = ground arith
  requeue_epoch (some (negsuc n)) now freshness h t late = ground arith

  -- The reconciler of a node that is labelled ready and not stale asks to come back after exactly the
  -- time that is left: at every time from now on, the node is stale if and only if it is later than now
  -- by more than that. It asks for 0, which means never, exactly if the node is stale a nanosecond later.
  pub requeue_exact :
      (node : Node) (freshness : ℕ) (s : Traced W Call)
      → label node cni_ready_label == "true" ≡ true
      → stale p (some node) (p.now s.world).0 (freshness_of freshness) ≡ false
      → (after : ℕ) × ((reconcile_found freshness (ok node) s).0 ≡ ok after)
        × ((t : ℕ)
            → (p.now s.world).0 ≤ t
            → stale p (some node) t (freshness_of freshness) ≡ ltb ((p.now s.world).0 + after) t)
        × ((after ≡ 0)
            ↔ (stale p (some node) ((p.now s.world).0 + 1) (freshness_of freshness) ≡ true))
  unfolding stale requeue_after reconcile_found ◌>>=◌ observe
  requeue_exact node freshness s ready h = (
    requeue_after node now fresh,
    rw (ready, rw ready at h) refl,
    (λ t late. rw ready (exact t late)),
    rw ready (end_lem _ (exact (now + 1) (omega arith))),
  )
    where
      now : ℕ
      now = (p.now s.world).0

      fresh : ℕ
      fresh = freshness_of freshness

      left : ℕ
      left = requeue_at (p.parse (label node capability_epoch_label)) now fresh

      end_lem :
          (stale_then : Bool)
          → stale_then ≡ ltb (now + left) (now + 1)
          → (left ≡ 0) ↔ (stale_then ≡ true)
      end_lem b e = ground arith

      exact :
          (t : ℕ)
          → now ≤ t
          → is_stale_epoch p (p.parse (label node capability_epoch_label)) t fresh
            ≡ ltb (now + requeue_at (p.parse (label node capability_epoch_label)) now fresh) t
      exact = requeue_epoch (p.parse (label node capability_epoch_label)) now fresh (rw ready at h)
