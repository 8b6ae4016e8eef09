-- ===== src/GatewayAgent/Rounds.antt =====
-- The rounds of the loop of Run in internal/gatewaydataplane/service.go, and what holds along them.
use waycloak.Prelude.{Bool, true, false, not, ◌&&◌, ◌≡◌, ◌⊎◌, inl, inr, if◌then◌else◌}
use waycloak.Exec.{Result, ok, err, is_ok, ◌>>=◌, pure, own_state, set_own}
use waycloak.Exec.Triple.{Post}
use waycloak.GatewayAgent.{Service, Run, reconcile, round}
use waycloak.GatewayAgent.Forwarding.{Guarded, Open, Closed, all_ready, reconcile_outcome}

module _ {C W : Type 0} (s : Service C W) where
  -- A round, whether or not the context ended in it, or a change of the world around the service.
  pub data Step : Run C W → Run C W → Type 0 where
    around : (t : Run C W) (w : W) → Step t (record t { world = w })
    rounding : (t : Run C W) (live : Bool) → Step t (round s live t).1

  pub data Reach (t : Run C W) : Run C W → Type 0 where
    here : Reach t t
    next : {u v : Run C W} → Reach t u → Step u v → Reach t v

  -- The service counts as healthy only over rules that forward.
  abbrev pub Truthful : Run C W → Type 0
  Truthful t = (t.own.healthy ≡ true → Open t.log) × Guarded t.log

  reconcile-Truthful : (t : Run C W) → Truthful t → Truthful (reconcile s t).1
  reconcile-Truthful t h = ended (reconcile s t).0 (reconcile s t).1 (reconcile_outcome s t h.1)
    where
      ended :
          (r : Result (Unit {0})) (u : Run C W)
          → Post
              (λ _ u. (u.own ≡ all_ready) × Open u.log × Guarded u.log)
              (λ _ u.
                ((s.wired ≡ false) × (u ≡ t))
                ⊎ ((u.own.healthy ≡ false) × Closed u.log × Guarded u.log))
              r
              u
          → Truthful u
      ended (ok _) u (a, o, g) = ((λ _. o), g)
      ended (err e) u (inl (w, same)) = rw same h
      ended (err e) u (inr (down, c, g)) = ((λ up. cc), g)

  round-Truthful : (live : Bool) (t : Run C W) → Truthful t → Truthful (round s live t).1
  unfolding round ◌>>=◌ set_own own_state reconcile
  round-Truthful live t h =
      closed (not (is_ok (reconcile s t).0) && live) (reconcile s t).1 (reconcile-Truthful t h)
    where
      closed :
          (b : Bool) (u : Run C W)
          → Truthful u
          → Truthful ((if b then set_own (record u.own { healthy = false }) else pure tt) u).1
      closed true u g = ((λ up. cc), g.1)
      closed false u g = g

  Step-Truthful : {t u : Run C W} → Step t u → Truthful t → Truthful u
  Step-Truthful (around t w) h = h
  Step-Truthful (rounding t live) h = round-Truthful live t h

-- Along every sequence of rounds, between which the world may change, the health flag is up only while
-- the newest rules forward and were installed without an error; and rules that forward are asked for
-- only behind an overlay in place, an engine whose tunnel and DNS were then observed as ready, and a
-- probe of the split DNS that then succeeded.
pub reachable-Truthful :
    {C W : Type 0} (s : Service C W) (t u : Run C W)
    → Reach s t u
    → (t.own.healthy ≡ true → Open t.log) × Guarded t.log
    → (u.own.healthy ≡ true → Open u.log) × Guarded u.log
reachable-Truthful s t u here h = h
reachable-Truthful s t u (next r step) h = Step-Truthful s step (reachable-Truthful s t _ r h)
