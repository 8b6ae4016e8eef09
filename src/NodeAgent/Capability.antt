-- ===== src/NodeAgent/Capability.antt =====
-- The report of internal/nodeagent/service.go and the label that internal/scheduling/nodes.go
-- publishes for it.
use waycloak.Prelude.{
  ℕ, String, true, false, not, ◌&&◌, List, [], ◌∷◌, ◌≡◌, refl, sym, Option, some, none, ◌⊎◌, ◌∙◌,
  inl, inr,
}
use waycloak.Prelude.Assoc.{lookup}
use waycloak.Exec.{ok, Traced, ◌>>=◌, own_state, read}
use waycloak.Dataplane.{Netip}
use waycloak.NodeAgent.Types.{Service, Report, Run}
use waycloak.NodeAgent.Lookup.{is_ready, report, report_of}
use waycloak.Scheduling.{
  same_release, NodeReport, Publisher, Call, get, apply, patch, cni_ready_label, apply_report,
}
use waycloak.Scheduling.Capability.{Sound, apply_report-Sound}

-- No set of labels that was applied has the label of readiness.
abbrev pub Unlabelled : List Call → Type 0
Unlabelled [] = Unit
Unlabelled (apply name labels r ∷ log) = (lookup cni_ready_label labels ≡ none) × Unlabelled log
Unlabelled (_ ∷ log) = Unlabelled log

Sound-Unlabelled :
    {W : Type 0} (p : Publisher W) (r : NodeReport) (now : ℕ) (log : List Call)
    → r.ready ≡ false
    → Sound p r now log
    → Unlabelled log
Sound-Unlabelled p r now [] e h = tt
Sound-Unlabelled p r now (get name x ∷ log) e h = Sound-Unlabelled p r now log e h
Sound-Unlabelled p r now (patch node x ∷ log) e h = Sound-Unlabelled p r now log e h.2
Sound-Unlabelled p r now (apply name labels x ∷ log) e h =
    (unlabelled h.0.2, Sound-Unlabelled p r now log e h.1)
  where
    unlabelled :
        (lookup cni_ready_label labels ≡ none)
          ⊎ ((r.ready ≡ true)
              × (same_release r.release_identity p.release_identity ≡ true)
              × (lookup cni_ready_label labels ≡ some "true"))
        → lookup cni_ready_label labels ≡ none
    unlabelled (inl q) = q
    unlabelled (inr q) = absurd cc

report_ready :
    {n : Netip} {W : Type 0} (s : Service n W) (t : Run n W) (r : Report)
    → (report s t).0 ≡ ok r
    → r.node.ready ≡ (is_ready s t.own && not s.capability_held)
unfolding report ◌>>=◌ own_state read
report_ready s t r e = rw (sym q) refl
  where
    q : report_of s t.own (s.now t.world).0 ≡ r
    q = cc

-- A node agent that is not ready (it holds a release transition, its backend is unhealthy, or it
-- requires a relay that is) or holds its capability sends a report on which the controller applies no
-- label of readiness, whatever the cluster answers it.
pub unready_report-Unlabelled :
    {n : Netip} {W V : Type 0} (s : Service n W) (t : Run n W) (r : Report) (p : Publisher V)
    (agent : Option String) (v : Traced V Call)
    → (is_ready s t.own && not s.capability_held) ≡ false
    → (report s t).0 ≡ ok r
    → v.log ≡ []
    → Unlabelled (apply_report p agent r.node v).1.log
unready_report-Unlabelled s t r p agent v unready e empty =
    Sound-Unlabelled p r.node (p.now v.world).0 (apply_report p agent r.node v).1.log ready_false
      (apply_report-Sound p agent r.node v (rw empty tt))
  where
    ready_false : r.node.ready ≡ false
    ready_false = report_ready s t r e ∙ unready
