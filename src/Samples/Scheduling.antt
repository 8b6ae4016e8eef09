-- ===== src/Samples/Scheduling.antt =====
-- A ready report of the publisher's own release, and the theorem at it.
use waycloak.Prelude.{ℕ, true, [], ◌∷◌, some, ◌+◌, ◌≤◌, ◌≡◌, ◌↔◌, ltb, ◌==◌, refl, false}
use waycloak.Prelude.Int.{pos}
use waycloak.Exec.{ok, Traced}
use waycloak.Scheduling.{
  ReleaseIdentity, NodeReport, Publisher, Call, apply_report, baseline_capabilities,
  cni_ready_label, Node, capability_epoch_label, label, stale, is_stale_epoch,
}
use waycloak.Scheduling.Capability.{Sound, apply_report-Sound}
use waycloak.Prelude.Assoc.{lookup}
use waycloak.Scheduling.Controller.{freshness_of, reconcile_found, requeue_exact}

abbrev release : ReleaseIdentity
release = record { version = "v1.0.0"; manifest_digest = "sha256:aa" }

abbrev pub publisher : Publisher ℕ
publisher = record {
  client_set = true;
  release_identity = release;
  transition_plan_id = "";
  transition_release_identity = record { version = ""; manifest_digest = "" };
  conformance_profile = "baseline";
  required = [];
  clock_skew = 0;
  now = λ w. (w, w);
  get = λ name w. (ok (record { name = name; labels = (cni_ready_label, "true") ∷ [] }), w);
  apply = λ _ _ w. (ok tt, w);
  patch = λ _ w. (ok tt, w);
  format = λ _. "1";
  parse = λ _. some (pos 1);
}

abbrev report : NodeReport
report = record {
  node_name = "node-1";
  node_boot_id = "boot";
  instance_id = "agent";
  observed_at = some 100000000000;
  ready = true;
  release_identity = release;
  conformance_profile = "baseline";
  capabilities = baseline_capabilities;
}

abbrev start : Traced ℕ Call
start = record { world = 100000000000; log = [] }

apply_report-Sound_example :
    Sound publisher report
      (publisher.now start.world).0
      (apply_report publisher (some "node-1") report start).1.log
apply_report-Sound_example = apply_report-Sound publisher (some "node-1") report start tt

abbrev labelled : Node
labelled = record {
  name = "node-1";
  labels = (cni_ready_label, "true") ∷ (capability_epoch_label, "1") ∷ [];
}

labelled_ready : label labelled cni_ready_label == "true" ≡ true
unfolding label lookup
labelled_ready = refl

abbrev at_ten : Traced ℕ Call
at_ten = record { world = 10000000000; log = [] }

labelled_fresh : stale publisher (some labelled) 10000000000 (freshness_of 20000000000) ≡ false
unfolding stale is_stale_epoch label lookup freshness_of
labelled_fresh = refl

requeue_exact_example :
    (after : ℕ) × ((reconcile_found publisher 20000000000 (ok labelled) at_ten).0 ≡ ok after)
    × ((t : ℕ)
        → 10000000000 ≤ t
        → stale publisher (some labelled) t (freshness_of 20000000000)
          ≡ ltb (10000000000 + after) t)
    × ((after ≡ 0)
        ↔ (stale publisher (some labelled) (10000000000 + 1) (freshness_of 20000000000) ≡ true))
requeue_exact_example =
    requeue_exact publisher labelled 20000000000 at_ten labelled_ready labelled_fresh
