-- ===== src/Samples/Cni.antt =====
-- An environment of the plugin of internal/cni that answers every call, and the theorems at it.
use waycloak.Prelude.{ℕ, ◌+◌, true, [], ◌∷◌, ◌⊎◌}
use waycloak.Prelude.Int.{pos}
use waycloak.Exec.{ok, Exec, Traced}
use waycloak.Exec.Triple.{Post}
use waycloak.Cni.Types.{PodIdentity, Binding, Key, Attachment, locked_down, Request}
use waycloak.Cni.Calls.{Plugin, Call}
use waycloak.Cni.Plugin.{add}
use waycloak.Cni.Plugin.Log.{Guarded, Protected, Confirmed, Unenrolled, Refused}
use waycloak.Cni.Plugin.Admission.{add-Guarded, add_outcome}
use waycloak.Cni.Removal.{delete_attachment, gc}
use waycloak.Cni.Removal.Release.{Discharged, delete_attachment-Discharged}
use waycloak.Cni.Removal.Collection.{ListedAt, Collected, gc-Collected}

abbrev web : PodIdentity
web = record {
  namespace = "apps";
  name = "web";
  uid = "pod-1";
  container_id = "c1";
  if_name = "eth0";
  net_ns = "/run/netns/web";
}

abbrev web_binding : Binding
web_binding = record { uid = "b1"; generation = pos 1; pod_uid = "pod-1"; gateway_uid = "g1" }

abbrev web_attachment : Attachment
web_attachment = record {
  network = "waycloak";
  pod = web;
  namespace_identity = "ns-1";
  phase = locked_down;
  binding_uid = "";
  binding_generation = pos 0;
  gateway_uid = "";
  updated_at = 1;
}

abbrev answers : {A : Type 0} → A → Exec ℕ A
answers a w = (ok a, w)

-- The store holds the attachment of `web`, and its Pod terminates.
abbrev environment : Plugin ℕ
environment = record {
  agent = record {
    resolve = λ _. answers (record { pod_uid = "pod-1"; enrolled = true; terminating = true });
    binding = λ _. answers web_binding;
    prepare = λ _ _. answers tt;
    check = λ _ _. answers tt;
    withdraw = λ _. answers tt;
    status = answers tt;
  };
  enforcer = record {
    identity = λ _. answers "ns-1";
    install_lockdown = λ _ _. answers tt;
    cleanup = λ _ _. answers tt;
  };
  store = record {
    load = λ _. answers web_attachment;
    save = λ _. answers tt;
    delete = λ _. answers tt;
    list = λ _. answers (web_attachment ∷ []);
  };
  agent_set = true;
  enforcer_set = true;
  store_set = true;
  resolve_timeout = 0;
  binding_timeout = 0;
  retry_interval = 0;
  now = λ w. (w, w + 1);
  context_done = λ w. (true, w);
}

abbrev web_request : Request
web_request = record { network = "waycloak"; pod = web }

abbrev web_key : Key
web_key = record { network = "waycloak"; container_id = "c1"; if_name = "eth0" }

abbrev start : Traced ℕ Call
start = record { world = 1; log = [] }

add-Guarded_example : Guarded (add environment web_request start).1.log
add-Guarded_example = add-Guarded environment web_request start tt

add_outcome_example :
    Post
      (λ _ t.
        Protected web_request t.log ⊎ (Confirmed web_request t.log ⊎ Unenrolled web_request t.log))
      (λ _ t. Refused web_request 0 t.log)
      (add environment web_request start).0
      (add environment web_request start).1
add_outcome_example = add_outcome environment web_request start tt

delete_attachment-Discharged_example :
    Discharged (delete_attachment environment web_key "" start).1.log
delete_attachment-Discharged_example = delete_attachment-Discharged environment web_key "" start tt

gc-Collected_example :
    Collected
      (ListedAt environment "waycloak" start.world)
      []
      (gc environment "waycloak" [] start).1.log
gc-Collected_example = gc-Collected environment "waycloak" [] start tt
