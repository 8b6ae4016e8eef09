-- ===== src/NodeAgent/Guard.antt =====
-- What the log of calls shows of the methods of internal/nodeagent/service.go.
use waycloak.Prelude.{
  ℕ, suc, some, String, Bool, true, false, if◌then◌else◌, not, ◌||◌, ◌==◌, List, [], ◌∷◌, ◌≡◌, ◌⊎◌,
  all,
}
use waycloak.Prelude.Int.{ℤ}
use waycloak.Prelude.Assoc.{lookup}
use waycloak.Exec.{Result, ok, err, errors_is}
use waycloak.Cni.Types.{PodIdentity, Attachment}
use waycloak.Dataplane.{Netip, validate}
use waycloak.NodeAgent.Types.{
  State, Pod, Observation, Call, list_bindings, list_all, get_pod, get_binding, identity,
  install_lockdown, configure, verify, cleanup, save, delete, publish,
}
use waycloak.NodeAgent.Lookup.{is_not_found, exact_pod_absent}

abbrev pub has_departed : String → Result Pod → Bool
has_departed uid (ok pod) = not (pod.uid == uid) || pod.deleting
has_departed uid (err e) = exact_pod_absent e

abbrev pub withheld : List Observation → Bool
withheld = all (λ o. not o.ready)

module _ {n : Netip} where
  -- The newest call locked down this Pod in this namespace.
  abbrev pub JustLocked : String → String → List (Call n) → Type 0
  JustLocked ns uid (install_lockdown m u (ok _) ∷ log) = (m ≡ ns) × (u ≡ uid)
  JustLocked ns uid _ = ⊥

  -- The newest call verified, in this namespace, a configuration of this Pod at this generation.
  abbrev pub Verified : String → String → ℤ → List (Call n) → Type 0
  Verified ns uid generation (verify m c (ok _) ∷ log) =
      (m ≡ ns) × (c.pod_uid ≡ uid) × (c.allocation_generation ≡ generation)
  Verified ns uid generation _ = ⊥

  -- The newest calls, but for deletions and accepted records, are a successful verification, an
  -- accepted publication, or the answer that there is no binding.
  abbrev pub Released : List (Call n) → Type 0
  Released (delete k x ∷ log) = Released log
  Released (save a (ok _) ∷ log) = Released log
  Released (verify m c (ok _) ∷ log) = Unit
  Released (publish r (ok _) ∷ log) = Unit
  Released (get_binding ns name (err e) ∷ log) = errors_is is_not_found e ≡ true
  Released _ = ⊥

  -- Before the newest identifications and cleanups the reader answered that the Pod is absent, replaced or terminating.
  abbrev pub Departed : PodIdentity → List (Call n) → Type 0
  Departed i (identity path x ∷ log) = Departed i log
  Departed i (cleanup path uid x ∷ log) = Departed i log
  Departed i (get_pod ns name x ∷ log) =
      (ns ≡ i.namespace) × (name ≡ i.name) × (has_departed i.uid x ≡ true)
  Departed i _ = ⊥

  -- Among the newest identifications and cleanups, the namespace was identified as the attachment's.
  abbrev pub Identified : Attachment → List (Call n) → Type 0
  Identified a (identity path x ∷ log) =
      ((path ≡ a.pod.net_ns) × (x ≡ ok a.namespace_identity)) ⊎ Identified a log
  Identified a (cleanup path uid x ∷ log) = Identified a log
  Identified a _ = ⊥

  -- A path is configured only right after the Pod was locked down in that namespace, and only with a
  -- valid configuration of that Pod. A namespace is cleaned only for an attachment in `K` whose Pod has
  -- departed, and that was identified as its namespace. A record is saved only right after its path
  -- was verified at the recorded generation, and deleted only when released. Nothing is published as
  -- ready.
  abbrev pub Guarded : (Attachment → Type 0) → List (Call n) → Type 0
  Guarded K [] = Unit
  Guarded K (configure ns c x ∷ log) =
      (JustLocked ns c.pod_uid log × (validate n c ≡ ok tt)) × Guarded K log
  Guarded K (cleanup ns uid x ∷ log) =
      ((a : Attachment) × K a
        × (ns ≡ a.pod.net_ns)
        × (uid ≡ a.pod.uid)
        × Departed a.pod log
        × Identified a log)
      × Guarded K log
  Guarded K (save a x ∷ log) =
      Verified a.pod.net_ns a.pod.uid a.binding_generation log × Guarded K log
  Guarded K (delete k x ∷ log) = Released log × Guarded K log
  Guarded K (publish r x ∷ log) = (withheld r.observations ≡ true) × Guarded K log
  Guarded K (_ ∷ log) = Guarded K log

  pub Guarded-mono :
      {K L : Attachment → Type 0}
      → ((a : Attachment) → K a → L a)
      → (log : List (Call n)) → Guarded K log
      → Guarded L log
  Guarded-mono f [] h = tt
  Guarded-mono f (configure ns c x ∷ log) h = (h.0, Guarded-mono f log h.1)
  Guarded-mono f (cleanup ns uid x ∷ log) ((a, k, p, q, d, i), h) =
      ((a, f a k, p, q, d, i), Guarded-mono f log h)
  Guarded-mono f (save a x ∷ log) h = (h.0, Guarded-mono f log h.1)
  Guarded-mono f (delete k x ∷ log) h = (h.0, Guarded-mono f log h.1)
  Guarded-mono f (publish r x ∷ log) h = (h.0, Guarded-mono f log h.1)
  Guarded-mono f (get_pod ns name x ∷ log) h = Guarded-mono f log h
  Guarded-mono f (get_binding ns name x ∷ log) h = Guarded-mono f log h
  Guarded-mono f (list_bindings x ∷ log) h = Guarded-mono f log h
  Guarded-mono f (identity ns x ∷ log) h = Guarded-mono f log h
  Guarded-mono f (install_lockdown ns uid x ∷ log) h = Guarded-mono f log h
  Guarded-mono f (verify ns c x ∷ log) h = Guarded-mono f log h
  Guarded-mono f (list_all x ∷ log) h = Guarded-mono f log h

  -- How often a path was configured.
  abbrev pub configures : List (Call n) → ℕ
  configures [] = 0
  configures (configure ns c x ∷ log) = suc (configures log)
  configures (_ ∷ log) = configures log

  -- The newest call asked for the lockdown of this Pod in this namespace, or was refused a
  -- configuration right after the lockdown.
  abbrev pub LockdownAsked : String → String → List (Call n) → Type 0
  LockdownAsked ns uid (install_lockdown m u x ∷ log) = (m ≡ ns) × (u ≡ uid)
  LockdownAsked ns uid (configure m c (err _) ∷ log) = (m ≡ ns) × JustLocked ns uid log
  LockdownAsked ns uid _ = ⊥

-- The service has an observation of this Pod at this generation, ready or not.
abbrev pub Shown : String → ℤ → Bool → State → Type 0
Shown uid generation ready t =
    (o : Observation) × (lookup uid t.observations ≡ some o)
    × (o.generation ≡ generation)
    × (o.ready ≡ ready)

-- A read, or a lockdown.
abbrev pub is_shutting : {n : Netip} → Call n → Bool
is_shutting (configure ns c x) = false
is_shutting (verify ns c x) = false
is_shutting (cleanup ns uid x) = false
is_shutting (save a x) = false
is_shutting (delete k x) = false
is_shutting (publish r x) = false
is_shutting _ = true

-- How many calls were neither.
abbrev pub openings : {n : Netip} → List (Call n) → ℕ
openings [] = 0
openings (c ∷ log) = if is_shutting c then openings log else suc (openings log)
