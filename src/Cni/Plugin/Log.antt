-- ===== src/Cni/Plugin/Log.antt =====
-- What the log of calls shows of ADD in internal/cni/plugin.go: the deny-first discipline, and the
-- ways in which ADD may end.
use waycloak.Prelude.{
  ℕ, suc, String, Bool, true, false, ◌&&◌, ◌||◌, ◌==◌, not, List, [], ◌∷◌, ◌≡◌, ◌⊎◌, Option, none,
  some, any,
}
use waycloak.Exec.{ok, err}
use waycloak.Cni.Types.{Resolution, ready, is_ready, Phase, Attachment, Request}
use waycloak.Cni.Calls.{
  Call, resolve, prepare, check, withdraw, install_lockdown, cleanup, save, list,
}
use waycloak.Cni.Plugin.{same_pod}

-- Whether the deny-first policy of a Pod stands in a namespace: it was installed, and neither a
-- cleanup nor a withdrawal came after.
abbrev pub denied : String → String → List Call → Bool
denied ns uid [] = false
denied ns uid (install_lockdown n u (ok _) ∷ log) = (n == ns && u == uid) || denied ns uid log
denied ns uid (cleanup n u _ ∷ log) = not (n == ns && u == uid) && denied ns uid log
denied ns uid (withdraw pod _ ∷ log) = not (pod.net_ns == ns && pod.uid == uid) && denied ns uid log
denied ns uid (_ ∷ log) = denied ns uid log

-- The newest call is a successful programming of the Pod, under the binding that a record names.
abbrev pub Prepared : Attachment → List Call → Type 0
Prepared a (prepare pod b (ok _) ∷ log) =
    (a.pod ≡ pod)
    × (a.binding_uid ≡ b.uid)
    × (a.binding_generation ≡ b.generation)
    × (a.gateway_uid ≡ b.gateway_uid)
Prepared a _ = ⊥

abbrev pub GuardedSave : Phase → Attachment → List Call → Type 0
GuardedSave ready a log = Prepared a log × (denied a.pod.net_ns a.pod.uid log ≡ true)
GuardedSave _ a log = Unit

-- Every programming of a path was asked for behind the deny-first policy, and every record of a
-- ready attachment came right after its programming, behind that policy.
abbrev pub Guarded : List Call → Type 0
Guarded [] = Unit
Guarded (prepare pod b r ∷ log) = (denied pod.net_ns pod.uid log ≡ true) × Guarded log
Guarded (save a r ∷ log) = GuardedSave a.phase a log × Guarded log
Guarded (_ ∷ log) = Guarded log

-- How often the deny-first policy was installed.
abbrev pub lockdowns : List Call → ℕ
lockdowns [] = 0
lockdowns (install_lockdown n u (ok _) ∷ log) = suc (lockdowns log)
lockdowns (_ ∷ log) = lockdowns log

-- The newest answer of the store to the listing of a network.
abbrev pub last_listed : List Call → Option (List Attachment)
last_listed [] = none
last_listed (list n (ok found) ∷ log) = some found
last_listed (_ ∷ log) = last_listed log

module _ (r : Request) where
  -- The record of the deny state was refused, and the state was rolled back.
  abbrev pub RolledBack : List Call → Type 0
  RolledBack (cleanup n u _ ∷ save a (err _) ∷ log) =
      (n ≡ r.pod.net_ns) × (u ≡ r.pod.uid) × (denied r.pod.net_ns r.pod.uid log ≡ true)
  RolledBack _ = ⊥

  -- The last call recorded the Pod's attachment as ready, its path programmed behind the policy.
  abbrev pub Protected : List Call → Type 0
  Protected (save a (ok _) ∷ log) =
      (a.pod ≡ r.pod)
      × (is_ready a.phase ≡ true)
      × Prepared a log
      × (denied r.pod.net_ns r.pod.uid log ≡ true)
  Protected _ = ⊥

  -- The last call had the agent confirm the live attachment of the Pod.
  abbrev pub Confirmed : List Call → Type 0
  Confirmed (check pod b (ok _) ∷ log) = pod ≡ r.pod
  Confirmed _ = ⊥

  -- In the last call the agent said of the exact Pod UID that it is not enrolled, and the store had
  -- listed no earlier enrollment of that Pod.
  abbrev pub Unenrolled : List Call → Type 0
  Unenrolled (resolve pod (ok answer) ∷ log) =
      (pod ≡ r.pod)
      × (answer.pod_uid ≡ r.pod.uid)
      × (answer.enrolled ≡ false)
      × ((found : List Attachment) × (last_listed log ≡ some found)
          × (any (same_pod r) found ≡ false))
  Unenrolled _ = ⊥

  abbrev pub ResolvedLog : Resolution → List Call → Type 0
  ResolvedLog answer (resolve pod (ok given) ∷ log) =
      (pod ≡ r.pod)
      × (given ≡ answer)
      × ((found : List Attachment) × (last_listed log ≡ some found)
          × (any (same_pod r) found ≡ false))
  ResolvedLog answer _ = ⊥

  abbrev pub Refused : ℕ → List Call → Type 0
  Refused n log =
      (denied r.pod.net_ns r.pod.uid log ≡ true) ⊎ ((lockdowns log ≡ n) ⊎ RolledBack log)

  abbrev pub Safe : List Call → Type 0
  Safe log = Guarded log × (denied r.pod.net_ns r.pod.uid log ≡ true)
