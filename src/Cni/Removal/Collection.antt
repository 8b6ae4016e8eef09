-- ===== src/Cni/Removal/Collection.antt =====
-- GC in internal/cni/plugin.go: what it may take away, read off the log of its calls.
use waycloak.Prelude.{
  String, Bool, true, false, eq_iff, List, [], ◌∷◌, ◌≡◌, refl, ap, any, All, In, In-All,
}
use waycloak.Exec.{Err, Result, ok, err, lift, Traced, join_all}
use waycloak.Exec.Triple.{
  Post-both, Triple, Triple-pure, Triple-lift, Triple-if, Triple-bind, Triple-attempt,
  Triple-perform, Triple-perform_known, Triple-bind-lift, Triple-known, Post,
}
use waycloak.Cni.Types.{Key, key_eq, Attachment, attachment_key}
use waycloak.Cni.Calls.{
  Plugin, Call, list, identity, cleanup, delete, is_identity, call_identity, call_cleanup,
  call_delete, call_list,
}
use waycloak.Cni.Removal.{gc_cleaned, gc_attachment, gc_loop, gc}

abbrev pub is_valid : List Key → Key → Bool
is_valid valid k = any (λ v. key_eq v k) valid

-- The newest call identified a namespace as a given one.
abbrev pub Identified : String → String → List Call → Type 0
Identified path name (identity seen x ∷ log) = (seen ≡ path) × (x ≡ ok name)
Identified path name _ = ⊥

-- A namespace is cleaned only for an attachment in `K` whose key is not valid, right after it was
-- identified as that attachment's; a record is deleted only under a key that is not valid.
abbrev pub Collected : (Attachment → Type 0) → List Key → List Call → Type 0
Collected K valid [] = Unit
Collected K valid (cleanup path uid x ∷ log) =
    ((a : Attachment) × K a
      × (path ≡ a.pod.net_ns)
      × (uid ≡ a.pod.uid)
      × (is_valid valid (attachment_key a) ≡ false)
      × Identified path a.namespace_identity log)
    × Collected K valid log
Collected K valid (delete k x ∷ log) = (is_valid valid k ≡ false) × Collected K valid log
Collected K valid (_ ∷ log) = Collected K valid log

-- The store lists this attachment for the network in this world.
abbrev pub ListedAt : {W : Type 0} → Plugin W → String → W → Attachment → Type 0
ListedAt p network w a =
    (attachments : List Attachment) × ((p.store.list network w).0 ≡ ok attachments)
    × In a attachments

module _ {W : Type 0} (p : Plugin W) (valid : List Key) (K : Attachment → Type 0) where
  abbrev Kept : Traced W Call → Type 0
  Kept s = Collected K valid s.log

  abbrev Failed : Err → Traced W Call → Type 0
  Failed e s = Collected K valid s.log

  module _ (a : Attachment) (known : K a)
      (invalid : is_valid valid (attachment_key a) ≡ false) where
    gc_cleaned-Kept :
        (cleaned : Result (Unit {0})) → Triple Kept (gc_cleaned p a cleaned) (λ _. Kept) Failed
    unfolding gc_cleaned call_delete
    gc_cleaned-Kept (err e) = Triple-pure _ (λ s h. h)
    gc_cleaned-Kept (ok _) =
        Triple-bind {Q = λ _. Kept} _ _
          (Triple-attempt _
            (Triple-perform _ _ (λ x w s h. (invalid, h)) (λ e w s h. (invalid, h))))
          λ deleted. Triple-pure _ (λ s h. h)

    -- The namespace was looked at; if it is the attachment's, the log says so.
    abbrev Seen : Result String → Traced W Call → Type 0
    Seen observed s =
        Kept s
        × (is_identity observed a.namespace_identity ≡ true
            → Identified a.pod.net_ns a.namespace_identity s.log)

    gc_attachment-Kept : Triple Kept (gc_attachment p a) (λ _. Kept) Failed
    unfolding gc_attachment call_identity call_cleanup
    gc_attachment-Kept =
        Triple-bind {Q = Seen} _ _
          (Triple-attempt _ (
            Triple-perform _ _
              (λ found w s h. (h, λ e. (refl, ap ok ((eq_iff found a.namespace_identity).0 e))))
              (λ x w s h. (h, λ e. cc))))
          λ observed.
            Triple-bind {Q = λ _. Kept} _ _
              (Triple-if (is_identity observed a.namespace_identity) _ _
                (λ e. Triple-attempt _ (
                  Triple-perform _ _ (λ x w s h. ((a, known, refl, refl, invalid, h.1 e), h.0))
                    (λ x w s h. ((a, known, refl, refl, invalid, h.1 e), h.0))))
                (λ e. Triple-pure _ (λ s h. h.0)))
              gc_cleaned-Kept

  gc_loop-Kept :
      (attachments : List Attachment)
      → All K attachments
      → Triple Kept (gc_loop p valid attachments) (λ _. Kept) Failed
  unfolding gc_loop
  gc_loop-Kept [] ks = Triple-pure _ (λ s h. h)
  gc_loop-Kept (a ∷ rest) (k, ks) =
      Triple-bind {Q = λ _. Kept} _ _
        (Triple-if (is_valid valid (attachment_key a)) _ _ (λ _. Triple-pure _ (λ s h. h))
          (gc_attachment-Kept a k))
        λ errs.
          Triple-bind {Q = λ _. Kept} _ _ (gc_loop-Kept rest ks) λ later. Triple-pure _ (λ s h. h)

  -- What the store lists for the network in this world is in `K`.
  abbrev Lists : String → W → Type 0
  Lists network w =
      (attachments : List Attachment)
      → (p.store.list network w).0 ≡ ok attachments
      → All K attachments

  call_list-Listed :
      (network : String)
      → Triple
          (λ s. Lists network s.world × Kept s)
          (call_list p network)
          (λ attachments s. All K attachments × Kept s)
          Failed
  unfolding call_list
  call_list-Listed network = Triple-perform_known _ _ (λ r w s h e. answered r w s h e)
    where
      answered :
          (r : Result (List Attachment)) (w : W) (s : Traced W Call)
          → Lists network s.world × Kept s
          → (p.store.list network s.world).0 ≡ r
          → Post
              (λ attachments s. All K attachments × Kept s)
              Failed
              r
              (record { world = w; log = list network r ∷ s.log })
      answered (ok attachments) w s h e = (h.0 attachments e, h.1)
      answered (err x) w s h e = h.1

  lift-Kept : (x : Result (Unit {0})) → Triple Kept (lift x) (λ _. Kept) Failed
  lift-Kept (ok _) = Triple-lift _ (λ s h. h)
  lift-Kept (err e) = Triple-lift _ (λ s h. h)

  gc-Kept :
      (network : String)
      → Triple (λ s. Lists network s.world × Kept s) (gc p network valid) (λ _. Kept) Failed
  unfolding gc
  gc-Kept network =
      Triple-bind-lift _ _ (λ e q s h. h.1)
        λ _ _. Triple-bind _ _ (call_list-Listed network) λ attachments. Triple-known _ λ known.
          Triple-bind {Q = λ _. Kept} _ _ (gc_loop-Kept attachments known)
            λ errs. lift-Kept (join_all errs)

-- GC keeps the log collected, whatever the enforcer and the store answer and however it ends: it
-- cleans a namespace only for an attachment that the store lists for the network when GC starts, whose
-- key is not among the valid ones, right after that namespace was identified as this attachment's, and it deletes no record under a valid key.
pub gc-Collected :
    {W : Type 0} (p : Plugin W) (network : String) (valid : List Key) (s : Traced W Call)
    → Collected (ListedAt p network s.world) valid s.log
    → Collected (ListedAt p network s.world) valid (gc p network valid s).1.log
gc-Collected p network valid s h =
    Post-both (λ _ t. Collected listed valid t.log) (λ _ t. Collected listed valid t.log)
      (λ t. Collected listed valid t.log) (gc p network valid s).0 (gc p network valid s).1
      (λ a t. t) (λ e t. t)
      ((gc-Kept p valid listed network).at s ((λ xs e. In-All listed xs (λ a m. (xs, e, m))), h))
  where
    listed : Attachment → Type 0
    listed = ListedAt p network s.world
