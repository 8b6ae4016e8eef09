-- ===== src/NodeAgent/Grouping.antt =====
-- The attachments of one Pod in internal/nodeagent/service.go: sorting and grouping lose and invent
-- none.
use waycloak.Prelude.{
  string_lt, String, Bool, true, false, ◌==◌, eq_iff, ◌||◌, List, [], ◌∷◌, ◌++◌, ◌≡◌, refl, sym,
  arith, All, Bool-cases, inl, inr, if◌then◌else◌,
}
use waycloak.Cni.Types.{PodIdentity, Attachment, attachment_key}
use waycloak.NodeAgent.Groups.{
  insert_attachment, sort_attachments, add_to_group, group_attachments, disagree, key_lt,
}

module _ {A : Type 0} where
  pub map-All : {P Q : A → Type 0} (f : (a : A) → P a → Q a) (xs : List A) → All P xs → All Q xs
  map-All f [] h = tt
  map-All f (x ∷ xs) (p, h) = (f x p, map-All f xs h)

  pub append-All : (P : A → Type 0) (xs ys : List A) → All P xs → All P ys → All P (xs ++ ys)
  append-All P [] ys h g = g
  append-All P (x ∷ xs) ys (p, h) g = (p, append-All P xs ys h g)

  if-intro : (P : A → Type 0) (b : Bool) {x y : A} → P x → P y → P (if b then x else y)
  if-intro P true p q = p
  if-intro P false p q = q

module _ (P : Attachment → Type 0) where
  insert_attachment-All :
      (a : Attachment) (xs : List Attachment) → P a → All P xs → All P (insert_attachment a xs)
  unfolding insert_attachment
  insert_attachment-All a [] p h = (p, tt)
  insert_attachment-All a (b ∷ rest) p (q, h) =
      if-intro (All P) (key_lt (attachment_key b) (attachment_key a))
        (q, insert_attachment-All a rest p h) (p, (q, h))

  pub sort_attachments-All : (xs : List Attachment) → All P xs → All P (sort_attachments xs)
  unfolding sort_attachments
  sort_attachments-All [] h = tt
  sort_attachments-All (a ∷ rest) (p, h) =
      insert_attachment-All a (sort_attachments rest) p (sort_attachments-All rest h)

module _ (K : Attachment → Type 0) where
  -- Each group is of one Pod UID, and of attachments in `K`.
  abbrev pub OfPod : String × List Attachment → Type 0
  OfPod (uid, group) = All (λ a. (a.pod.uid ≡ uid) × K a) group

  add_to_group-OfPod :
      (a : Attachment) (groups : List (String × List Attachment))
      → K a
      → All OfPod groups
      → All OfPod (add_to_group a groups)
  unfolding add_to_group
  add_to_group-OfPod a [] k h = (((refl, k), tt), tt)
  add_to_group-OfPod a ((uid, group) ∷ rest) k (p, h) = elim (Bool-cases (uid == a.pod.uid)) [
    | inl e ↦ rw e (
      append-All (λ b. (b.pod.uid ≡ uid) × K b) group (a ∷ []) p
          ((sym ((eq_iff uid a.pod.uid).0 e), k), tt),
      h,
    )
    | inr e ↦ rw e (
        if-intro (All OfPod) (string_lt uid a.pod.uid) (p, add_to_group-OfPod a rest k h)
          (((refl, k), tt), (p, h)))
  ]

  pub group_attachments-OfPod :
      (attachments : List Attachment) (groups : List (String × List Attachment))
      → All K attachments
      → All OfPod groups
      → All OfPod (group_attachments attachments groups)
  unfolding group_attachments
  group_attachments-OfPod [] groups ks h = h
  group_attachments-OfPod (a ∷ rest) groups (k, ks) h = group_attachments-OfPod rest _ ks (
      if-intro (All OfPod) (a.pod.uid == "" || a.pod.net_ns == "") h
        (add_to_group-OfPod a groups k h))

-- The attachment is of this Pod, by namespace, name and UID.
abbrev pub Same : PodIdentity → Attachment → Type 0
Same i a = (a.pod.namespace ≡ i.namespace) × (a.pod.name ≡ i.name) × (a.pod.uid ≡ i.uid)

pub disagree-Same :
    (i : PodIdentity) (attachments : List Attachment)
    → disagree i attachments ≡ false
    → (K : Attachment → Type 0) → All (λ a. (a.pod.uid ≡ i.uid) × K a) attachments
    → All (λ a. Same i a × K a) attachments
unfolding disagree
disagree-Same i [] d K h = tt
disagree-Same i (a ∷ rest) d K ((u, k), h) = (
  (
    (
      (eq_iff a.pod.namespace i.namespace).0 (ground arith),
      (eq_iff a.pod.name i.name).0 (ground arith),
      u,
    ),
    k,
  ),
  disagree-Same i rest (ground arith) K h,
)
