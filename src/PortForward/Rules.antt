-- ===== src/PortForward/Rules.antt =====
-- `ruleSet` of internal/portforward/manager.go: which leases have a rule.
use waycloak.Prelude.{
  ℕ, String, Bool, true, false, ◌||◌, List, [], ◌∷◌, ◌≡◌, ◌⊎◌, refl, subst, arith, All, ltb,
  if◌then◌else◌, inl, inr,
}
use waycloak.Exec.{Err, Result, ok, err}
use waycloak.Exec.Triple.{
  Post, Triple, Triple-pure, Triple-if, Triple-bind, Triple-read, Triple-own_state, Triple-known,
}
use waycloak.PortForward.Intent.{Addr}
use waycloak.PortForward.States.{
  RuntimeState, States, GatewayRule, rule_for, insert_rule, sort_rules,
}
use waycloak.PortForward.Manager.{Backends, Run, now, is_serving, collect_rules, rule_set}

-- The state of a lease that may have a rule, as far as its flags go.
abbrev pub IsOpen : RuntimeState → Type 0
IsOpen s = (s.draining ≡ false) × (s.drained ≡ false) × (s.blocked ≡ false)

-- A rule stands for a lease of the states whose flags leave it open and whose mapping expires
-- later than some time.
abbrev pub Serves : (Addr → String) → States → GatewayRule → Type 0
Serves addr_string [] r = ⊥
Serves addr_string ((uid, s) ∷ rest) r =
    ((r ≡ rule_for addr_string s) × IsOpen s × ((t : ℕ) × (ltb t s.mapping.expires_at ≡ true)))
    ⊎ Serves addr_string rest r

module _ (P : GatewayRule → Type 0) where
  insert_rule-All :
      (r : GatewayRule) (rules : List GatewayRule) → P r → All P rules → All P (insert_rule r rules)
  unfolding insert_rule
  insert_rule-All r [] p h = (p, h)
  insert_rule-All r (t ∷ rest) p h = ground (arith, insert_rule-All r rest p h.1)

  sort_rules-All : (rules : List GatewayRule) → All P rules → All P (sort_rules rules)
  unfolding sort_rules
  sort_rules-All [] h = h
  sort_rules-All (r ∷ rest) h = insert_rule-All r (sort_rules rest) h.0 (sort_rules-All rest h.1)

All-map :
    {P Q : GatewayRule → Type 0} (rules : List GatewayRule)
    → ((r : GatewayRule) → P r → Q r)
    → All P rules
    → All Q rules
All-map [] f h = h
All-map (r ∷ rest) f h = (f r h.0, All-map rest f h.1)

module _ {W : Type 0} (b : Backends W) where
  abbrev Never : Err → Run W → Type 0
  Never e s = ⊥

  -- A lease that is served is open and unexpired.
  abbrev Served : RuntimeState → Bool → Type 0
  Served s true = IsOpen s × ((now : ℕ) × (ltb now s.mapping.expires_at ≡ true))
  Served s false = Unit

  is_open : (s : RuntimeState) → (s.draining || s.drained || s.blocked) ≡ false → IsOpen s
  is_open s h = ground arith

  Served-at :
      (s : RuntimeState) (t : ℕ) (x : Bool) → ltb t s.mapping.expires_at ≡ x → IsOpen s → Served s x
  Served-at s t true e o = (o, (t, e))
  Served-at s t false e o = tt

  is_serving-Served :
      {P : Run W → Type 0} (s : RuntimeState)
      → Triple P (is_serving b s) (λ x _. Served s x × Unit {0}) Never
  unfolding is_serving now
  is_serving-Served s =
      Triple-if (s.draining || s.drained || s.blocked) _ _ (λ _. Triple-pure _ (λ u h. (tt, tt)))
        (λ closed. Triple-bind {Q = λ _ _. Unit} _ _ (Triple-read _ (λ a w u h. tt)) (λ t.
          Triple-pure _
            (λ u h. (Served-at s t (ltb t s.mapping.expires_at) refl (is_open s closed), tt))))

  collected :
      (uid : String) (s : RuntimeState) (rest : States) (rules : List GatewayRule) (serving : Bool)
      → Served s serving
      → All (Serves b.addr_string rest) rules
      → All
          (Serves b.addr_string ((uid, s) ∷ rest))
          (if serving then rule_for b.addr_string s ∷ rules else rules)
  collected uid s rest rules true v h = (inl (refl, v.0, v.1), All-map rules (λ r g. inr g) h)
  collected uid s rest rules false v h = All-map rules (λ r g. inr g) h

  collect_rules-Serves :
      (states : States)
      → Triple
          (λ _. Unit {0})
          (collect_rules b states)
          (λ rules _. All (Serves b.addr_string states) rules)
          Never
  unfolding collect_rules
  collect_rules-Serves [] = Triple-pure _ (λ u h. tt)
  collect_rules-Serves ((uid, s) ∷ rest) = Triple-bind _ _ (is_serving-Served s) λ serving.
      Triple-known _ λ v.
        Triple-bind _ _ (collect_rules-Serves rest)
          λ rules. Triple-pure _ (λ u h. collected uid s rest rules serving v h)

  rule_set-Serves :
      (states : States)
      → Triple
          (λ u. u.own ≡ states)
          (rule_set b)
          (λ rules _. All (Serves b.addr_string states) rules)
          Never
  unfolding rule_set
  rule_set-Serves states =
      Triple-bind {Q = λ found _. (found ≡ states) × Unit {0}} _ _
        (Triple-own_state (λ u h. (h, tt)))
        λ found. Triple-known _ λ same. Triple-bind _ _ (collect_rules-Serves found) λ rules.
          Triple-pure _ (λ u h.
            subst (λ x. All (Serves b.addr_string x) (sort_rules rules)) same
              (sort_rules-All (Serves b.addr_string found) rules h))

-- The rule set that replaces the gateway's rules is always computed, and it holds no rule but
-- those of leases that are neither draining nor drained nor blocked, each with the target of that
-- lease's own state and with a mapping that has an expiry time later than zero.
pub rule_set_sound :
    {W : Type 0} (b : Backends W) (s : Run W)
    → (rules : List GatewayRule) × ((rule_set b s).0 ≡ ok rules)
      × All (Serves b.addr_string s.own) rules
rule_set_sound b s = returned (rule_set b s).0 refl ((rule_set-Serves b s.own).at s refl)
  where
    returned :
        (r : Result (List GatewayRule))
        → (rule_set b s).0 ≡ r
        → Post (λ rules _. All (Serves b.addr_string s.own) rules) (λ _ _. ⊥) r (rule_set b s).1
        → (rules : List GatewayRule) × ((rule_set b s).0 ≡ ok rules)
          × All (Serves b.addr_string s.own) rules
    returned (ok rules) e h = (rules, e, h)
    returned (err x) e h = absurd h
