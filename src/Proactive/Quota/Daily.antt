-- ===== src/Proactive/Quota/Daily.antt =====
-- proactive_v2/anyaction.py: what the quota grants in a day.
use minicode_agent_runtime.Prelude.{
  ℕ, Bool, true, false, ◌≡◌, ◌≤◌, ◌<◌, refl, List, [], ◌∷◌, Option, some, length, arith, Bool-cases,
  inl, inr, eq_iff, ==_iff, leb, leb→lt, if◌then◌else◌, ap, sym, ◌∙◌, ◌+◌, ◌-◌, subst, All, ltb→le,
  ◌*◌,
}
use minicode_agent_runtime.Proactive.Quota.{
  WindowKey, no_window, window, same_window, QuotaStore, QuotaSnapshot, window_meta, save, rollover,
  snapshot, record_action, Config, too_soon, decide, should_act, gate_record, Occasion, occur,
  actions, second,
}
use mathlib.Core.Option.{none}

same_window-eq : (a b : WindowKey) → same_window a b ≡ true → a ≡ b
same_window-eq no_window no_window e = refl
same_window-eq no_window (window d h z) e = absurd (cc e)
same_window-eq (window d h z) no_window e = absurd (cc e)
same_window-eq (window d h z) (window d' h' z') e =
    ground (arith, ==_iff d d', ==_iff h h', eq_iff z z')

same_window_self : (a : WindowKey) → same_window a a ≡ true
same_window_self no_window = refl
same_window_self (window d h z) = ground (arith, ==_iff d d, ==_iff h h, eq_iff z z)

-- The state after a rollover is of the window, keeps the last action, and has its count or none.
rollover-window :
    (key : WindowKey) (next : ℕ) (s : QuotaStore) → (rollover key next s).state.window_key ≡ key
unfolding rollover save
rollover-window key next s = elim (Bool-cases (same_window s.state.window_key key)) [
  | inl e ↦ rw e (same_window-eq s.state.window_key key e)
  | inr e ↦ rw e refl
]

rollover-last :
    (key : WindowKey) (next : ℕ) (s : QuotaStore)
    → (rollover key next s).state.last_action_at ≡ s.state.last_action_at
unfolding rollover save
rollover-last key next s = elim (Bool-cases (same_window s.state.window_key key)) [
  | inl e ↦ rw e refl
  | inr e ↦ rw e refl
]

rollover-same :
    (key : WindowKey) (next : ℕ) (s : QuotaStore)
    → s.state.window_key ≡ key
    → rollover key next s ≡ s
unfolding rollover
rollover-same key next s e = rw (e, same_window_self key) refl

module _ (idle_factor : ℕ → ℕ → ℕ) (cfg : Config) where
  abbrev pub key_at : ℕ → WindowKey
  key_at now = (window_meta now cfg.reset_hour_local cfg.timezone).0

  abbrev at_gate : ℕ → QuotaStore → QuotaStore
  at_gate now s = (snapshot now cfg.reset_hour_local cfg.timezone s).1

  at_gate-window : (now : ℕ) (s : QuotaStore) → (at_gate now s).state.window_key ≡ key_at now
  unfolding snapshot
  at_gate-window now s = rollover-window (key_at now) _ s

  at_gate-last :
      (now : ℕ) (s : QuotaStore) → (at_gate now s).state.last_action_at ≡ s.state.last_action_at
  unfolding snapshot
  at_gate-last now s = rollover-last (key_at now) _ s

  at_gate-same : (now : ℕ) (s : QuotaStore) → s.state.window_key ≡ key_at now → at_gate now s ≡ s
  unfolding snapshot
  at_gate-same now s e = rollover-same (key_at now) _ s e

  -- An action that is noted after the gate was asked at the same instant.
  gate_record-state :
      (now : ℕ) (s : QuotaStore)
      → s.state.window_key ≡ key_at now
      → (gate_record idle_factor cfg now s).state.used ≡ s.state.used + 1
  unfolding record_action save
  gate_record-state now s e = ap (λ (t : QuotaStore). t.state.used + 1) (at_gate-same now s e)

  -- What a passing gate has seen.
  decide-passes :
      (now : ℕ) (last_user : Option ℕ) (draw : ℕ) (snap : QuotaSnapshot)
      → (decide idle_factor cfg now last_user draw snap).0 ≡ true
      → (snap.used < cfg.daily_max_actions) × (too_soon cfg now snap.last_action_at ≡ false)
  unfolding decide
  decide-passes now last_user draw snap e =
      elim (Bool-cases (leb (cfg.daily_max_actions - snap.used) 0)) [
        | inl q ↦ absurd (cc (rw q at e))
        | inr q ↦ elim (Bool-cases (too_soon cfg now snap.last_action_at)) [
          | inl k ↦ absurd (cc (rw (q, k) at e))
          | inr k ↦ (omega (arith, leb→lt _ _ q), k)
        ]
      ]

  gate_record-window :
      (now : ℕ) (s : QuotaStore) → (gate_record idle_factor cfg now s).state.window_key ≡ key_at now
  unfolding record_action save snapshot
  gate_record-window now s = rollover-window (key_at now) _ s

  gate_record-last :
      (now : ℕ) (s : QuotaStore)
      → (gate_record idle_factor cfg now s).state.last_action_at ≡ some now
  unfolding record_action save
  gate_record-last now s = refl

  -- The gate passed and the action was recorded, or the store is as the gate left it.
  record Acted (o : Occasion) (s t : QuotaStore) : Type 0 where
    left : (at_gate o.now s).state.used < cfg.daily_max_actions
    apart : too_soon cfg o.now s.state.last_action_at ≡ false
    used : t.state.used ≡ (at_gate o.now s).state.used + 1
    last : t.state.last_action_at ≡ some o.now
    key : t.state.window_key ≡ key_at o.now

  abbrev Outcome : Occasion → QuotaStore → Bool × QuotaStore → Type 0
  Outcome o s (true, t) = Acted o s t
  Outcome o s (false, t) = t ≡ at_gate o.now s

  snapshot-parts :
      (now : ℕ) (s : QuotaStore)
      → let snap = (snapshot now cfg.reset_hour_local cfg.timezone s).0 in
        (snap.used ≡ (at_gate now s).state.used) × (snap.last_action_at ≡ s.state.last_action_at)
  unfolding snapshot
  snapshot-parts now s = (refl, rollover-last (key_at now) _ s)

  occur-Outcome : (o : Occasion) (s : QuotaStore) → Outcome o s (occur idle_factor cfg o s)
  unfolding occur should_act
  occur-Outcome o s =
      let snap = (snapshot o.now cfg.reset_hour_local cfg.timezone s).0 in
      elim (Bool-cases (decide idle_factor cfg o.now o.last_user o.draw snap).0) [
        | inr e ↦ rw e refl
        | inl e ↦ elim (Bool-cases o.acted) [
          | inr a ↦ rw (e, a) refl
          | inl a ↦
              rw (e, a)
                (let (free, apart) = decide-passes o.now o.last_user o.draw snap e in
                  let (used, last) = snapshot-parts o.now s in
                  record {
                    left = subst (λ (n : ℕ). n < cfg.daily_max_actions) used free;
                    apart = subst (λ (l : Option ℕ). too_soon cfg o.now l ≡ false) last apart;
                    used = gate_record-state o.now (at_gate o.now s) (at_gate-window o.now s);
                    last = gate_record-last o.now (at_gate o.now s);
                    key = gate_record-window o.now (at_gate o.now s);
                  })
        ]
      ]

  -- The same instants, from a store that is already of the window.
  length-actions_in :
      (key : WindowKey) (os : List Occasion) (s : QuotaStore)
      → All (λ o. key_at o.now ≡ key) os
      → s.state.window_key ≡ key
      → length (actions idle_factor cfg os s) ≤ cfg.daily_max_actions - s.state.used
  unfolding actions
  length-actions_in key [] s h k = omega arith
  length-actions_in key (o ∷ os) s h k =
      go (occur idle_factor cfg o s) (occur-Outcome o s) (λ t q. length-actions_in key os t h.1 q)
    where
      go :
          (out : Bool × QuotaStore)
          → Outcome o s out
          → ((t : QuotaStore)
              → t.state.window_key ≡ key
              → length (actions idle_factor cfg os t) ≤ cfg.daily_max_actions - t.state.used)
          → length (
              if out.0
              then o.now ∷ actions idle_factor cfg os out.1
              else actions idle_factor cfg os out.1)
            ≤ cfg.daily_max_actions - s.state.used
      go (true, t) acted ih = omega (
        arith,
        ih t (acted.key ∙ h.0),
        acted.used,
        acted.left,
        ap (λ (u : QuotaStore). u.state.used) (at_gate-same o.now s (k ∙ sym h.0)),
      )
      go (false, t) same ih = omega (
        arith,
        ih t (ap (λ (u : QuotaStore). u.state.window_key) same ∙ at_gate-window o.now s ∙ h.0),
        ap (λ (u : QuotaStore). u.state.used) (same ∙ at_gate-same o.now s (k ∙ sym h.0)),
      )

  -- From any store, of the occasions whose instants fall into one window of the quota at most the
  -- daily maximum lead to an action.
  pub length-actions :
      (key : WindowKey) (os : List Occasion) (s : QuotaStore)
      → All (λ o. key_at o.now ≡ key) os
      → length (actions idle_factor cfg os s) ≤ cfg.daily_max_actions
  unfolding actions
  length-actions key [] s h = omega arith
  length-actions key (o ∷ os) s h = go (occur idle_factor cfg o s) (occur-Outcome o s)
    where
      go :
          (out : Bool × QuotaStore)
          → Outcome o s out
          → length (
              if out.0
              then o.now ∷ actions idle_factor cfg os out.1
              else actions idle_factor cfg os out.1)
            ≤ cfg.daily_max_actions
      go (true, t) acted =
          omega (arith, length-actions_in key os t h.1 (acted.key ∙ h.0), acted.used, acted.left)
      go (false, t) same = omega (
        arith,
        length-actions_in key os t h.1
            (ap (λ (u : QuotaStore). u.state.window_key) same ∙ at_gate-window o.now s ∙ h.0),
      )

  abbrev pub Apart : Option ℕ → ℕ → Type 0
  Apart none now = Unit
  Apart (some last) now = last + cfg.min_interval_seconds * second ≤ now

  -- Each instant lies at least the interval after the one before it.
  abbrev pub Spaced : Option ℕ → List ℕ → Type 0
  Spaced last [] = Unit
  Spaced last (t ∷ ts) = Apart last t × Spaced (some t) ts

  too_soon-Apart : (now : ℕ) (last : Option ℕ) → too_soon cfg now last ≡ false → Apart last now
  too_soon-Apart now none e = tt
  too_soon-Apart now (some last) e = ltb→le _ _ e

  -- Each action lies at least the minimal interval after the one before it, and the first after
  -- the last action that the store knows, also when the window of the quota changes in between.
  pub actions-Spaced :
      (os : List Occasion) (s : QuotaStore)
      → Spaced s.state.last_action_at (actions idle_factor cfg os s)
  unfolding actions
  actions-Spaced [] s = tt
  actions-Spaced (o ∷ os) s = go (occur idle_factor cfg o s) (occur-Outcome o s) (actions-Spaced os)
    where
      go :
          (out : Bool × QuotaStore)
          → Outcome o s out
          → ((t : QuotaStore) → Spaced t.state.last_action_at (actions idle_factor cfg os t))
          → Spaced s.state.last_action_at (
              if out.0
              then o.now ∷ actions idle_factor cfg os out.1
              else actions idle_factor cfg os out.1)
      go (true, t) acted ih = (
        too_soon-Apart o.now s.state.last_action_at acted.apart,
        subst (λ (l : Option ℕ). Spaced l (actions idle_factor cfg os t)) acted.last (ih t),
      )
      go (false, t) same ih =
          subst (λ (l : Option ℕ). Spaced l (actions idle_factor cfg os t))
            (ap (λ (u : QuotaStore). u.state.last_action_at) same ∙ at_gate-last o.now s) (ih t)
