-- ===== src/MetaOauth/Within.antt =====
-- Connecting pages keeps a workspace within the channels of its plan.
use omni_flow.Prelude.{
  ℕ, max, ◌≤◌, ◌≡◌, refl, inl, inr, arith, String, Bool, Option, none, some, ◌==◌, string_eq,
  triple_eq, Bool-cases, Option-cases, length,
}
use omni_flow.TextOps.{TextOps}
use omni_flow.Sql.{lookup}
use omni_flow.Sql.Keys.{Unique}
use omni_flow.Store.{Moment, Database}
use omni_flow.Store.Accounts.{list_connected_accounts}
use omni_flow.Store.Accounts.Saved.{row_id}
use omni_flow.Plans.{plan_or_pro, effective_status}
use omni_flow.Plans.Channels.{channel_eq}
use omni_flow.Limits.{PlanGate, gate_plan}
use omni_flow.Security.{TokenCodec}
use omni_flow.Store.{default_tenant_id}
use omni_flow.Store.Subscriptions.{get_subscription, ensure_subscription}
use omni_flow.Plans.Trial.{get_or_create_subscription}
use omni_flow.Plans.Trial.First.{first_subscription, get_or_create_lem}
use omni_flow.Limits.{is_gate_active, load_plan_gate}
use omni_flow.Security.{Claims, verify_payload}
use omni_flow.MetaOauth.{
  Exchange, listed, rejected, unreachable, claim_or, read_state, with_gate, after_exchange,
  complete_pages, facebook_callback,
}
use omni_flow.MetaOauth.Connected.{connected_within}
use omni_flow.MetaOauth.Selected.{connected_keys}

module _ (ops : TextOps) (codec : TokenCodec) (uid : String → String) (tenant : String) where
  keys_same :
      (db db' : Database)
      → db'.connected_accounts ≡ db.connected_accounts
      → connected_keys ops tenant db' ≡ connected_keys ops tenant db
  unfolding list_connected_accounts
  keys_same db db' e = rw e refl

  -- After the gate was loaded, every branch.
  gate_within :
      (now : Moment) (claims : Claims) (configured : Bool) (subscribes : String → Bool)
      (exchange : Exchange) (limit : ℕ) (gate : PlanGate) (db : Database)
      → claim_or ops codec claims.tid "default" ≡ tenant
      → (gate_plan gate).channels ≡ some limit
      → gate.channels ≡ none
      → gate.tenant_id ≡ tenant
      → ((a b : String) → uid a ≡ uid b → a ≡ b)
      → ((id : String) → lookup row_id (uid id) db.connected_accounts ≡ none)
      → Unique row_id db.connected_accounts
      → ops.lower "meta" ≡ "meta"
      → let db' =
          (with_gate ops codec uid now claims configured subscribes exchange (some gate, db)).1 in
        length (connected_keys ops tenant db') ≤ max limit (length (connected_keys ops tenant db))
  gate_within now claims configured subscribes exchange limit gate db named capped unloaded same inj
        fresh u plain =
      elim (Bool-cases (is_gate_active gate)) [
        | inr ended ↦ rw ended (omega arith)
        | inl active ↦ rw active (elim (Bool-cases configured) [
          | inr missing ↦ rw missing (omega arith)
          | inl ready ↦ rw ready (exchanged exchange)
        ])
      ]
    where
      exchanged :
          (exchange : Exchange)
          → length (
              connected_keys ops tenant
                (after_exchange ops codec uid now
                  (claim_or ops codec claims.tid "default")
                  (claim_or ops codec claims.uid "global")
                  subscribes
                  gate
                  exchange
                  db).1)
            ≤ max limit (length (connected_keys ops tenant db))
      exchanged (rejected message) = omega arith
      exchanged unreachable = omega arith
      exchanged (listed found) = rw named (
          connected_within ops codec uid tenant now (claim_or ops codec claims.uid "global") limit
            (complete_pages found) gate db capped unloaded same inj fresh u plain)

  -- The cap of the plan that the workspace is on, or that it starts on.
  abbrev pub plan_limit : ℕ → String → Moment → Database → Option ℕ
  plan_limit days_of_trial subscription_uid now db =
      (plan_or_pro (first_subscription days_of_trial subscription_uid now tenant db).plan).channels

  created_accounts :
      (days_of_trial : ℕ) (subscription_uid : String) (now : Moment) (db : Database)
      → (get_or_create_subscription days_of_trial subscription_uid now tenant
          db).1.connected_accounts
        ≡ db.connected_accounts
  unfolding get_or_create_subscription ensure_subscription
  created_accounts days_of_trial subscription_uid now db =
      elim (Option-cases (get_subscription tenant db)) [
        | inr (s, found) ↦ rw (found, get_or_create_subscription) refl
        | inl missing ↦
            rw (missing, get_or_create_subscription)
              (elim (Bool-cases (tenant == default_tenant_id)) [
                | inl shared ↦ rw shared refl
                | inr own ↦ rw own refl
              ])
      ]

  abbrev fresh_gate : ℕ → String → Moment → Database → PlanGate
  fresh_gate days_of_trial subscription_uid now db =
      let s = first_subscription days_of_trial subscription_uid now tenant db in
      record {
        tenant_id = tenant;
        subscription = s;
        status = effective_status s now;
        channels = none;
      }

  loaded_gate :
      (days_of_trial : ℕ) (subscription_uid : String) (now : Moment) (db : Database)
      → load_plan_gate days_of_trial subscription_uid now tenant db ≡ (
        some (fresh_gate days_of_trial subscription_uid now db),
        (get_or_create_subscription days_of_trial subscription_uid now tenant db).1,
      )
  unfolding load_plan_gate
  loaded_gate days_of_trial subscription_uid now db =
      rw ((get_or_create_lem days_of_trial subscription_uid now tenant db).0, load_plan_gate) refl

  -- The callback for a workspace with a cap on its channels: whatever pages Meta lists, and whether
  -- or not they are saved, the channels that the workspace has connected afterwards are at most the
  -- cap, or as many as before if they were more.
  pub callback_within_plan :
      (days_of_trial : ℕ) (subscription_uid : String) (now : Moment) (configured : Bool)
      (subscribes : String → Bool) (exchange : Exchange) (state given : String)
      (denial : Option String) (db : Database) (claims : Claims) (limit : ℕ)
      → read_state ops codec (verify_payload codec now state) ≡ some claims
      → claim_or ops codec claims.tid "default" ≡ tenant
      → plan_limit days_of_trial subscription_uid now db ≡ some limit
      → ((a b : String) → uid a ≡ uid b → a ≡ b)
      → ((id : String) → lookup row_id (uid id) db.connected_accounts ≡ none)
      → Unique row_id db.connected_accounts
      → ops.lower "meta" ≡ "meta"
      → let db' =
          (facebook_callback ops codec days_of_trial subscription_uid uid now configured subscribes
            exchange state given denial db).1 in
        length (connected_keys ops tenant db') ≤ max limit (length (connected_keys ops tenant db))
  unfolding facebook_callback gate_plan
  callback_within_plan days_of_trial subscription_uid now configured subscribes exchange state given
        denial db claims limit read named capped inj fresh u plain =
      let made = get_or_create_subscription days_of_trial subscription_uid now tenant db in
      let kept = created_accounts days_of_trial subscription_uid now db in
      elim (Bool-cases (state == "")) [
        | inl blank ↦ rw blank (omega arith)
        | inr some_state ↦ rw some_state (
            rw (read, facebook_callback)
              (elim (Option-cases denial) [
                | inr (detail, declined) ↦ rw declined (omega arith)
                | inl accepted ↦ rw accepted (elim (Bool-cases (given == "")) [
                  | inl no_code ↦ rw no_code (omega arith)
                  | inr coded ↦ rw coded (
                      rw named (
                        rw (loaded_gate days_of_trial subscription_uid now db) (
                          rw (← keys_same db made.1 kept) (
                            gate_within now claims configured subscribes exchange limit
                              (fresh_gate days_of_trial subscription_uid now db) made.1 named capped
                              refl refl inj (λ id. rw kept (fresh id)) (rw kept u) plain))))
                ])
              ]))
      ]
