-- ===== src/Agents/Calls.antt =====
-- crates/core-runtime/src/agent_fleet.rs: what a call does to a fleet with a journal whose disk takes every line.
use zmodbit.Prelude.{
  ◌≡◌, refl, ap, ◌∙◌, ◌⊎◌, inl, inr, true, Bool-cases, Option-cases, Option, none, some, ℕ, List,
  [], ◌∷◌, ◌++◌, Text, newline, get, insert, Result, ok, err,
}
use zmodbit.Agents.Nodes.{
  AgentStatus, background, foreground, parked, AgentExecutionCapsule, SteerCommand, AgentNode,
  FleetError, AgentFleet,
}
use zmodbit.Agents.Fleet.{
  NodeCodec, load_node, contents, known_agent, enter_under, attach, root_of, change, is_parked,
  has_ended, steered, resume_node, request_of, steer_node, ask_parent, refuse_after, spawn,
  spawn_child, transition, set_background, set_foreground, park, resume, advance_cursor, steer,
  request_protected_effect,
}

pub data Call : Type 0 where
  spawns :
      (parent : Option Text) (agent_id task : Text) (capsule : AgentExecutionCapsule)
      (key : Option Text)
      → Call
  spawns_child :
      (parent : Option Text) (agent_id task_id task : Text) (write_scope : List Text)
      (key : Option Text)
      → Call
  to_background to_foreground parks resumes : (agent_id : Text) → Call
  advances : (agent_id : Text) (to : ℕ) → Call
  steers : (agent_id : Text) (command : SteerCommand) → Call
  requests : (agent_id effect : Text) → Call

module _ (json : NodeCodec) where
  abbrev pub run_call : Call → AgentFleet → AgentFleet
  run_call (spawns p i t c k) f = (spawn json true p i t c k f).1
  run_call (spawns_child p i o t w k) f = (spawn_child json true p i o t w k f).1
  run_call (to_background i) f = (set_background json true i f).1
  run_call (to_foreground i) f = (set_foreground json true i f).1
  run_call (parks i) f = (park json true i f).1
  run_call (resumes i) f = (resume json true i f).1
  run_call (advances i to) f = (advance_cursor json true i to f).1
  run_call (steers i c) f = (steer json true i c f).1
  run_call (requests i e) f = (request_protected_effect json true i e f).1

  abbrev pub run_calls : List Call → AgentFleet → AgentFleet
  run_calls [] f = f
  run_calls (c ∷ cs) f = run_calls cs (run_call c f)

  abbrev pub with_line : Option Text → AgentNode → AgentFleet → AgentFleet
  with_line file n f = record f {
    journal = some (some (contents file ++ (json.encode n ++ newline ∷ [])));
  }

  -- A node that is new, with a key that was not known if it has one.
  abbrev pub Enters : Option Text → AgentFleet → AgentFleet → Type 0
  Enters file f g =
      (n : AgentNode) × (known_agent n.idempotency_key f ≡ none)
      × (g ≡ with_line file n (load_node n f))

  -- A node that is known, changed in other fields than its id and its key.
  abbrev pub Changes : Option Text → AgentFleet → AgentFleet → Type 0
  Changes file f g =
      (id : Text) × (n : AgentNode) × (m : AgentNode) × (get id f.nodes ≡ some n)
      × (m.agent_id ≡ n.agent_id)
      × (m.idempotency_key ≡ n.idempotency_key)
      × (g ≡ with_line file m (record f { nodes = insert id m f.nodes }))

  abbrev pub Moves : Option Text → AgentFleet → AgentFleet → Type 0
  Moves file f g = (g ≡ f) ⊎ Enters file f g ⊎ Changes file f g

  module _ (file : Option Text) (f : AgentFleet) (journaled : f.journal ≡ some file) where
    attach-Moves :
        (key : Option Text) (root : Result FleetError Text) (node : Text → AgentNode)
        → ((r : Text) → (node r).idempotency_key ≡ key)
        → Moves file f (attach json true (known_agent key f) root node f).1
    attach-Moves key root node same = elim (Option-cases (known_agent key f)) [
      | inr (id, known) ↦ rw (known) (inl refl)
      | inl new ↦ rw (new) (elim root as (λ r. Moves file f (enter_under json true r node f).1) [
        | err e ↦ inl refl
        | ok r ↦ inr (inl (node r, ap (λ k. known_agent k f) (same r) ∙ new, rw (journaled) refl))
      ])
    ]

    change-Moves :
        {A : Type 0} (o : Option AgentNode) (id : Text) (h : AgentNode → AgentNode) (a : A)
        → get id f.nodes ≡ o
        → ((n : AgentNode)
            → ((h n).agent_id ≡ n.agent_id) × ((h n).idempotency_key ≡ n.idempotency_key))
        → Moves file f (change json true o id h a f).1
    change-Moves none id h a e same = inl refl
    change-Moves (some n) id h a e same =
        inr (inr (id, n, h n, e, (same n).0, (same n).1, rw (journaled) refl))

    steered-Moves :
        (o : Option AgentNode) (id : Text) (c : SteerCommand)
        → get id f.nodes ≡ o
        → Moves file f (steer_node json true o id c f).1
    steered-Moves none id c e = inl refl
    steered-Moves (some n) id c e = elim (Bool-cases (has_ended n.status)) [
      | inl q ↦ rw (q) (inl refl)
      | inr q ↦ rw (q) (
          change-Moves (some n) id (λ m. record m { status = steered c m.status }) n.tool_cursor e
            (λ n. (refl, refl)))
    ]

    transition-Moves :
        (id : Text) (to : AgentStatus) → Moves file f (transition json true id to f).1
    unfolding transition
    transition-Moves id to =
        change-Moves (get id f.nodes) id (λ n. record n { status = to }) tt refl (λ n. (refl, refl))

    refuse_after-same :
        (id effect : Text) (r : Result FleetError (Unit {0}) × AgentFleet)
        → (refuse_after id effect r).1 ≡ r.1
    refuse_after-same id effect (ok u, g) = refl
    refuse_after-same id effect (err e, g) = refl

    asked :
        (parent : Option Text) (id effect : Text)
        → Moves file f (ask_parent json true parent id effect f).1
    unfolding ask_parent set_background
    asked none id effect = inl refl
    asked (some p) id effect =
        rw (refuse_after-same id effect (transition json true p background f))
          (transition-Moves p background)

    -- Every call leaves the fleet as it is, enters a node, or changes one.
    pub run_call-Moves : (c : Call) → Moves file f (run_call c f)
    unfolding spawn spawn_child set_background set_foreground park resume advance_cursor steer
        request_protected_effect resume_node request_of
    run_call-Moves (spawns p i t c k) = attach-Moves k (root_of p i f) _ (λ r. refl)
    run_call-Moves (spawns_child p i o t w k) = attach-Moves k (root_of p i f) _ (λ r. refl)
    run_call-Moves (to_background i) = transition-Moves i background
    run_call-Moves (to_foreground i) = transition-Moves i foreground
    run_call-Moves (parks i) = transition-Moves i parked
    run_call-Moves (resumes i) =
        elim (get i f.nodes) as (λ o. Moves file f (resume_node json true o i f).1) [
          | none ↦ inl refl
          | some n ↦ elim (Bool-cases (is_parked n.status)) [
            | inl q ↦ rw (q) (transition-Moves i foreground)
            | inr q ↦ rw (q) (inl refl)
          ]
        ]
    run_call-Moves (advances i to) =
        change-Moves (get i f.nodes) i (λ n. record n { tool_cursor = to }) tt refl
          (λ n. (refl, refl))
    run_call-Moves (steers i c) = steered-Moves (get i f.nodes) i c refl
    run_call-Moves (requests i e) =
        elim (get i f.nodes) as (λ o. Moves file f (request_of json true o i e f).1) [
          | none ↦ inl refl
          | some n ↦ elim (Bool-cases n.capsule.can_request_expansion) [
            | inl q ↦ rw (q) (inl refl)
            | inr q ↦ rw (q) (asked n.parent i e)
          ]
        ]
