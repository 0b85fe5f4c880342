-- ===== src/Agents/Replays.antt =====
-- crates/core-runtime/src/agent_fleet.rs: spawns that are repeated, a spawn whose line is not written, and a cancelled
-- agent whose child asks for a protected effect.
use zmodbit.Prelude.{
  ◌≡◌, refl, sym, ap, ◌∙◌, inl, inr, true, false, Bool, Option, none, some, List, [], ◌∷◌, Text,
  get, insert, get-insert, text_eq_refl, ok, err,
}
use zmodbit.Agents.Nodes.{
  AgentNode, AgentFleet, AgentExecutionCapsule, SteerCommand, panicked, persistence, background,
  cancelled, privilege_expansion_refused,
}
use zmodbit.Agents.Fleet.{
  NodeCodec, fresh, root_of, spawn, spawn_child, node_at, find_by_idempotency_key, steer,
  transition, set_background, ask_parent, request_of, request_protected_effect,
}
use zmodbit.Agents.Calls.{Call, run_call, run_calls, Moves, run_call-Moves}
use zmodbit.Agents.Keys.{keyed_new}
use zmodbit.Agents.Restart.{IsDurable, run_calls-IsDurable, fresh-IsDurable, move-IsDurable}

module _ (json : NodeCodec) (key id : Text) where
  move-keeps :
      (file : Option Text) (f g : AgentFleet)
      → get key f.idempotency ≡ some id
      → Moves json file f g
      → get key g.idempotency ≡ some id
  move-keeps file f g h (inl e) = ap (λ x. get key x.idempotency) e ∙ h
  move-keeps file f g h (inr (inl (n, new, e))) =
      ap (λ x. get key x.idempotency) e ∙ keyed_new n.idempotency_key n.agent_id key id f new h
  move-keeps file f g h (inr (inr (i, n, m, present, same_id, same_key, e))) =
      ap (λ x. get key x.idempotency) e ∙ h

  run_calls-keeps :
      (cs : List Call) (f : AgentFleet)
      → IsDurable json f
      → get key f.idempotency ≡ some id
      → get key (run_calls json cs f).idempotency ≡ some id
  run_calls-keeps [] f d h = h
  run_calls-keeps (c ∷ cs) f d h =
      let moved = run_call-Moves json d.file f d.journaled c in
      run_calls-keeps cs (run_call json c f) (move-IsDurable json f d (run_call json c f) moved)
        (move-keeps d.file f (run_call json c f) h moved)

node_at-some :
    (o : Option Text) (f : AgentFleet) (n : AgentNode)
    → node_at o f ≡ some n
    → (id : Text) × (o ≡ some id) × (get id f.nodes ≡ some n)
node_at-some none f n h = cc
node_at-some (some id) f n h = (id, refl, h)

found :
    (key : Text) (f : AgentFleet) (n : AgentNode)
    → find_by_idempotency_key key f ≡ some n
    → (id : Text) × (get key f.idempotency ≡ some id) × (get id f.nodes ≡ some n)
unfolding find_by_idempotency_key
found key f n h = node_at-some (get key f.idempotency) f n h

-- Once a key names an agent, in a fleet made by calls that write their lines, then after any more such calls a spawn
-- or spawn of a child with this key, whatever else it asks for, gives the agent of the same id and changes nothing.
pub spawn-replayed :
    (json : NodeCodec) (before after : List Call) (key : Text) (n : AgentNode)
    → find_by_idempotency_key key (run_calls json before (fresh (some none))) ≡ some n
    → (m : AgentNode) × (m.agent_id ≡ n.agent_id)
      × ((disk : Bool) (p : Option Text) (i t : Text) (c : AgentExecutionCapsule)
          → let f = run_calls json after (run_calls json before (fresh (some none))) in
            spawn json disk p i t c (some key) f ≡ (ok m, f))
      × ((disk : Bool) (p : Option Text) (i o t : Text) (w : List Text)
          → let f = run_calls json after (run_calls json before (fresh (some none))) in
            spawn_child json disk p i o t w (some key) f ≡ (ok m, f))
unfolding spawn spawn_child
spawn-replayed json before after key n h =
    let start = run_calls json before (fresh (some none)) in
    let d = run_calls-IsDurable json before (fresh (some none)) (fresh-IsDurable json) in
    let f = run_calls json after start in
    let d' = run_calls-IsDurable json after start d in
    let (id, leads, first) = found key start n h in
    let kept = run_calls-keeps json key id after start d leads in
    let (m, present) = d'.keys.known key id kept in
    (
      m,
      d'.keys.named id m present ∙ sym (d.keys.named id n first),
      λ disk p i t c. rw (kept, present) refl,
      λ disk p i o t w. rw (kept, present) refl,
    )

-- When the disk does not take the line of a spawn with a new key and a new agent id, the spawn fails and the key stays
-- entered: every later spawn with this key panics.
pub spawn-poisons :
    (json : NodeCodec) (p : Option Text) (i t key root : Text) (c : AgentExecutionCapsule)
    (f : AgentFleet) (file : Option Text)
    → f.journal ≡ some file
    → get key f.idempotency ≡ none
    → get i f.nodes ≡ none
    → root_of p i f ≡ ok root
    → let g = (spawn json false p i t c (some key) f).1 in
      ((spawn json false p i t c (some key) f).0 ≡ err persistence)
      × ((disk : Bool) (q : Option Text) (j u : Text) (b : AgentExecutionCapsule)
          → spawn json disk q j u b (some key) g ≡ (err panicked, g))
unfolding spawn
spawn-poisons json p i t key root c f file journaled new absent rooted =
    let entered : get key (insert key i f.idempotency) ≡ some i =
      rw (get-insert key key i f.idempotency, text_eq_refl key) refl in
    rw (new, rooted, journaled) (refl, λ disk q j u b. rw (entered, absent) refl)

-- When a child that may not ask for expansions asks for a protected effect, and its parent was cancelled, the child is
-- refused and the cancelled parent goes to the background, where it can be steered again.
pub request-revives :
    (json : NodeCodec) (child parent effect : Text) (n q : AgentNode) (f : AgentFleet)
    (file : Option Text)
    → f.journal ≡ some file
    → get child f.nodes ≡ some n
    → n.capsule.can_request_expansion ≡ false
    → n.parent ≡ some parent
    → get parent f.nodes ≡ some q
    → q.status ≡ cancelled
    → let (r, g) = request_protected_effect json true child effect f in
      (r ≡ err (privilege_expansion_refused child effect))
      × (get parent g.nodes ≡ some (record q { status = background }))
      × ((command : SteerCommand) → (steer json true parent command g).0 ≡ ok q.tool_cursor)
unfolding request_protected_effect request_of ask_parent set_background transition steer
request-revives json child parent effect n q f file journaled there ceiling under stands was =
    let now : get parent (insert parent (record q { status = background }) f.nodes)
        ≡ some (record q { status = background }) =
      rw (get-insert parent parent (record q { status = background }) f.nodes, text_eq_refl parent)
        refl in
    rw (there, ceiling, under, stands, journaled) (refl, now, λ command. rw (now) refl)
