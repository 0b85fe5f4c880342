-- ===== src/Tests/AgentTests.antt =====
-- Runs of the agent fleet with an encoding of nodes in letters.
use zmodbit.Prelude.{
  is_filled, ◌∙◌, ◌≡◌, refl, ap, Bool, true, false, Option, none, some, List, [], ◌∷◌, ℕ, zero, suc,
  Text, bytes, ok, text_eq, text_lt, get, insert,
}
use zmodbit.Agents.Nodes.{
  AgentStatus, foreground, background, parked, completed, cancelled, AgentNode, AgentFleet,
  AgentExecutionCapsule, default_capsule, cancel,
}
use zmodbit.Agents.Fleet.{
  NodeCodec, fresh, load, spawn, spawn_child, find_by_idempotency_key, transition, advance_cursor,
  park,
}
use zmodbit.Agents.Journal.{IsFaithful}
use zmodbit.Agents.Calls.{Call, spawns, spawns_child, parks, steers, advances, run_calls}
use zmodbit.Agents.Restart.{SameAgents, load-run_calls}
use zmodbit.Agents.Replays.{spawn-replayed}
use zmodbit.Tests.UnaryCodec.{
  encode_texts, decode_texts, decode_texts-encode_texts, encode_texts-IsLine, encode_texts-cons,
}

abbrev status_number : AgentStatus → ℕ
status_number foreground = 0
status_number background = 1
status_number parked = 2
status_number completed = 3
status_number cancelled = 4

abbrev status_of : ℕ → AgentStatus
status_of zero = foreground
status_of (suc zero) = background
status_of (suc (suc zero)) = parked
status_of (suc (suc (suc zero))) = completed
status_of _ = cancelled

status_back : (s : AgentStatus) → status_of (status_number s) ≡ s
status_back foreground = refl
status_back background = refl
status_back parked = refl
status_back completed = refl
status_back cancelled = refl

abbrev flag : Bool → ℕ
flag false = 0
flag true = 1

abbrev flag_of : ℕ → Bool
flag_of zero = false
flag_of _ = true

flag_back : (b : Bool) → flag_of (flag b) ≡ b
flag_back false = refl
flag_back true = refl

abbrev optional : Option Text → Text
optional none = []
optional (some t) = 0 ∷ t

abbrev optional_of : Text → Option Text
optional_of [] = none
optional_of (c ∷ t) = some t

optional_back : (o : Option Text) → optional_of (optional o) ≡ o
optional_back none = refl
optional_back (some t) = refl

abbrev fields : AgentNode → List Text
fields n =
    n.agent_id
    ∷ optional n.parent
    ∷ n.root
    ∷ n.task
    ∷ (status_number n.status
        ∷ n.tool_cursor
        ∷ n.capsule.max_output_tokens
        ∷ n.capsule.max_tool_calls
        ∷ flag n.capsule.can_request_expansion
        ∷ [])
    ∷ encode_texts n.context_refs
    ∷ encode_texts n.capsule.allowed_tools
    ∷ encode_texts n.capsule.context_refs
    ∷ n.capsule.model_policy
    ∷ optional n.idempotency_key
    ∷ n.task_id
    ∷ encode_texts n.write_scope
    ∷ []

abbrev node_of : List Text → Option AgentNode
node_of (i ∷ p ∷ r ∷ t ∷ (s ∷ c ∷ o ∷ m ∷ e ∷ []) ∷ x ∷ a ∷ y ∷ q ∷ k ∷ d ∷ w ∷ []) = some (record {
  agent_id = i;
  parent = optional_of p;
  root = r;
  task = t;
  status = status_of s;
  tool_cursor = c;
  context_refs = decode_texts x;
  capsule = record {
    allowed_tools = decode_texts a;
    context_refs = decode_texts y;
    model_policy = q;
    max_output_tokens = o;
    max_tool_calls = m;
    can_request_expansion = flag_of e;
  };
  idempotency_key = optional_of k;
  task_id = d;
  write_scope = decode_texts w;
})
node_of _ = none

node_of-fields : (n : AgentNode) → node_of (fields n) ≡ some n
node_of-fields n =
    rw
      (
        optional_back n.parent,
        status_back n.status,
        decode_texts-encode_texts n.context_refs,
        decode_texts-encode_texts n.capsule.allowed_tools,
        decode_texts-encode_texts n.capsule.context_refs,
        flag_back n.capsule.can_request_expansion,
        optional_back n.idempotency_key,
        decode_texts-encode_texts n.write_scope,
      )
      refl

abbrev letters : NodeCodec
letters = record { encode = λ n. encode_texts (fields n); decode = λ t. node_of (decode_texts t) }

letters-IsFaithful : IsFaithful letters
letters-IsFaithful n = (
  ap node_of (decode_texts-encode_texts (fields n)) ∙ node_of-fields n,
  encode_texts-IsLine (fields n),
  (let (c, u, e) = encode_texts-cons (fields n) in ap is_filled e),
)

abbrev story : List Call
story =
    spawns none (bytes "a") (bytes "t") default_capsule (some (bytes "k"))
    ∷ spawns_child (some (bytes "a")) (bytes "b") (bytes "o") (bytes "u") [] none
    ∷ advances (bytes "b") 7
    ∷ parks (bytes "a")
    ∷ []

load-run_calls_example :
    (file : Option Text) × (g : AgentFleet) × ((run_calls letters story (fresh (some none))).journal
      ≡ some file)
    × (load letters file ≡ some g)
    × SameAgents g (run_calls letters story (fresh (some none)))
load-run_calls_example = load-run_calls letters letters-IsFaithful story

abbrev root_agent : AgentNode
root_agent = record {
  agent_id = bytes "a";
  parent = none;
  root = bytes "a";
  task = bytes "t";
  status = parked;
  tool_cursor = 0;
  context_refs = [];
  capsule = default_capsule;
  idempotency_key = some (bytes "k");
  task_id = [];
  write_scope = [];
}

named_by_k :
    find_by_idempotency_key (bytes "k") (run_calls letters story (fresh (some none)))
    ≡ some root_agent
unfolding text_eq text_lt get insert find_by_idempotency_key spawn spawn_child advance_cursor park
    transition
named_by_k = refl

abbrev ended_parent : AgentFleet
ended_parent = record {
  nodes =
      (bytes "a", record root_agent { status = cancelled })
      ∷ (bytes "b", record root_agent { agent_id = bytes "b"; parent = some (bytes "a") })
      ∷ [];
  idempotency = [];
  journal = some none;
}

abbrev poor_child : AgentNode
poor_child = record root_agent { agent_id = bytes "b"; parent = some (bytes "a") }

spawn-replayed_example :
    (m : AgentNode) × (m.agent_id ≡ bytes "a")
    × ((disk : Bool) (p : Option Text) (i t : Text) (c : AgentExecutionCapsule)
        → let f =
            run_calls letters
              (steers (bytes "a") (cancel []) ∷ [])
              (run_calls letters story (fresh (some none))) in
          spawn letters disk p i t c (some (bytes "k")) f ≡ (ok m, f))
    × ((disk : Bool) (p : Option Text) (i o t : Text) (w : List Text)
        → let f =
            run_calls letters
              (steers (bytes "a") (cancel []) ∷ [])
              (run_calls letters story (fresh (some none))) in
          spawn_child letters disk p i o t w (some (bytes "k")) f ≡ (ok m, f))
spawn-replayed_example =
    spawn-replayed letters story (steers (bytes "a") (cancel []) ∷ []) (bytes "k") root_agent
      named_by_k
