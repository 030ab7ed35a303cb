-- ===== src/Server/Agent.antt =====
-- The agent of the engine crate, which is not in the repository, as the turn meets it: a finite tree
-- of the events that it emits, the knowledge searches that it asks for, and its outcome.
use smooth_agent.Base.{String, Bool, Option, List}
use smooth_agent.Base.Outcome.{Outcome}
use smooth_agent.Json.{Json}
use smooth_agent.Engine.{KnowledgeResult}
use smooth_agent.Turn.History.{EngineMessage}

module _ (json : Json) where
  open json use {Value}

  pub data AgentEvent : Type 0 where
    token_delta : String → AgentEvent
    tool_call_start : String → Value → AgentEvent
    tool_call_complete : String → String → Bool → AgentEvent
    phase_start : String → AgentEvent
    -- Started, completed and accounting events.
    structural : AgentEvent

  -- A search gets the tool's result, on which the rest may depend. At the end stands an error, or
  -- the content of the last message of the assistant, if there is one.
  pub data AgentRun : Type 0 where
    emit : AgentEvent → AgentRun → AgentRun
    search : Value → (Outcome String → AgentRun) → AgentRun
    finish : Outcome (Option String) → AgentRun

  -- An agent: from the replayed messages, the automatic context and the user's message. What the
  -- model answers is part of the agent.
  abbrev pub Agent : (Score : Type 0) → Type 0
  Agent Score = List EngineMessage → Outcome (List (KnowledgeResult Score)) → String → AgentRun
