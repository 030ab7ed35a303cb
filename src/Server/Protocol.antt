-- ===== src/Server/Protocol.antt =====
-- The events of rust/smooth-operator-server/src/protocol.rs and the reply payload of runner.rs. The
-- clock comes as an argument of every event that carries a timestamp.
use smooth_agent.Base.{
  ℕ, String, Bool, Option, none, some, List, [], ◌∷◌, string_eq, null, if◌then◌else◌,
}
use smooth_agent.Base.Int.{pos}
use smooth_agent.Json.{Json}
use smooth_agent.Turn.Citations.{Citation}

module _ (json : Json) (now : ℕ) where
  open json use {Value, string, number, object, array, boolean, literal, set_field}

  -- `set_request_id`
  abbrev pub set_request_id : Value → Option String → Value
  set_request_id ev none = ev
  set_request_id ev (some rid) = set_field ev "requestId" (string rid)

  unfoldable pub pong : Option String → Value
  pong request_id =
      set_request_id
        (object (
          ("type", string "pong")
          ∷ ("timestamp", number (pos now))
          ∷ ("data", object (("timestamp", number (pos now)) ∷ []))
          ∷ []))
        request_id

  unfoldable pub immediate_response : Option String → ℕ → String → Value → Value
  immediate_response request_id status message payload =
      set_request_id
        (object (
          ("type", string "immediate_response")
          ∷ ("status", number (pos status))
          ∷ ("message", string message)
          ∷ ("data", payload)
          ∷ ("timestamp", number (pos now))
          ∷ []))
        request_id

  unfoldable pub stream_token : String → String → Value
  stream_token request_id token = object (
      ("type", string "stream_token")
      ∷ ("requestId", string request_id)
      ∷ ("token", string token)
      ∷ ("data", object (("requestId", string request_id) ∷ ("token", string token) ∷ []))
      ∷ ("timestamp", number (pos now))
      ∷ [])

  unfoldable pub stream_chunk : String → String → Value → Value
  stream_chunk request_id node state = object (
      ("type", string "stream_chunk")
      ∷ ("requestId", string request_id)
      ∷ ("node", string node)
      ∷ (
        "data",
        object (("requestId", string request_id) ∷ ("node", string node) ∷ ("state", state) ∷ []),
      )
      ∷ ("timestamp", number (pos now))
      ∷ [])

  -- The inner payload; `to_value` writes the citations.
  unfoldable pub response_data :
      {Score : Type 0}
      → (List (Citation Score) → Value)
      → String
      → Value
      → Bool
      → List (Citation Score)
      → Value
  response_data to_value message_id response needs_escalation citations =
      let inner = object (
        ("messageId", string message_id)
        ∷ ("response", response)
        ∷ ("needsEscalation", boolean needs_escalation)
        ∷ []) in
      if null citations then inner else set_field inner "citations" (to_value citations)

  unfoldable pub eventual_response :
      {Score : Type 0}
      → (List (Citation Score) → Value)
      → String
      → ℕ
      → String
      → Value
      → Bool
      → List (Citation Score)
      → Value
  unfolding response_data
  eventual_response to_value request_id status message_id response needs_escalation citations =
      object (
        ("type", string "eventual_response")
        ∷ ("requestId", string request_id)
        ∷ ("status", number (pos status))
        ∷ (
          "data",
          object (
              ("requestId", string request_id)
              ∷ ("status", number (pos status))
              ∷ ("data", response_data to_value message_id response needs_escalation citations)
              ∷ []),
        )
        ∷ ("timestamp", number (pos now))
        ∷ [])

  unfoldable pub error : Option String → String → String → Value
  error request_id code message =
      let err = object (("code", string code) ∷ ("message", string message) ∷ []) in
      set_request_id
        (object (
          ("type", string "error")
          ∷ ("error", err)
          ∷ ("data", set_request_id (object (("error", err) ∷ [])) request_id)
          ∷ ("timestamp", number (pos now))
          ∷ []))
        request_id

  unfoldable pub general_agent_response : String → Value
  general_agent_response reply = object (
      ("responseParts", array (string reply ∷ []))
      ∷ ("customerHappinessScore", literal "0.5")
      ∷ ("needsSatisfactionScore", literal "0.5")
      ∷ ("requestSummary", string "")
      ∷ ("resolutionStatus", string "in_progress")
      ∷ ("suggestedNextActions", array [])
      ∷ [])
