-- ===== src/Server/Answers.antt =====
-- Every frame is answered.
use smooth_agent.Base.{
  ℕ, String, Bool, Option, none, some, List, [], ◌∷◌, ◌≡◌, ◌⊎◌, All, All-append, Bool-cases, inl,
  inr, refl, ap, ◌∙◌, string_eq,
}
use smooth_agent.Base.Dict.{Dict, get, get-insert}
use smooth_agent.Json.{Json}
use smooth_agent.Turn.Citations.{Citation}
use smooth_agent.Server.Protocol.{
  set_request_id, pong, error, immediate_response, eventual_response, stream_token, stream_chunk,
}
use smooth_agent.Base.Text.{is_empty}
use smooth_agent.Server.Agent.{
  AgentEvent, token_delta, tool_call_start, tool_call_complete, phase_start, structural,
}
use smooth_agent.Server.Streaming.{translate, translate_all}

module _ (json : Json) where
  open json use {Value, string, field, object, set_field, field-object, set_field-object}

  -- The kinds of event after which nothing more comes for a request.
  abbrev pub IsFinal : String → Type 0
  IsFinal kind =
      (kind ≡ "pong")
      ⊎ (kind ≡ "error")
      ⊎ (kind ≡ "immediate_response")
      ⊎ (kind ≡ "eventual_response")

  abbrev pub id_value : Option String → Option Value
  id_value none = none
  id_value (some rid) = some (string rid)

  -- The event is a final one for the request.
  pub record Answers (request_id : Option String) (event : Value) : Type 0 where
    pub kind : String
    pub final : IsFinal kind
    pub has_type : field event "type" ≡ some (string kind)
    pub has_request : field event "requestId" ≡ id_value request_id

  set_request_id-type :
      (fields : Dict String Value) (kind : String) (request_id : Option String)
      → get fields "type" ≡ some (string kind)
      → field (set_request_id json 0 (object fields) request_id) "type" ≡ some (string kind)
  set_request_id-type fields kind none t = field-object fields "type" ∙ t
  set_request_id-type fields kind (some rid) t =
      ap (λ v. field v "type") (set_field-object fields "requestId" (string rid))
      ∙ field-object _ "type"
      ∙ get-insert fields "requestId" "type" (string rid)
      ∙ t

  -- Stamping the request's id adds it to the event and keeps the event's type.
  set_request_id-Answers :
      (fields : Dict String Value) (kind : String) (request_id : Option String)
      → IsFinal kind
      → get fields "type" ≡ some (string kind)
      → get fields "requestId" ≡ none
      → Answers request_id (set_request_id json 0 (object fields) request_id)
  set_request_id-Answers fields kind none f t r = record {
    kind = kind;
    final = f;
    has_type = set_request_id-type fields kind none t;
    has_request = field-object fields "requestId" ∙ r;
  }
  set_request_id-Answers fields kind (some rid) f t r = record {
    kind = kind;
    final = f;
    has_type = set_request_id-type fields kind (some rid) t;
    has_request =
        ap (λ v. field v "requestId") (set_field-object fields "requestId" (string rid))
        ∙ field-object _ "requestId"
        ∙ get-insert fields "requestId" "requestId" (string rid);
  }

  pub pong-Answers : (now : ℕ) (rid : Option String) → Answers rid (pong json now rid)
  unfolding pong get
  pong-Answers now rid = set_request_id-Answers _ "pong" rid (inl refl) refl refl

  pub error-Answers :
      (now : ℕ) (rid : Option String) (code message : String)
      → Answers rid (error json now rid code message)
  unfolding error get
  error-Answers now rid code message =
      set_request_id-Answers _ "error" rid (inr (inl refl)) refl refl

  -- The event is an error.
  abbrev pub IsError : Value → Type 0
  IsError event = field event "type" ≡ some (string "error")

  pub error-IsError :
      (now : ℕ) (rid : Option String) (code message : String)
      → IsError (error json now rid code message)
  unfolding error get
  error-IsError now rid code message = set_request_id-type _ "error" rid refl

  pub immediate_response-Answers :
      (now : ℕ) (rid : Option String) (status : ℕ) (message : String) (payload : Value)
      → Answers rid (immediate_response json now rid status message payload)
  unfolding immediate_response get
  immediate_response-Answers now rid status message payload =
      set_request_id-Answers _ "immediate_response" rid (inr (inr (inl refl))) refl refl

  pub eventual_response-Answers :
      {Score : Type 0} (now : ℕ) (to_value : List (Citation Score) → Value) (rid : String)
      (status : ℕ) (message_id : String) (response : Value) (escalate : Bool)
      (citations : List (Citation Score))
      → Answers
          (some rid)
          (eventual_response json now to_value rid status message_id response escalate citations)
  unfolding eventual_response get
  eventual_response-Answers now to_value rid status message_id response escalate citations =
      record {
        kind = "eventual_response";
        final = inr (inr (inr refl));
        has_type = field-object _ "type";
        has_request = field-object _ "requestId";
      }

  -- The event is part of the stream of the request.
  pub record IsStreamed (request_id : Option String) (event : Value) : Type 0 where
    pub kind : String
    pub streams : (kind ≡ "stream_token") ⊎ (kind ≡ "stream_chunk")
    pub has_type : field event "type" ≡ some (string kind)
    pub has_request : field event "requestId" ≡ id_value request_id

  stream_token-IsStreamed :
      (now : ℕ) (rid token : String) → IsStreamed (some rid) (stream_token json now rid token)
  unfolding stream_token get
  stream_token-IsStreamed now rid token = record {
    kind = "stream_token";
    streams = inl refl;
    has_type = field-object _ "type";
    has_request = field-object _ "requestId";
  }

  stream_chunk-IsStreamed :
      (now : ℕ) (rid node : String) (state : Value)
      → IsStreamed (some rid) (stream_chunk json now rid node state)
  unfolding stream_chunk get
  stream_chunk-IsStreamed now rid node state = record {
    kind = "stream_chunk";
    streams = inr refl;
    has_type = field-object _ "type";
    has_request = field-object _ "requestId";
  }

  translate-IsStreamed :
      (now : ℕ) (rid : String) (e : AgentEvent json)
      → All (IsStreamed (some rid)) (translate json now rid e)
  unfolding translate
  translate-IsStreamed now rid (token_delta content) = elim (Bool-cases (is_empty content)) [
    | inl e ↦ rw (translate, e) tt
    | inr e ↦ rw (translate, e) (stream_token-IsStreamed now rid content, tt)
  ]
  translate-IsStreamed now rid (tool_call_start name arguments) =
      (stream_chunk-IsStreamed now rid name _, tt)
  translate-IsStreamed now rid (tool_call_complete name result is_error) =
      (stream_chunk-IsStreamed now rid name _, tt)
  translate-IsStreamed now rid (phase_start phase) = (stream_chunk-IsStreamed now rid phase _, tt)
  translate-IsStreamed now rid structural = tt

  pub translate_all-IsStreamed :
      (now : ℕ) (rid : String) (es : List (AgentEvent json))
      → All (IsStreamed (some rid)) (translate_all json now rid es)
  unfolding translate_all
  translate_all-IsStreamed now rid [] = tt
  translate_all-IsStreamed now rid (e ∷ es) =
      All-append (IsStreamed (some rid)) (translate json now rid e) (translate_all json now rid es)
        (translate-IsStreamed now rid e) (translate_all-IsStreamed now rid es)
