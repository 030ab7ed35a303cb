-- ===== src/Server/Late.antt =====
-- What the translator of a turn sends once the turn has returned.
use smooth_agent.Base.{ℕ, String, some, List, [], ◌≡◌, ◌⊎◌, inl, inr, refl, All}
use smooth_agent.Base.Outcome.{Outcome, err, Outcome-cases}
use smooth_agent.Json.{Json}
use smooth_agent.Engine.{KnowledgeResult, Documents, KnowledgeBase}
use smooth_agent.Domain.{inbound}
use smooth_agent.Storage.Tables.{Adapter}
use smooth_agent.Search.Rerank.{Lexicon}
use smooth_agent.Search.Tool.{Display}
use smooth_agent.Turn.History.{load_prior_messages}
use smooth_agent.Server.Agent.{Agent}
use smooth_agent.Server.Streaming.{
  Storage, TurnRequest, TurnResult, TurnChoices, Driven, auto_context_limit, query_or_none,
  persist_message, translate_all, after_return, drive,
}
use smooth_agent.Server.Turn.{conclude_turn, knowledge, search_tool, run_streaming_turn}
use smooth_agent.Server.Answers.{IsStreamed, translate_all-IsStreamed}

module _ (json : Json) (now : ℕ) (lex : Lexicon) {Score : Type 0} (display : Display Score)
    (docs : Documents) (kb : KnowledgeBase docs.Document Score) where
  -- A list of late events: part of the request's stream, and empty unless the turn has failed.
  abbrev pub IsLate : String → Outcome (TurnResult Score) → List json.Value → Type 0
  IsLate rid result late =
      All (IsStreamed json (some rid)) late × ((late ≡ []) ⊎ ((m : String) × (result ≡ err m)))

  conclude_turn-IsLate :
      (req : TurnRequest lex Score) (choices : TurnChoices) (driven : Driven json lex Score)
      (auto : List (KnowledgeResult Score)) (tables : Adapter json.Value)
      → IsLate req.request_id
          (conclude_turn json now lex display req choices auto tables driven).0
          (translate_all json now req.request_id
            (after_return choices.sent_before_failure driven.outcome driven.events))
  unfolding conclude_turn translate_all
  conclude_turn-IsLate req choices driven auto tables = elim (Outcome-cases driven.outcome) [
    | inl (content, e) ↦ rw e (tt, inl refl)
    | inr (m, e) ↦
        rw (conclude_turn, e)
          (
            translate_all-IsStreamed json now req.request_id
                (after_return choices.sent_before_failure (err m) driven.events),
            inr (m, refl),
          )
  ]

  pub run_streaming_turn-IsLate :
      (agent : Agent json Score) (storage : Storage json kb.State) (req : TurnRequest lex Score)
      (choices : TurnChoices)
      → IsLate req.request_id
          (run_streaming_turn json now lex display docs kb agent storage req choices).result
          (run_streaming_turn json now lex display docs kb agent storage req choices).late
  unfolding run_streaming_turn
  run_streaming_turn-IsLate agent storage req choices =
      elim (Outcome-cases (load_prior_messages storage.tables req.conversation_id)) [
        | inr (m, e) ↦ rw (run_streaming_turn, e) (tt, inl refl)
        | inl (prior, e) ↦
            let persisted =
              persist_message json now storage.tables choices.inbound_id req.conversation_id inbound
                req.user_message in
            elim (Outcome-cases persisted.0) [
              | inr (m, p) ↦ rw (run_streaming_turn, e, p) (tt, inl refl)
              | inl (message, p) ↦
                  let context =
                    knowledge json now lex display docs kb storage req req.user_message
                      auto_context_limit in
                  rw (run_streaming_turn, e, p)
                    (conclude_turn-IsLate req choices
                      (drive display (search_tool json now lex display docs kb storage req)
                        (agent prior context req.user_message))
                      (query_or_none context) persisted.1)
            ]
      ]
