-- ===== src/Turn/Tests.antt =====
-- Citations and histories of small stores.
use smooth_agent.Base.{
  ℕ, zero, suc, ◌≤◌, String, false, none, some, List, [], ◌∷◌, ◌++◌, ◌≡◌, refl, arith, string_eq,
  length, map, contains, Distinct,
}
use smooth_agent.Base.Words.{decimal, digit}
use smooth_agent.Base.Dict.{get, insert}
use smooth_agent.Base.Sets.{set_insert}
use smooth_agent.Base.Outcome.{ok, new_lock}
use smooth_agent.Engine.Toy.{entry}
use smooth_agent.Domain.{Message, inbound, from_text}
use smooth_agent.Storage.Tables.{Adapter, empty, append_message}
use smooth_agent.Turn.Citations.{
  collect_citations, collect_citations-Distinct, max_citations, web_url,
}
use smooth_agent.Turn.History.{load_prior_messages, recent_messages}
use smooth_agent.Turn.Replay.{load_prior_messages-append, recent_messages-append}

cited :
    map (λ c. c.id) (collect_citations (entry "a" 1 ∷ entry "b" 2 ∷ []) (entry "a" 3 ∷ []))
    ≡ "a" ∷ "b" ∷ []
unfolding collect_citations set_insert
cited = refl

links : (web_url "https://x.io" ≡ some "https://x.io") × (web_url "policies/x.md" ≡ none)
unfolding web_url
links = (refl, refl)

collect_citations-Distinct_example :
    Distinct (map (λ c. c.id) (collect_citations (entry "a" 1 ∷ []) (entry "a" 3 ∷ [])))
    × (length (collect_citations (entry "a" 1 ∷ []) (entry "a" 3 ∷ [])) ≤ max_citations)
collect_citations-Distinct_example =
    collect_citations-Distinct (entry "a" 1 ∷ []) (entry "a" 3 ∷ [])

-- The ids of a conversation of `n` messages.
abbrev numbers_below : ℕ → List String
numbers_below zero = []
numbers_below (suc n) = decimal n ∷ numbers_below n

abbrev long_chat : Adapter String
long_chat = new_lock (record empty { message_order = ("c1", numbers_below 50) ∷ [] })

abbrev latest_message : Message String
latest_message = record {
  id = "new";
  external_id = none;
  organization_id = none;
  conversation_id = some "c1";
  direction = inbound;
  content = from_text "hello";
  from = none;
  to = none;
  metadata_json = none;
  analytics_json = none;
  created_at = 1;
  updated_at = none;
}

program : Unit {0}
unfolding decimal digit get insert append_message recent_messages
program = tt

is_new : contains (numbers_below 50) "new" ≡ false
unfolding program
is_new = refl

load_prior_messages-append_example :
    load_prior_messages (append_message long_chat latest_message).1 "c1"
    ≡ load_prior_messages long_chat "c1"
unfolding get
load_prior_messages-append_example =
    load_prior_messages-append long_chat latest_message "c1" refl refl (omega arith) is_new

recent_messages-append_example :
    (earlier : List (Message String)) × (recent_messages
        (append_message long_chat latest_message).1
        "c1"
        (some 3)
      ≡ ok (earlier ++ latest_message ∷ []))
recent_messages-append_example =
    recent_messages-append long_chat latest_message "c1" (some 3) refl refl
