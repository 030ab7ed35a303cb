-- ===== src/Server/SessionLaws.antt =====
-- What the creation of a session leaves behind.
use smooth_agent.Base.{
  ℕ, String, false, Option, some, ◌≡◌, refl, string_eq, ◌==◌, Option-cases, inl, inr, find,
}
use smooth_agent.Base.Dict.{get-insert, get-insert_self}
use smooth_agent.Base.Outcome.{ok}
use smooth_agent.Json.{Json, str_field}
use smooth_agent.Storage.Tables.{
  Adapter, create_conversation, add_participant, create_session, create_body, healthy_ind, same_key,
  values,
}
use smooth_agent.Server.Protocol.{immediate_response}
use smooth_agent.Server.State.{AppState, insert_session, get_session}
use smooth_agent.Server.Sessions.{
  CreateTask, run_create_task, store_rows, handle_get_session, snapshot,
}

module _ (json : Json) (now : ℕ) where
  store_rows-ok :
      (s : Adapter json.Value) (task : CreateTask json)
      → s.poisoned ≡ false
      → (store_rows json now s task).0 ≡ ok tt
  unfolding store_rows create_conversation create_body add_participant create_session
  store_rows-ok s task healthy =
      healthy_ind (λ s. (store_rows json now s task).0 ≡ ok tt)
        (λ t. elim (Option-cases (find (same_key task.conversation) (values t.conversations))) [
          | inl e ↦ rw (store_rows, create_conversation, create_body, e) refl
          | inr (c, e) ↦ rw (store_rows, create_conversation, create_body, e) refl
        ])
        s healthy

module _ (json : Json) (now : ℕ) {State : Type 0} where
  -- Once its task has run with healthy locks, a session is what `get_session` finds under its id, and
  -- every other session is as it was; the frame's answer is the session's snapshot, with status 200.
  pub get_session-run_create_task :
      (state : AppState json State) (task : CreateTask json) (parsed : json.Value)
      (rid : Option String)
      → state.storage.tables.poisoned ≡ false
      → state.sessions.poisoned ≡ false
      → str_field json parsed "sessionId" ≡ some task.created.session_id
      → (handle_get_session json now ((run_create_task json now state task).0) parsed rid
          ≡ immediate_response json now rid 200 "Session" (snapshot json now task.created))
        × ((run_create_task json now state task).1
            ≡ immediate_response json now task.request_id 200 "Session created" task.answer)
        × ((id : String)
            → (task.created.session_id == id) ≡ false
            → get_session ((run_create_task json now state task).0) id ≡ get_session state id)
  unfolding run_create_task handle_get_session insert_session get_session
  get_session-run_create_task state task parsed rid tables sessions asked =
      let stored = store_rows-ok json now state.storage.tables task tables in
      (
        rw
            (
              handle_get_session,
              asked,
              get_session,
              run_create_task,
              stored,
              insert_session,
              sessions,
              get-insert_self state.sessions.content task.created.session_id task.created,
            )
            refl,
        rw (run_create_task, stored) refl,
        λ id other.
            rw
              (
                get_session,
                run_create_task,
                stored,
                insert_session,
                sessions,
                get-insert state.sessions.content task.created.session_id id task.created,
                other,
              )
              refl,
      )
