-- ===== src/Backplane/Tests.antt =====
-- Runs of the backplane on a short history.
use smooth_agent.Base.{ℕ, String, List, [], ◌∷◌, ◌≡◌, refl, string_eq}
use smooth_agent.Base.Dict.{get, insert, remove}
use smooth_agent.Base.Sets.{set_insert, set_remove}
use smooth_agent.Backplane.Registry.{
  session, target_eq, attach, associate, detach, publish, deliver, release, release_all,
  entry_insert,
}
use smooth_agent.Backplane.Delivery.{
  Call, attached, associated, detached, run, sink_of, is_linked, calls_of, publish-run,
}

-- Two connections join a session; the second leaves.
abbrev history : List (Call ℕ)
history =
    detached "b"
    ∷ associated "b" (session "s")
    ∷ associated "a" (session "s")
    ∷ attached "b" 2
    ∷ attached "a" 1
    ∷ []

program : Unit {0}
unfolding run sink_of is_linked publish deliver attach associate detach release_all release
    entry_insert get insert remove set_insert set_remove
program = tt

session_run :
    publish (run String history) (session "s") "hi"
    ≡ (record { conn = "a"; sink = 1; event = "hi" } ∷ [], 1)
unfolding program
session_run = refl

publish-run_example : calls_of String "b" (publish (run String history) (session "s") "hi").0 ≡ []
unfolding program
publish-run_example = publish-run String history (session "s") "hi" "b"

abbrev gone : List (Call ℕ)
gone = detached "a" ∷ attached "a" 1 ∷ []
