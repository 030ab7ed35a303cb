-- ===== src/Backplane/Delivery.antt =====
-- What a client sees: after any operations, an event reaches exactly the attached connections that
-- are associated with its target, each once.
use smooth_agent.Base.{
  String, Bool, false, Option, none, some, List, [], ◌∷◌, ◌≡◌, refl, ◌∙◌, arith, ◌==◌, ◌&&◌, ◌||◌,
  string_eq, if◌then◌else◌, contains, Distinct, filter, length,
}
use smooth_agent.Base.Dict.{Dict, get, get-insert, get-remove}
use text.Mathlib.TextEquality.{eq_iff}
use smooth_agent.Backplane.Registry.{
  Target, connection, target_eq, members, Registry, Delivery, new, attach, associate, detach,
  deliver, publish,
}
use smooth_agent.Backplane.Consistency.{
  IsConsistent, IsConsistent-new, attach-IsConsistent, associate-IsConsistent, detach-IsConsistent,
  contains-entry_insert, contains-detach,
}

module _ (Sink : Type 0) where
  -- The calls that change the registry.
  pub data Call : Type 0 where
    attached : String → Sink → Call
    associated : String → Target → Call
    detached : String → Call

module _ {Sink : Type 0} where
  -- The specification, over the calls made so far, the latest first: the sink of a connection, and
  -- the targets that it has.
  unfoldable pub sink_of : List (Call Sink) → String → Option Sink
  sink_of [] c = none
  sink_of (attached d s ∷ h) c = if d == c then some s else sink_of h c
  sink_of (associated d t ∷ h) c = sink_of h c
  sink_of (detached d ∷ h) c = if d == c then none else sink_of h c

  unfoldable pub is_linked : List (Call Sink) → String → Target → Bool
  is_linked [] c t = false
  is_linked (attached d s ∷ h) c t = d == c && connection d == t || is_linked h c t
  is_linked (associated d u ∷ h) c t = d == c && u == t || is_linked h c t
  is_linked (detached d ∷ h) c t = if d == c then false else is_linked h c t

contains_nil : (xs : List String) → ((c : String) → contains xs c ≡ false) → xs ≡ []
contains_nil [] h = refl
contains_nil (x ∷ xs) h = ground (arith, h x, eq_iff x x)

module _ {Sink : Type 0} (Value : Type 0) where
  unfoldable pub run : List (Call Sink) → Registry Sink Value
  run [] = new
  run (attached c s ∷ h) = attach (run h) c s
  run (associated c t ∷ h) = associate (run h) c t
  run (detached c ∷ h) = detach (run h) c

  -- After any calls, the two maps of the registry are inverse to one another, no target is left
  -- with an empty set of connections, and no set holds a value twice.
  pub run-IsConsistent : (h : List (Call Sink)) → IsConsistent (run h)
  unfolding run
  run-IsConsistent [] = IsConsistent-new
  run-IsConsistent (attached c s ∷ h) = attach-IsConsistent (run h) c s (run-IsConsistent h)
  run-IsConsistent (associated c t ∷ h) = associate-IsConsistent (run h) c t (run-IsConsistent h)
  run-IsConsistent (detached c ∷ h) = detach-IsConsistent (run h) c (run-IsConsistent h)

  get-sinks-run : (h : List (Call Sink)) (c : String) → get (run h).sinks c ≡ sink_of h c
  unfolding run attach associate detach sink_of get
  get-sinks-run [] c = refl
  get-sinks-run (attached d s ∷ h) c =
      ground (arith, get-insert (run h).sinks d c s, get-sinks-run h c)
  get-sinks-run (associated d t ∷ h) c = get-sinks-run h c
  get-sinks-run (detached d ∷ h) c = ground (arith, get-remove (run h).sinks d c, get-sinks-run h c)

  contains-run :
      (h : List (Call Sink)) (c : String) (t : Target)
      → contains (members (run h).conn_targets c) t ≡ is_linked h c t
  unfolding run attach associate is_linked get
  contains-run [] c t = refl
  contains-run (attached d s ∷ h) c t =
      ground
        (arith, contains-entry_insert (run h).conn_targets d c (connection d) t, contains-run h c t)
  contains-run (associated d u ∷ h) c t =
      ground (arith, contains-entry_insert (run h).conn_targets d c u t, contains-run h c t)
  contains-run (detached d ∷ h) c t =
      ground (arith, contains-detach (run h) d (run-IsConsistent h) c t, contains-run h c t)

  -- The calls of the sink of `c` among those that a publication makes.
  abbrev pub calls_of : String → List (Delivery Sink Value) → List (Delivery Sink Value)
  calls_of c = filter (λ d. d.conn == c)

  abbrev pub call_of : Option Sink → String → Value → List (Delivery Sink Value)
  call_of none c event = []
  call_of (some sink) c event = record { conn = c; sink = sink; event = event } ∷ []

  calls_of-deliver :
      (sinks : Dict String Sink) (conns : List String) (event : Value) (c : String)
      → Distinct conns
      → calls_of c (deliver sinks conns event).0
        ≡ (if contains conns c then call_of (get sinks c) c event else [])
  unfolding deliver
  calls_of-deliver sinks [] event c d = refl
  calls_of-deliver sinks (x ∷ xs) event c d =
      ground (arith, calls_of-deliver sinks xs event c d.1, eq_iff x c)

  length-deliver :
      (sinks : Dict String Sink) (conns : List String) (event : Value)
      → length (deliver sinks conns event).0 ≡ (deliver sinks conns event).1
  unfolding deliver
  length-deliver sinks [] event = refl
  length-deliver sinks (x ∷ xs) event = ground (arith, length-deliver sinks xs event)

  publish-deliver :
      (r : Registry Sink Value) (t : Target) (event : Value)
      → publish r t event ≡ deliver r.sinks (members r.target_conns t) event
  unfolding publish deliver
  publish-deliver r t event = ground arith

  calls_of-publish :
      (r : Registry Sink Value) (t : Target) (event : Value) (c : String)
      → IsConsistent r
      → calls_of c (publish r t event).0
        ≡ (if contains (members r.conn_targets c) t then call_of (get r.sinks c) c event else [])
  calls_of-publish r t event c v =
      rw (publish-deliver r t event, ← v.inverse c t)
        (calls_of-deliver r.sinks (members r.target_conns t) event c (v.conns_distinct t))

  -- After any calls, publishing an event for a target calls the sink of a connection exactly once
  -- if the connection is attached and associated with the target, and not at all otherwise: each
  -- judged by the calls so far, in which the latest attachment gives the sink, and a detachment
  -- takes away the sink and every association. The sink gets the event that was published.
  pub publish-run :
      (h : List (Call Sink)) (t : Target) (event : Value) (c : String)
      → calls_of c (publish (run h) t event).0
        ≡ (if is_linked h c t then call_of (sink_of h c) c event else [])
  publish-run h t event c = rw (
    calls_of-publish (run h) t event c (run-IsConsistent h),
    contains-run h c t,
    get-sinks-run h c,
  )

  -- The number that a publication returns is the number of sinks that it called.
  pub length-publish :
      (r : Registry Sink Value) (t : Target) (event : Value)
      → length (publish r t event).0 ≡ (publish r t event).1
  length-publish r t event =
      rw (publish-deliver r t event) (length-deliver r.sinks (members r.target_conns t) event)

  -- The registry does not leak: a target with which no connection is associated has no entry.
  pub run-released :
      (h : List (Call Sink)) (t : Target)
      → ((c : String) → is_linked h c t ≡ false)
      → get (run h).target_conns t ≡ none
  run-released h t free =
      let v = run-IsConsistent h in
      let empty : members (run h).target_conns t ≡ [] =
        contains_nil (members (run h).target_conns t)
          (λ c. v.inverse c t ∙ contains-run h c t ∙ free c) in
      ground (arith, v.inhabited t)
