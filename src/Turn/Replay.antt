-- ===== src/Turn/Replay.antt =====
-- What a history holds after a message was appended.
use mathlib.Core.List.{reverse, filter_map, reverse-append, reverse-cons}
use text.Mathlib.TextEquality.{eq_iff}
use smooth_agent.Base.{
  ℕ, zero, suc, min, max, ◌-◌, ◌≤◌, String, false, Option, none, some, List, [], ◌∷◌, ◌++◌, ◌≡◌,
  refl, ◌∙◌, ap, arith, string_eq, length, take, contains,
}
use smooth_agent.Base.Dict.{get, insert, get-insert, get-insert_self}
use smooth_agent.Base.Outcome.{ok}
use smooth_agent.Domain.{Message}
use smooth_agent.Storage.Tables.{
  Tables, Adapter, append_message, append_body, list_messages_by_conversation, page_of, page_ids,
  cut, order_of, healthy_ind, pushed_order,
}
use smooth_agent.Turn.History.{
  load_prior_messages, recent_messages, clamped, max_prior_messages, replay,
}

take-append_of_le :
    {A : Type 0} (n : ℕ) (xs ys : List A) → n ≤ length xs → take n (xs ++ ys) ≡ take n xs
take-append_of_le zero xs ys h = refl
take-append_of_le (suc n) [] ys h = ground arith
take-append_of_le (suc n) (x ∷ xs) ys h = ap (λ l. x ∷ l) (take-append_of_le n xs ys (omega arith))

contains-take_ids :
    (n : ℕ) (ids : List String) (id : String)
    → contains ids id ≡ false
    → contains (take n ids) id ≡ false
contains-take_ids zero ids id h = refl
contains-take_ids (suc n) [] id h = refl
contains-take_ids (suc n) (x ∷ ids) id h = ground (arith, contains-take_ids n ids id)

-- The tool never reads less than one message.
clamped-suc : (limit : Option ℕ) → (k : ℕ) × (clamped limit ≡ suc k)
clamped-suc none = (19, refl)
clamped-suc (some n) = (min (max n 1) 100 - 1, omega arith)

first_row :
    {A B : Type 0} (f : A → Option B) (a : A) (rest : List A) (b : B)
    → f a ≡ some b
    → filter_map f (a ∷ rest) ≡ b ∷ filter_map f rest
unfolding filter_map
first_row f a rest b e = rw e refl

module _ {Json : Type 0} where
  -- Rows that are read for other ids do not see an insertion.
  filter_map-insert :
      (t : Tables Json) (m : Message Json) (ids : List String)
      → contains ids m.id ≡ false
      → filter_map (get (insert t.messages m.id m)) ids ≡ filter_map (get t.messages) ids
  unfolding filter_map
  filter_map-insert t m [] h = refl
  filter_map-insert t m (id ∷ ids) h =
      let rest = filter_map-insert t m ids (ground arith) in
      let here : get (insert t.messages m.id m) id ≡ get t.messages id =
        ground (arith, eq_iff m.id id, eq_iff id m.id, get-insert t.messages m.id id m) in
      rw (here, rest) refl

  order_of-append :
      (t : Tables Json) (m : Message Json) (conv : String)
      → m.conversation_id ≡ some conv
      → order_of (append_body m t).1 conv ≡ order_of t conv ++ m.id ∷ []
  unfolding append_body
  order_of-append t m conv e =
      rw (e, pushed_order)
        (rw (get-insert_self t.message_order conv (order_of t conv ++ m.id ∷ []), order_of) refl)

  -- Past 50 messages a replay is stale: a new message of the conversation, whatever it says,
  -- changes nothing in what a turn replays, if the lock is healthy and the message's id is new.
  pub load_prior_messages-append :
      (s : Adapter Json) (m : Message Json) (conv : String)
      → s.poisoned ≡ false
      → m.conversation_id ≡ some conv
      → max_prior_messages ≤ length (order_of s.content conv)
      → contains (order_of s.content conv) m.id ≡ false
      → load_prior_messages (append_message s m).1 conv ≡ load_prior_messages s conv
  unfolding load_prior_messages append_message append_body list_messages_by_conversation page_of
      page_ids cut
  load_prior_messages-append s m conv healthy e many new =
      healthy_ind
        (λ s.
          max_prior_messages ≤ length (order_of s.content conv)
          → contains (order_of s.content conv) m.id ≡ false
          → load_prior_messages (append_message s m).1 conv ≡ load_prior_messages s conv)
        (λ t many new. ap (λ ms. ok (replay ms)) (window t many new)) s healthy many new
    where
      window :
          (t : Tables Json)
          → max_prior_messages ≤ length (order_of t conv)
          → contains (order_of t conv) m.id ≡ false
          → filter_map
              (get (insert t.messages m.id m))
              (take 50 (order_of (append_body m t).1 conv))
            ≡ filter_map (get t.messages) (take 50 (order_of t conv))
      window t many new =
          ap (filter_map (get (insert t.messages m.id m))) (
            ap (take 50) (order_of-append t m conv e)
            ∙ take-append_of_le 50 (order_of t conv) (m.id ∷ []) many)
          ∙ filter_map-insert t m (take 50 (order_of t conv))
              (contains-take_ids 50 (order_of t conv) m.id new)

  -- The history tool shows a message that was just appended, and shows it last, whatever limit it is
  -- given, if the lock is healthy.
  pub recent_messages-append :
      (s : Adapter Json) (m : Message Json) (conv : String) (limit : Option ℕ)
      → s.poisoned ≡ false
      → m.conversation_id ≡ some conv
      → (earlier : List (Message Json)) × (recent_messages (append_message s m).1 conv limit
          ≡ ok (earlier ++ m ∷ []))
  unfolding recent_messages append_message append_body list_messages_by_conversation page_of
      page_ids cut
  recent_messages-append s m conv limit healthy e =
      healthy_ind
        (λ s.
          (earlier : List (Message Json)) × (recent_messages (append_message s m).1 conv limit
            ≡ ok (earlier ++ m ∷ [])))
        (λ t.
          let (k, n) = clamped-suc limit in
          let rows = get (insert t.messages m.id m) in
          let behind = take k (reverse (order_of t conv)) in
          let window : take (clamped limit) (reverse (order_of (append_body m t).1 conv))
              ≡ m.id ∷ behind =
            ap (λ l. take l (reverse (order_of (append_body m t).1 conv))) n
            ∙ ap (λ ids. take (suc k) (reverse ids)) (order_of-append t m conv e)
            ∙ ap (take (suc k)) (reverse-append (order_of t conv) (m.id ∷ [])) in
          (
            reverse (filter_map rows behind),
            ap (λ ids. ok (reverse (filter_map rows ids))) window ∙ ap ok (newest t behind),
          ))
        s healthy
    where
      newest :
          (t : Tables Json) (ids : List String)
          → reverse (filter_map (get (insert t.messages m.id m)) (m.id ∷ ids))
            ≡ reverse (filter_map (get (insert t.messages m.id m)) ids) ++ m ∷ []
      newest t ids =
          let rows = get (insert t.messages m.id m) in
          ap reverse (first_row rows m.id ids m (get-insert_self t.messages m.id m))
          ∙ reverse-cons m (filter_map rows ids)
