-- ===== src/Storage/Paging.antt =====
-- Reading a conversation page by page.
use mathlib.Core.Path.{subst}
use mathlib.Core.List.{filter_map, append_assoc, filter_map-append}
use smooth_agent.Base.{
  ℕ, zero, suc, ◌+◌, ◌<◌, String, false, Option, none, some, List, [], ◌∷◌, ◌++◌, ◌≡◌, refl, sym,
  ◌∙◌, ap, arith, string_eq, if◌then◌else◌, length, take, drop, contains, Distinct, get_last?, ltb,
  length-append, length-take, length-drop, take-append-drop, take-of_le, Distinct-reverse,
  Bool-cases, inl, inr, contains-append,
}
use smooth_agent.Base.Dict.{get}
use smooth_agent.Base.Outcome.{Outcome, ok, ◌>>=◌, new_lock}
use text.Mathlib.TextEquality.{eq_iff}
use smooth_agent.Domain.{Message}
use smooth_agent.Storage.Tables.{
  Tables, Adapter, MessageQuery, MessagePage, position, start_at, order_of, page_ids, page_of,
  healthy_ind, list_messages_by_conversation, cut,
}

-- A value is found at its place, if no earlier one equals it.
position-append :
    (xs : List String) (x : String) (rest : List String)
    → contains xs x ≡ false
    → position (xs ++ x ∷ rest) x ≡ some (length xs)
unfolding position
position-append [] x rest h = ground (arith, eq_iff x x)
position-append (y ∷ xs) x rest h = ground (arith, position-append xs x rest)

Distinct-middle :
    (xs : List String) (x : String) (rest : List String)
    → Distinct (xs ++ x ∷ rest)
    → contains xs x ≡ false
Distinct-middle [] x rest d = refl
Distinct-middle (y ∷ xs) x rest d = ground (
  arith,
  Distinct-middle xs x rest d.1,
  contains-append xs (x ∷ rest) y,
  eq_iff y x,
  eq_iff x y,
  eq_iff x x,
)

-- The cursor that a page ends with leads to the element behind that page.
start_at-last :
    (done slice rest : List String) (c : String)
    → Distinct (done ++ (slice ++ rest))
    → get_last? slice ≡ some c
    → start_at (done ++ (slice ++ rest)) (some c) ≡ length done + length slice
start_at-last done [] rest c d h = cc
start_at-last done (x ∷ []) rest c d h =
    let same : x ≡ c = ground arith in
    let at = position-append done x rest (Distinct-middle done x rest d) in
    rw (← same) (rw (at, start_at) (omega arith))
start_at-last done (x ∷ y ∷ ys) rest c d h =
    let e = append_assoc done (x ∷ []) ((y ∷ ys) ++ rest) in
    let ih = start_at-last (done ++ x ∷ []) (y ∷ ys) rest c (subst Distinct (sym e) d) h in
    subst (λ l. start_at l (some c) ≡ length done + length (x ∷ y ∷ ys)) e
      (omega (arith, ih, length-append done (x ∷ [])))

drop-append : {A : Type 0} (xs ys : List A) → drop (length xs) (xs ++ ys) ≡ ys
drop-append [] ys = refl
drop-append (x ∷ xs) ys = drop-append xs ys

last_of_some : {A : Type 0} (x : A) (xs : List A) → (c : A) × (get_last? (x ∷ xs) ≡ some c)
last_of_some x [] = (x, refl)
last_of_some x (y ∷ ys) = last_of_some y ys

last_of_take :
    {A : Type 0} (n : ℕ) (xs : List A)
    → 0 < n
    → 0 < length xs
    → (c : A) × (get_last? (take n xs) ≡ some c)
last_of_take zero xs h k = absurd (omega arith)
last_of_take (suc n) [] h k = absurd (omega arith)
last_of_take (suc n) (x ∷ xs) h k = last_of_some x (take n xs)

abbrev pub with_cursor : MessageQuery → Option String → MessageQuery
with_cursor q c = record q { cursor = c }

module _ {Json : Type 0} where
  abbrev follow :
      (String → Outcome (List (Message Json))) → MessagePage Json → Outcome (List (Message Json))
  follow next page = elim page.next_cursor [
    | none ↦ ok page.messages
    | some c ↦ do more ← next c; ok (page.messages ++ more)
  ]

  -- A client that follows the cursors until a page has none, and collects what it reads.
  unfoldable pub read_all : ℕ → Adapter Json → MessageQuery → Outcome (List (Message Json))
  read_all zero s q = ok []
  read_all (suc rounds) s q =
      list_messages_by_conversation s q >>= follow (λ c. read_all rounds s (with_cursor q (some c)))

  module _ (t : Tables Json) (q : MessageQuery) (pos : 0 < q.limit) where
    abbrev rows : List String → List (Message Json)
    rows = filter_map (get t.messages)

    cut-append :
        (limit : ℕ) (c : Option String) (done rest : List String)
        → start_at (done ++ rest) c ≡ length done
        → cut (done ++ rest) t limit c ≡ record {
          messages = rows (take limit rest);
          next_cursor = if ltb limit (length rest) then get_last? (take limit rest) else none;
        }
    unfolding cut
    cut-append limit c done rest at =
        rw (at, drop-append done rest)
          (ground (arith, length-append done rest, length-take limit rest))

    page_lem :
        (c : Option String) (done rest : List String)
        → page_ids q t ≡ done ++ rest
        → start_at (done ++ rest) c ≡ length done
        → page_of (with_cursor q c) t ≡ record {
          messages = rows (take q.limit rest);
          next_cursor = if ltb q.limit (length rest) then get_last? (take q.limit rest) else none;
        }
    unfolding page_of page_ids
    page_lem c done rest split at =
        ap (λ ids. cut ids t q.limit c) split ∙ cut-append q.limit c done rest at

    -- From a cursor behind `done`, the client reads the rows of what is left.
    read_all-rest :
        (rounds : ℕ) (c : Option String) (done rest : List String)
        → Distinct (page_ids q t)
        → page_ids q t ≡ done ++ rest
        → start_at (done ++ rest) c ≡ length done
        → length rest < rounds
        → read_all rounds (new_lock t) (with_cursor q c) ≡ ok (rows rest)
    unfolding read_all list_messages_by_conversation
    read_all-rest zero c done rest d split at f = absurd (omega arith)
    read_all-rest (suc rounds) c done rest d split at f =
        rw (page_lem c done rest split at) (elim (Bool-cases (ltb q.limit (length rest))) [
          | inl more ↦
              let slice = take q.limit rest in
              let rest' = drop q.limit rest in
              let (c', last) = last_of_take q.limit rest pos (ground arith) in
              let whole = take-append-drop q.limit rest in
              let split' : page_ids q t ≡ done ++ (slice ++ rest') =
                split ∙ ap (λ l. done ++ l) (sym whole) in
              let next =
                start_at-last done slice rest' c' (subst Distinct split' d) last
                ∙ sym (length-append done slice) in
              let regroup = sym (append_assoc done slice rest') in
              let ih =
                read_all-rest rounds (some c') (done ++ slice) rest' d (split' ∙ regroup)
                  (subst (λ l. start_at l (some c') ≡ length (done ++ slice)) regroup next)
                  (ground (arith, length-drop q.limit rest)) in
              rw (more, last, ih)
                (ap ok (sym (filter_map-append (get t.messages) slice rest') ∙ ap rows whole))
          | inr end ↦ rw end (ap (λ l. ok (rows l)) (take-of_le q.limit rest (ground arith)))
        ])

  page_ids-Distinct :
      (t : Tables Json) (q : MessageQuery)
      → Distinct (order_of t q.conversation_id)
      → Distinct (page_ids q t)
  unfolding page_ids
  page_ids-Distinct t q d = elim (Bool-cases q.descending) [
    | inl e ↦ rw e (Distinct-reverse (order_of t q.conversation_id) d)
    | inr e ↦ rw e d
  ]

  -- Paging is complete: a client that asks for at least one row a page, and follows the cursors for
  -- more rounds than the conversation has messages, reads the stored messages of the conversation
  -- in the order of the query, each exactly once, whatever the page size, provided that no message
  -- id was appended to the conversation twice.
  pub read_all_complete :
      (s : Adapter Json) (q : MessageQuery) (rounds : ℕ)
      → s.poisoned ≡ false
      → 0 < q.limit
      → Distinct (order_of s.content q.conversation_id)
      → length (page_ids q s.content) < rounds
      → read_all rounds s (with_cursor q none)
        ≡ ok (filter_map (get s.content.messages) (page_ids q s.content))
  read_all_complete s q rounds healthy pos d =
      healthy_ind
        (λ s.
          Distinct (order_of s.content q.conversation_id)
          → length (page_ids q s.content) < rounds
          → read_all rounds s (with_cursor q none)
            ≡ ok (filter_map (get s.content.messages) (page_ids q s.content)))
        (λ t d f.
          read_all-rest t q pos rounds none [] (page_ids q t) (page_ids-Distinct t q d) refl refl f)
        s healthy d
