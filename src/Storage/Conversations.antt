-- ===== src/Storage/Conversations.antt =====
-- Conversations: creation is idempotent by organisation and key, and updates change one row.
use smooth_agent.Base.{
  ℕ, String, true, false, none, some, ◌≡◌, sym, ap, arith, ◌==◌, string_eq, if◌then◌else◌, find,
  Distinct, Option-cases, inl, inr,
}
use mathlib.Core.Path.{fun_ext, subst}
use text.Mathlib.TextEquality.{eq_iff}
use smooth_agent.Base.Dict.{
  get, keys, get-insert, get-insert_self, keys-insert-Distinct, find-get, find-none, find-insert,
}
use smooth_agent.Base.Outcome.{ok, err, new_lock}
use smooth_agent.Domain.{Conversation}
use smooth_agent.Storage.Tables.{
  Tables, Adapter, ConversationUpdate, empty, same_key, values, create_body, create_conversation,
  get_conversation, update_body, update_conversation, updated_conversation, quoted,
  content-under_write, healthy_ind,
}

module _ {Json : Type 0} where
  -- Rows stand under their own id, and no two share an organisation and an idempotency key.
  pub record IsValid (t : Tables Json) : Type 0 where
    pub distinct : Distinct (keys t.conversations)
    pub keyed : (id : String) (c : Conversation Json) → get t.conversations id ≡ some c → c.id ≡ id
    pub unique :
        (i j : String) (a b : Conversation Json)
        → get t.conversations i ≡ some a
        → get t.conversations j ≡ some b
        → a.organization_id ≡ b.organization_id
        → a.idempotency_key ≡ b.idempotency_key
        → i ≡ j

  same_key_iff :
      (c a : Conversation Json)
      → same_key c a ≡ true
      → (a.organization_id ≡ c.organization_id) × (a.idempotency_key ≡ c.idempotency_key)
  same_key_iff c a h = ground (
    arith,
    eq_iff a.organization_id c.organization_id,
    eq_iff a.idempotency_key c.idempotency_key,
  )

  pub IsValid-empty : IsValid (empty {Json = Json})
  unfolding get
  IsValid-empty = record { distinct = tt; keyed = λ id c h. cc; unique = λ i j a b h k p q. cc }

  module _ (t : Tables Json) (c : Conversation Json) (v : IsValid t)
      (free : find (same_key c) (values t.conversations) ≡ none) where
    not_same :
        (i : String) (a : Conversation Json)
        → get t.conversations i ≡ some a
        → a.organization_id ≡ c.organization_id
        → a.idempotency_key ≡ c.idempotency_key
        → ⊥
    not_same i a g p q = ground (
      arith,
      find-none (same_key c) t.conversations i a free g,
      eq_iff a.organization_id c.organization_id,
      eq_iff a.idempotency_key c.idempotency_key,
    )

    created-IsValid : IsValid (create_body c t).1
    unfolding create_body
    created-IsValid =
        rw (free, create_body)
          (record {
            distinct = keys-insert-Distinct t.conversations c.id c v.distinct;
            keyed = λ id a h.
                ground (arith, get-insert t.conversations c.id id c, eq_iff c.id id, v.keyed id a);
            unique = λ i j a b g h p q. ground (
              arith,
              get-insert t.conversations c.id i c,
              get-insert t.conversations c.id j c,
              eq_iff c.id i,
              eq_iff c.id j,
              not_same i a,
              not_same j b,
              v.unique i j a b,
            );
          })

  create_body-IsValid :
      (t : Tables Json) (c : Conversation Json) → IsValid t → IsValid (create_body c t).1
  unfolding create_body
  create_body-IsValid t c v = elim (Option-cases (find (same_key c) (values t.conversations))) [
    | inl free ↦ created-IsValid t c v free
    | inr (a, found) ↦ rw (found, create_body) v
  ]

  -- Creating a conversation keeps the rows under their own ids, and no two of them with the same
  -- organisation and idempotency key.
  pub create_conversation-IsValid :
      (s : Adapter Json) (c : Conversation Json)
      → IsValid s.content
      → IsValid (create_conversation s c).1.content
  unfolding create_conversation
  create_conversation-IsValid s c v =
      content-under_write IsValid (create_body c) s v (create_body-IsValid s.content c v)

  same_key-eq :
      (c d : Conversation Json)
      → d.organization_id ≡ c.organization_id
      → d.idempotency_key ≡ c.idempotency_key
      → same_key d ≡ same_key c
  same_key-eq c d p q = fun_ext (λ a. ground arith)

  same_key_self : (c : Conversation Json) → same_key c c ≡ true
  same_key_self c = ground (
    arith,
    eq_iff c.organization_id c.organization_id,
    eq_iff c.idempotency_key c.idempotency_key,
  )

  -- The answer to a creation is stored under its id, with the organisation and key of the request,
  -- and is what a search for them then finds.
  create_body_lem :
      (t : Tables Json) (c : Conversation Json)
      → IsValid t
      → (row : Conversation Json) × ((create_body c t).0 ≡ ok row)
        × (same_key c row ≡ true)
        × (get (create_body c t).1.conversations row.id ≡ some row)
        × (find (same_key c) (values (create_body c t).1.conversations) ≡ some row)
  unfolding create_body
  create_body_lem t c v = elim (Option-cases (find (same_key c) (values t.conversations))) [
    | inl free ↦ (
      c,
      rw (free, create_body),
      same_key_self c,
      rw (free, create_body) (get-insert_self t.conversations c.id c),
      rw (free, create_body)
          (find-insert (same_key c) t.conversations c.id c free (same_key_self c)),
    )
    | inr (a, found) ↦
        let (k, g, same) = find-get (same_key c) t.conversations a v.distinct found in
        (
          a,
          rw (found, create_body),
          same,
          rw (found, create_body)
              (subst (λ i. get t.conversations i ≡ some a) (sym (v.keyed k a g)) g),
          rw (found, create_body) found,
        )
  ]

  create_body_found :
      (t : Tables Json) (c row : Conversation Json)
      → find (same_key c) (values t.conversations) ≡ some row
      → create_body c t ≡ (ok row, t)
  unfolding create_body
  create_body_found t c row found = rw (found, create_body)

  -- Creation answers with a row of the given organisation and key that can be read back under its
  -- id; and creating once more with that organisation and key, whatever else the request says,
  -- answers with the same row and changes nothing.
  pub create_conversation-idempotent :
      (s : Adapter Json) (c d : Conversation Json)
      → s.poisoned ≡ false
      → IsValid s.content
      → d.organization_id ≡ c.organization_id
      → d.idempotency_key ≡ c.idempotency_key
      → (row : Conversation Json) × ((create_conversation s c).0 ≡ ok row)
        × (row.organization_id ≡ c.organization_id)
        × (row.idempotency_key ≡ c.idempotency_key)
        × (get_conversation (create_conversation s c).1 row.id ≡ ok (some row))
        × (create_conversation (create_conversation s c).1 d
            ≡ (ok row, (create_conversation s c).1))
  unfolding create_conversation get_conversation
  create_conversation-idempotent s c d healthy v p q =
      healthy_ind
        (λ s.
          IsValid s.content
          → (row : Conversation Json) × ((create_conversation s c).0 ≡ ok row)
            × (row.organization_id ≡ c.organization_id)
            × (row.idempotency_key ≡ c.idempotency_key)
            × (get_conversation (create_conversation s c).1 row.id ≡ ok (some row))
            × (create_conversation (create_conversation s c).1 d
                ≡ (ok row, (create_conversation s c).1)))
        (λ t v.
          let (row, answered, same, stored, found) = create_body_lem t c v in
          let (po, pk) = same_key_iff c row same in
          let again =
            create_body_found (create_body c t).1 d row (rw (same_key-eq c d p q) found) in
          (row, answered, po, pk, ap ok stored, ap (λ r. (r.0, new_lock r.1)) again))
        s healthy v

  -- Updating a conversation that is not there is an error with no change; updating one that is
  -- there replaces the given parts and the time of the update, keeps the rest of it, answers with
  -- the new row, and leaves every other row as it was.
  pub update_conversation_lem :
      (s : Adapter Json) (id : String) (u : ConversationUpdate Json) (now : ℕ)
      → s.poisoned ≡ false
      → (get s.content.conversations id ≡ none
          → update_conversation s id u now ≡ (err (quoted "conversation" id), s))
        × ((c : Conversation Json)
            → get s.content.conversations id ≡ some c
            → ((update_conversation s id u now).0 ≡ ok (updated_conversation u now c))
              × ((j : String)
                  → get (update_conversation s id u now).1.content.conversations j ≡ (
                      if id == j
                      then some (updated_conversation u now c)
                      else get s.content.conversations j)))
  unfolding update_conversation update_body
  update_conversation_lem s id u now healthy =
      healthy_ind
        (λ s.
          (get s.content.conversations id ≡ none
            → update_conversation s id u now ≡ (err (quoted "conversation" id), s))
          × ((c : Conversation Json)
              → get s.content.conversations id ≡ some c
              → ((update_conversation s id u now).0 ≡ ok (updated_conversation u now c))
                × ((j : String)
                    → get (update_conversation s id u now).1.content.conversations j ≡ (
                        if id == j
                        then some (updated_conversation u now c)
                        else get s.content.conversations j))))
        (λ t. (
          λ missing. rw (missing, update_body),
          λ c there. (
            rw (there, update_body),
            λ j.
                rw (there, update_body)
                  (get-insert t.conversations id j (updated_conversation u now c)),
          ),
        ))
        s healthy

  update_body-IsValid :
      (t : Tables Json) (id : String) (u : ConversationUpdate Json) (now : ℕ)
      → IsValid t
      → IsValid (update_body id u now t).1
  unfolding update_body
  update_body-IsValid t id u now v = elim (Option-cases (get t.conversations id)) [
    | inl missing ↦ rw (missing, update_body) v
    | inr (c, there) ↦
        let c' = updated_conversation u now c in
        rw (there, update_body)
          (record {
            distinct = keys-insert-Distinct t.conversations id c' v.distinct;
            keyed = λ j a h.
                ground (
                  arith,
                  get-insert t.conversations id j c',
                  eq_iff id j,
                  v.keyed j a,
                  v.keyed id c,
                );
            unique = λ i j a b g h p q. ground (
              arith,
              get-insert t.conversations id i c',
              get-insert t.conversations id j c',
              eq_iff id i,
              eq_iff id j,
              v.unique i j a b,
              v.unique id j c b,
              v.unique i id a c,
            );
          })
  ]

  -- Updating keeps the rows under their own ids, and no two of them with the same organisation and
  -- idempotency key.
  pub update_conversation-IsValid :
      (s : Adapter Json) (id : String) (u : ConversationUpdate Json) (now : ℕ)
      → IsValid s.content
      → IsValid (update_conversation s id u now).1.content
  unfolding update_conversation
  update_conversation-IsValid s id u now v =
      content-under_write IsValid (update_body id u now) s v
        (update_body-IsValid s.content id u now v)
