-- ===== src/Admin/Visibility.antt =====
-- Who gets through the gate, and who may read a conversation.
use smooth_agent.Base.{
  ℕ, ◌≤◌, ◌≡◌, ◌⊎◌, inl, inr, ap, ◌∙◌, arith, String, true, Option, some, string_eq, ◌==◌, ltb,
  Bool-cases, Option-cases, List, [], ◌∷◌, ◌≢◌, All, All-imp, refl, none, leb, All-filter,
  All-filter_of, Memᴰ, any-true, filter,
}
use text.Mathlib.TextEquality.{eq_iff}
use smooth_agent.Base.Outcome.{ok, Outcome-cases}
use smooth_agent.Base.Sort.{sort_by, All_at, All-sort_by}
use smooth_agent.Domain.{Conversation, Participant, ParticipantType, user, ai_agent, human_agent}
use smooth_agent.Auth.Principal.{valid, unauthenticated, Principal, basic, rank, ok_or, ◌>>=◌}
use smooth_agent.Auth.Verifier.{TokenCrates, Verifier, verify}
use smooth_agent.Auth.Secure.{>>=-eq-valid, ok_or-valid}
use smooth_agent.Storage.Tables.{
  Adapter, MessagePage, values, get_conversation, list_participants_by_conversation,
}
use smooth_agent.Admin.Gate.{bearer_token, at_least, require_role}
use smooth_agent.Admin.History.{
  answered, sees_org, conversation_owned_by, is_owner, is_user, is_id, read_allowed,
  conversation_messages,
}

at_least-valid :
    (min : ℕ) (q p : Principal) → at_least min q ≡ valid p → (q ≡ p) × (min ≤ rank p.role)
at_least-valid min q p h = elim (Bool-cases (ltb (rank q.role) min)) [
  | inl e ↦ cc (rw e at h)
  | inr e ↦
      let same = the_same q p (rw e at h) in
      let enough : min ≤ rank q.role = ground arith in (same, rw⁻¹ same enough)
]
  where
    the_same : (q p : Principal) → valid q ≡ valid p → q ≡ p
    the_same q p h = cc

-- Whoever gets through the gate of a route has a token in the request's header that the verifier
-- accepts as theirs, and at least the route's role.
pub require_role-Verified :
    (crates : TokenCrates) (verifier : Verifier crates) (min : ℕ) (header : Option String)
    (p : Principal)
    → require_role crates verifier min header ≡ valid p
    → (token : String) × (bearer_token header ≡ some token)
      × (verify crates verifier token ≡ valid p)
      × (min ≤ rank p.role)
unfolding require_role
require_role-Verified crates verifier min header p h =
    let (token, t, behind) =
      >>=-eq-valid (ok_or (bearer_token header) unauthenticated)
        (λ token. verify crates verifier token >>= at_least min) h in
    let (q, v, last) = >>=-eq-valid (verify crates verifier token) (at_least min) behind in
    let (same, enough) = at_least-valid min q p last in
    (token, ok_or-valid (bearer_token header) unauthenticated t, v ∙ ap valid same, enough)

is_user-user : (t : ParticipantType) → is_user t ≡ true → t ≡ user
is_user-user user h = refl
is_user-user ai_agent h = cc
is_user-user human_agent h = cc

is_id-some : (o : Option String) (id : String) → is_id o id ≡ true → o ≡ some id
is_id-some none id h = cc
is_id-some (some own) id h = ap some ((eq_iff own id).0 h)

sees_org-role : (p : Principal) → sees_org p ≡ true → p.role ≢ basic
sees_org-role p h e = cc (rw e at h)

All-members : {A : Type 0} (xs : List A) → All (λ x. Memᴰ x xs) xs
All-members [] = tt
All-members (x ∷ xs) =
    (Memᴰ.head refl, All-imp (λ y. Memᴰ y xs) _ (λ y m. Memᴰ.tail m) xs (All-members xs))

All-both :
    {A : Type 0} (P Q : A → Type 0) (xs : List A) → All P xs → All Q xs → All (λ x. P x × Q x) xs
All-both P Q [] p q = tt
All-both P Q (x ∷ xs) p q = ((p.0, q.0), All-both P Q xs p.1 q.1)

module _ {Json : Type 0} where
  -- The user is a participant of the conversation, of the kind of a user and under that external id.
  pub record Owns (s : Adapter Json) (id user_id : String) : Type 0 where
    pub participant : Participant Json
    pub stored : Memᴰ participant (values s.content.participants)
    pub in_conversation : participant.conversation_id ≡ id
    pub as_user : participant.participant_type ≡ user
    pub under_id : participant.external_id ≡ some user_id

  conversation_owned_by-Owns :
      (s : Adapter Json) (id user_id : String)
      → conversation_owned_by s id user_id ≡ true
      → Owns s id user_id
  unfolding conversation_owned_by list_participants_by_conversation
  conversation_owned_by-Owns s id user_id h = elim (Bool-cases s.poisoned) [
    | inl e ↦ cc (rw (conversation_owned_by, e) at h)
    | inr e ↦
        let there = values s.content.participants in
        let older = λ (a b : Participant Json). leb a.created_at b.created_at in
        let here = λ (p : Participant Json). p.conversation_id == id in
        let (q, m, own) =
          any-true (is_owner user_id) (sort_by older (filter here there))
            (rw (conversation_owned_by, e) at h) in
        let (inside, of_id) =
          All_at older (λ q. Memᴰ q there × (here q ≡ true)) q _
            (All-sort_by older (λ q. Memᴰ q there × (here q ≡ true)) (filter here there)
              (All-both (λ q. Memᴰ q there) (λ q. here q ≡ true) (filter here there)
                (All-filter_of (λ q. Memᴰ q there) here there (All-members there))
                (All-filter here there)))
            m in
        record {
          participant = q;
          stored = inside;
          in_conversation = (eq_iff q.conversation_id id).0 of_id;
          as_user = is_user-user q.participant_type (ground arith);
          under_id = is_id-some q.external_id user_id (ground arith);
        }
  ]

  read_allowed-Entitled :
      (s : Adapter Json) (p : Principal) (id : String) (conv : Conversation Json)
      (page : MessagePage Json)
      → read_allowed s p id conv ≡ answered page
      → (conv.organization_id ≡ p.org_id) × ((p.role ≢ basic) ⊎ Owns s id p.user_id)
  unfolding read_allowed
  read_allowed-Entitled s p id conv page h = elim (Bool-cases (conv.organization_id == p.org_id)) [
    | inr e ↦ cc (rw (read_allowed, e) at h)
    | inl e ↦ (
      (eq_iff conv.organization_id p.org_id).0 e,
      elim (Bool-cases (sees_org p)) [
        | inl sees ↦ inl (sees_org-role p sees)
        | inr plain ↦ elim (Bool-cases (conversation_owned_by s id p.user_id)) [
          | inl owns ↦ inr (conversation_owned_by-Owns s id p.user_id owns)
          | inr other ↦ cc (rw (read_allowed, e, plain, other) at h)
        ]
      ],
    )
  ]

  -- The messages of a conversation are answered only to a principal of the organization that the
  -- conversation belongs to, and to one with the role basic only if a participant of the conversation
  -- is a user with the principal's user id as external id.
  pub conversation_messages-Entitled :
      (s : Adapter Json) (p : Principal) (id : String) (page : MessagePage Json)
      → conversation_messages s p id ≡ answered page
      → (conv : Conversation Json) × (get_conversation s id ≡ ok (some conv))
        × (conv.organization_id ≡ p.org_id)
        × ((p.role ≢ basic) ⊎ Owns s id p.user_id)
  unfolding conversation_messages
  conversation_messages-Entitled s p id page h = elim (Outcome-cases (get_conversation s id)) [
    | inr (m, e) ↦ cc (rw (conversation_messages, e) at h)
    | inl (found, e) ↦ elim (Option-cases found) [
      | inl none_found ↦ cc (rw (conversation_messages, e, none_found) at h)
      | inr (conv, f) ↦
          let (org, may) =
            read_allowed-Entitled s p id conv page (rw (conversation_messages, e, f) at h) in
          (conv, e ∙ ap ok f, org, may)
    ]
  ]
