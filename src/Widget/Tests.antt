-- ===== src/Widget/Tests.antt =====
-- Signed contexts and allow-lists on concrete inputs.
use smooth_agent.Base.{
  String, true, none, some, [], ◌∷◌, ◌≡◌, inl, string_eq, ◌==◌, arith, if◌then◌else◌, Memᴰ, ◌↔◌,
}
use smooth_agent.Base.Int.{pos, negsuc}
use smooth_agent.Widget.Origin.{origin_allowed, origin_allowed_iff, Covers}
use smooth_agent.Widget.Context.{HmacCrates, verify_auth_context, verify_auth_context_lem}

-- The signature of a message under a key is the key's.
abbrev toy : HmacCrates
toy = record {
  hex_decode = λ s. if s == "not-hex" then none else some [];
  show_i64 = λ z. "0";
  verify_slice = λ key message sig. some (message == "ann:0");
}

origin_allowed_iff_example :
    (origin_allowed ("https://*.smoo.ai" ∷ []) "https://a.smoo.ai" ≡ true) ↔ (
      (pattern : String) × Memᴰ pattern ("https://*.smoo.ai" ∷ [])
      × Covers pattern "https://a.smoo.ai")
origin_allowed_iff_example = origin_allowed_iff ("https://*.smoo.ai" ∷ []) "https://a.smoo.ai"

-- A client's timestamp of -2 ^ 63 at the present time 1,000,000.
verify_auth_context_lem_example :
    verify_auth_context toy true "k" "ann" "00" (negsuc 0x7fffffffffffffff) (pos 1000000) (pos 60)
    ≡ none
verify_auth_context_lem_example =
    (verify_auth_context_lem toy "k" "ann" "00" (pos 1000000) (negsuc 0x7fffffffffffffff)
        (pos 60)).1
      (inl (omega arith))
