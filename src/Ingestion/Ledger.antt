-- ===== src/Ingestion/Ledger.antt =====
-- The ledger of stored chunks and its keys (`IngestLedger` and `content_hash`,
-- rust/ingestion/src/pipeline.rs).
use Prim.Native.Char.{code}
use Prim.Native.String.{◌++◌}
use mathlib.Core.List
use smooth_agent.Base.{
  ℕ, zero, suc, ◌+◌, ◌*◌, ◌/◌, ◌%◌, ◌^◌, String, Bool, true, false, List, [], ◌∷◌, string_eq,
  contains, length, if◌then◌else◌, ltb, not, nat_eqb, ◌≡◌, refl,
}
use smooth_agent.Base.Sets.{set_insert}
use smooth_agent.Base.Outcome.{Lock, new_lock, store}
use smooth_agent.Base.Words.{hex_digits, digit}
use smooth_agent.Ingestion.Chunker.{Chunk}

abbrev pub IngestLedger : Type 0
IngestLedger = Lock (List String)

abbrev pub new : IngestLedger
new = new_lock []

abbrev pub len : IngestLedger → ℕ
len ledger = if ledger.poisoned then 0 else length ledger.content

abbrev pub is_empty : IngestLedger → Bool
is_empty ledger = nat_eqb (len ledger) 0

-- Whether the key is new, and the ledger with it.
unfoldable pub record_key : IngestLedger → String → Bool × IngestLedger
record_key ledger key =
    if ledger.poisoned
    then (true, ledger)
    else (not (contains ledger.content key), store ledger (set_insert ledger.content key))

abbrev pub ledger_contains : IngestLedger → String → Bool
ledger_contains ledger key = if ledger.poisoned then false else contains ledger.content key

-- The lowest `bits` bits of an exclusive or.
unfoldable pub xor : ℕ → ℕ → ℕ → ℕ
xor zero a b = 0
xor (suc bits) a b = (a % 2 + b % 2) % 2 + 2 * xor bits (a / 2) (b / 2)

-- `text.bytes()` of one character: its UTF-8.
unfoldable pub utf8 : ℕ → List ℕ
utf8 c =
    if ltb c 0x80
    then c ∷ []
    else if ltb c 0x800
    then (0xc0 + c / 0x40) ∷ (0x80 + c % 0x40) ∷ []
    else if ltb c 0x10000
    then (0xe0 + c / 0x1000) ∷ (0x80 + c / 0x40 % 0x40) ∷ (0x80 + c % 0x40) ∷ []
    else (0xf0 + c / 0x40000)
      ∷ (0x80 + c / 0x1000 % 0x40)
      ∷ (0x80 + c / 0x40 % 0x40)
      ∷ (0x80 + c % 0x40)
      ∷ []

unfoldable pub bytes : String → List ℕ
unfolding utf8
bytes String.[] = []
bytes (String.◌∷◌ c s) = List.◌++◌ (utf8 (code c)) (bytes s)

unfoldable pub fnv : ℕ → List ℕ → ℕ
unfolding xor
fnv hash [] = hash
fnv hash (b ∷ bs) = fnv (xor 64 hash b * 0x100000001b3 % 2 ^ 64) bs

unfoldable pub content_hash : String → String
unfolding bytes fnv hex_digits
content_hash text = hex_digits 16 (fnv 0xcbf29ce484222325 (bytes text)) ""

unfoldable pub chunk_key : String → String → Chunk → String
unfolding content_hash
chunk_key org_id doc_id c = org_id ++ ("::" ++ (doc_id ++ ("::" ++ content_hash c.text)))

fnv-test : content_hash "a" ≡ "af63dc4c8601ec8c"
unfolding content_hash digit
fnv-test = refl
