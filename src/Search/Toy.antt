-- ===== src/Search/Toy.antt =====
-- Toy tables and numbers for the reranker, on natural numbers.
use Prim.Native.Char.{code}
use smooth_agent.Base.{ℕ, ◌+◌, ◌/◌, leb}
use smooth_agent.Search.Rerank.{Lexicon}
use smooth_agent.Search.Tool.{Display}

abbrev pub toy_lexicon : Lexicon
toy_lexicon = record {
  F32 = ℕ;
  zero_f32 = 0;
  one_f32 = 100;
  from_usize = λ n. 100 + n;
  ln = λ x. x;
  add = λ x y. x + y;
  div = λ x y. x / y;
  not_greater = leb;
  to_lowercase = λ s. s;
  is_alphanumeric = λ c. leb 0x30 (code c);
  walk = λ terms. terms;
}

abbrev pub toy_display : Display ℕ
toy_display = record { debug = λ s. s; relevance = λ n. "0.50" }
