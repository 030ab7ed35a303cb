-- ===== src/Json/Toy.antt =====
-- A small implementation of the interface: trees, whose frames are given in place of parsed text.
use smooth_agent.Base.{ℕ, String, Bool, Option, none, some, List, [], ◌∷◌, string_eq, ◌≡◌, refl, ap}
use smooth_agent.Base.Dict.{Dict, get, insert}
use smooth_agent.Base.Int.{ℤ, pos, negsuc}
use smooth_agent.Base.Outcome.{ok, err}
use smooth_agent.Json.{Json}

mutual
  pub data Tree : Type 0 where
    null : Tree
    boolean : Bool → Tree
    string : String → Tree
    number : ℤ → Tree
    array : Trees → Tree
    object : Fields → Tree

  pub data Trees : Type 0 where
    end : Trees
    also : Tree → Trees → Trees

  pub data Fields : Type 0 where
    nil : Fields
    cons : String → Tree → Fields → Fields

abbrev elements : List Tree → Trees
elements [] = end
elements (t ∷ ts) = also t (elements ts)

abbrev pub fields : Dict String Tree → Fields
fields [] = nil
fields ((k, t) ∷ ts) = cons k t (fields ts)

abbrev entries : Fields → Dict String Tree
entries nil = []
entries (cons k t f) = (k, t) ∷ entries f

pub entries-fields : (d : Dict String Tree) → entries (fields d) ≡ d
entries-fields [] = refl
entries-fields ((k, t) ∷ d) = ap (λ l. (k, t) ∷ l) (entries-fields d)

abbrev tree_get : Tree → String → Option Tree
tree_get (object f) k = get (entries f) k
tree_get null k = none
tree_get (boolean b) k = none
tree_get (string s) k = none
tree_get (number n) k = none
tree_get (array ts) k = none

abbrev tree_set : Tree → String → Tree → Tree
tree_set (object f) k t = object (fields (insert (entries f) k t))
tree_set null k t = null
tree_set (boolean b) k t = null
tree_set (string s) k t = null
tree_set (number n) k t = null
tree_set (array ts) k t = null

abbrev tree_str : Tree → Option String
tree_str (string s) = some s
tree_str null = none
tree_str (boolean b) = none
tree_str (number n) = none
tree_str (array ts) = none
tree_str (object f) = none

abbrev tree_number : Tree → Option ℤ
tree_number (number n) = some n
tree_number null = none
tree_number (boolean b) = none
tree_number (string s) = none
tree_number (array ts) = none
tree_number (object f) = none

abbrev natural : Option ℤ → Option ℕ
natural none = none
natural (some (pos n)) = some n
natural (some (negsuc n)) = none

-- The parser knows the texts that it is given.
abbrev pub toy : Dict String Tree → Json
toy parsed = record {
  Value = Tree;
  from_str = λ raw. elim (get parsed raw) [ none ↦ err "expected value" | some t ↦ ok t ];
  null = null;
  boolean = boolean;
  string = string;
  number = number;
  literal = string;
  array = λ ts. array (elements ts);
  object = λ d. object (fields d);
  field = tree_get;
  set_field = tree_set;
  as_str = tree_str;
  as_i64 = tree_number;
  as_u64 = λ t. natural (tree_number t);
  field-object = λ d k. ap (λ e. get e k) (entries-fields d);
  set_field-object = λ d k v. ap (λ e. object (fields (insert e k v))) (entries-fields d);
  as_str-string = λ s. refl;
}
