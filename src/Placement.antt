-- ===== src/Placement.antt =====
-- The node constraints of a pod: `NodeRequirement`, `NodeSelectorTerm` and `NodePlacement` of
-- app/k8s_client.py, and the integers that Gt and Lt compare.
use Prim.Native.Char.{code}
use mathlib.Core.Option
use gpu_reservation_controll.Base.{
  ℕ, String, Option, none, some, Bool, true, false, ◌==◌, ◌&&◌, not, List, [], ◌∷◌, Dict, get,
  get_or, contains, keep, any, all, if◌then◌else◌, ℤ, pos, sub_ℕ, ltb_ℤ, is_none, leb, ◌+◌, ◌*◌,
  ◌-◌, string_eq, nat_eq, option_eq,
}

pub record NodeRequirement : Type 0 where
  pub key : String
  pub operator : String
  pub values : List String

pub record NodeSelectorTerm : Type 0 where
  pub match_expressions : List NodeRequirement
  pub match_fields : List NodeRequirement

pub record NodePlacement : Type 0 where
  pub node_selector : List (String × String)
  pub affinity_terms : Option (List NodeSelectorTerm)

abbrev is_empty {ℓ} : {A : Type ℓ} → List A → Bool
is_empty [] = true
is_empty (x ∷ xs) = false

-- `value is not None and value in values`.
abbrev value_in : Option String → List String → Bool
value_in none vs = false
value_in (some v) vs = contains v vs

-- The code points of a text.
abbrev codes : String → List ℕ
codes String.[] = []
codes (String.◌∷◌ c s) = code c ∷ codes s

-- `[0-9]+` and its value, with what was read before it.
abbrev digits : ℕ → List ℕ → Option ℕ
digits n [] = some n
digits n (c ∷ cs) =
    let rest = digits (n * 10 + (c - b'0')) cs in if leb b'0' c && leb c b'9' then rest else none

abbrev some_digits : List ℕ → Option ℕ
some_digits [] = none
some_digits (c ∷ cs) = digits 0 (c ∷ cs)

abbrev signed : List ℕ → Option ℤ
signed [] = none
signed (c ∷ cs) =
    if c == b'-'
    then Option.map (λ n. sub_ℕ 0 n) (some_digits cs)
    else (if c == b'+'
        then Option.map pos (some_digits cs)
        else Option.map pos (some_digits (c ∷ cs)))

-- `_GO_INT_RE.fullmatch` and `int`: the integer that a text writes.
unfoldable pub go_int : String → Option ℤ
go_int s = signed (codes s)

abbrev compare_values : Bool → Option ℤ → Option ℤ → Bool
compare_values gt none bound = false
compare_values gt (some a) none = false
compare_values gt (some a) (some b) = if gt then ltb_ℤ b a else ltb_ℤ a b

-- Gt and Lt want the label and one bound, both of them integers.
abbrev compares : Bool → Option String → List String → Bool
compares gt none vs = false
compares gt (some v) [] = false
compares gt (some v) (b ∷ []) = compare_values gt (go_int v) (go_int b)
compares gt (some v) (b ∷ c ∷ vs) = false

unfoldable pub requirement_matches : NodeRequirement → Option String → Bool
requirement_matches q value =
    if q.operator == "In"
    then value_in value q.values
    else (if q.operator == "NotIn"
        then not (value_in value q.values)
        else (if q.operator == "Exists"
            then not (is_none value)
            else (if q.operator == "DoesNotExist"
                then is_none value
                else compares (q.operator == "Gt") value q.values)))

-- An empty term matches no node.
unfoldable pub term_matches : NodeSelectorTerm → String → Dict String String → Bool
term_matches t node_name labels =
    if is_empty t.match_expressions && is_empty t.match_fields
    then false
    else all (λ q. requirement_matches q (get q.key labels)) t.match_expressions
      && all (λ q. requirement_matches q (some node_name)) t.match_fields

unfoldable pub placement_matches : NodePlacement → String → Dict String String → Bool
placement_matches p node_name labels =
    if any (λ kv. not (get kv.0 labels == some kv.1)) p.node_selector
    then false
    else elim p.affinity_terms [
      | none ↦ true
      | some ts ↦ any (λ t. term_matches t node_name labels) ts
    ]

unfoldable pub matching_nodes :
    NodePlacement → List String → Dict String (Dict String String) → List String
matching_nodes p node_names labels_by_node =
    keep (λ n. placement_matches p n (get_or n labels_by_node [])) node_names
