-- ===== src/Gateway/Samples.antt =====
-- A small JSON of trees, and messages of a client and of a server as lines of one letter.
use quantmlayer.Prelude.{Bool, true, false, Option, none, some, List, [], ◌∷◌, if◌then◌else◌}
use quantmlayer.Text.{Text, codes, text_eq}
use quantmlayer.Gateway.{Shape, null, bool, number, string, array, object, Json}

mutual
  pub data Tree : Type 0 where
    leaf : Tree
    truth : Bool → Tree
    digits : Bool → Text → Tree
    quoted : Text → Tree
    sequence : Trees → Tree
    mapping : Entries → Tree

  pub data Trees : Type 0 where
    nil : Trees
    cons : Tree → Trees → Trees

  pub data Entries : Type 0 where
    end : Entries
    field : Text → Tree → Entries → Entries

abbrev pub trees : Trees → List Tree
trees nil = []
trees (cons t ts) = t ∷ trees ts

abbrev pub entries : Entries → List (Text × Tree)
entries end = []
entries (field k t es) = (k, t) ∷ entries es

abbrev pub of_list : List Tree → Trees
of_list [] = nil
of_list (t ∷ ts) = cons t (of_list ts)

abbrev pub of_entries : List (Text × Tree) → Entries
of_entries [] = end
of_entries (e ∷ es) = field (e.0) (e.1) (of_entries es)

abbrev pub tree_shape : Tree → Shape Tree
tree_shape leaf = null
tree_shape (truth b) = bool b
tree_shape (digits whole text) = number whole text
tree_shape (quoted s) = string s
tree_shape (sequence ts) = array (trees ts)
tree_shape (mapping es) = object (entries es)

abbrev pub of_shape : Shape Tree → Tree
of_shape null = leaf
of_shape (bool b) = truth b
of_shape (number whole text) = digits whole text
of_shape (string s) = quoted s
of_shape (array vs) = sequence (of_list vs)
of_shape (object m) = mapping (of_entries m)

-- A call of a tool with one argument `path`.
abbrev pub call : Text → Tree → Tree
call name path = mapping (
    field (codes "method") (quoted (codes "tools/call")) (
      field (codes "id") (digits true (codes "7")) (
        field (codes "params")
          (mapping (
            field (codes "name") (quoted name)
              (field (codes "arguments") (mapping (field (codes "path") path end)) end)))
          end)))

-- The answer to `tools/list`, with one tool whose argument `path` is a required text.
abbrev pub listing : Tree
listing = mapping (
    field (codes "id") (quoted (codes "__ql_gateway_tools_list__")) (
      field (codes "result")
        (mapping (
          field (codes "tools")
            (sequence (
              cons
                (mapping (
                  field (codes "name") (quoted (codes "read")) (
                    field (codes "inputSchema")
                      (mapping (
                        field (codes "required") (sequence (cons (quoted (codes "path")) nil)) (
                          field (codes "properties")
                            (mapping (
                              field (codes "path")
                                (mapping (field (codes "type") (quoted (codes "string")) end)) end))
                            (field (codes "additionalProperties") (truth false) end))))
                      end)))
                nil))
            end))
        end))

-- The lines `r`, `w` and `d` are calls, `l` is the listing, and others are no JSON.
abbrev pub read_line : Text → Option Tree
unfolding text_eq
read_line line =
    if text_eq line (codes "r")
    then some (call (codes "read") (quoted (codes "a")))
    else if text_eq line (codes "w")
    then some (call (codes "read") (truth true))
    else if text_eq line (codes "d")
    then some (call (codes "drop") (quoted (codes "a")))
    else if text_eq line (codes "l")
    then some listing
    else none

abbrev pub toy_json : Json
toy_json = record {
  Value = Tree;
  shape = tree_shape;
  make = of_shape;
  from_str = read_line;
  to_string = λ v. codes "error";
}
