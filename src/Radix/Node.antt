-- ===== src/Radix/Node.antt =====
-- `Node` of src/kv_aware_router/radix.py: a segment of the tree, and what the loops over it share.
-- A node owns its children, so a parent pointer is the place of the node in the tree, and a walk up
-- the parents is what a recursion does on its way back. Replica names are texts, tokens are numbers,
-- and a time is a number, of which the code uses only the order.
use kv_aware_router.Prelude.{
  ℕ, suc, Bool, true, false, ◌&&◌, not, List, [], ◌∷◌, String, ◌==◌, if◌then◌else◌,
}
use kv_aware_router.Dict.{Dict, has}

abbrev pub Tokens : Type 0
Tokens = List ℕ

-- `node edge depth children residents`; `cons key child rest` is an entry of `children`.
mutual
  pub data Node : Type 0 where
    node : Tokens → ℕ → Children → Dict ℕ → Node

  pub data Children : Type 0 where
    nil : Children
    cons : ℕ → Node → Children → Children

abbrev pub edge : Node → Tokens
edge (node e d cs rs) = e

abbrev pub depth : Node → ℕ
depth (node e d cs rs) = d

abbrev pub children : Node → Children
children (node e d cs rs) = cs

abbrev pub residents : Node → Dict ℕ
residents (node e d cs rs) = rs

-- `self.root` when it is made.
abbrev pub empty_root : Node
empty_root = node [] 0 nil []

-- The test of `node.children.get(tokens[i])` at one key: there is a next token, and it is the key.
abbrev pub at_key : ℕ → Tokens → Bool
at_key k [] = false
at_key k (t ∷ q) = k == t

-- `j` after the loop `while j < len(edge) and i + j < len(tokens) and edge[j] == tokens[i + j]`.
unfoldable pub shared : Tokens → Tokens → ℕ
shared [] q = 0
shared (x ∷ e) [] = 0
shared (x ∷ e) (y ∷ q) = if x == y then suc (shared e q) else 0

-- `is_tail_for`: no child is resident for the replica.
unfoldable pub is_tail_for : String → Children → Bool
is_tail_for r nil = true
is_tail_for r (cons k c cs) = not (has r (residents c)) && is_tail_for r cs
