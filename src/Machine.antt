-- ===== src/Machine.antt =====
-- The state that the interpreter's source files keep in static variables, as one record: the data
-- types of src/GOOMBAServer.h and what src/stack.c, src/cond.c, src/while.c, src/switch.c and
-- src/lex.c hold.
use goombaserver.Common.{ℕ, ◌≡◌, Bool, Option, none, some, List, [], ◌∷◌, String, Bytes}
use goombaserver.Common.Int.{ℤ}
use goombaserver.Nodes.{Nodes}

-- The token codes LNUMBER, DNUMBER, STRING, VAR and ARRAY that a value's `type` may be.
pub data Kind : Type 0 where
  lnumber dnumber string variable array : Kind

-- The pointers of an array's nodes: NULL, the mark -1 for "before the first", or a node.
pub data Link : Type 0 where
  null start : Link
  node : ℕ → Link

-- A node of the variable tree; a pointer to one is its address. `D` is the type of C's doubles.
pub record VarTree (D : Type 0) : Type 0 where
  pub kind : Kind
  pub count : ℕ
  pub name : Bytes
  pub strval : Option Bytes
  pub iname : Option Bytes
  pub intval : ℤ
  pub douval : D
  pub flag : ℤ
  pub scope : ℕ
  pub left : Option ℕ
  pub right : Option ℕ
  pub next : Option ℕ
  pub prev : Link
  pub lacc : Link
  pub lastnode : Option ℕ
  pub deleted : Bool
  pub allocated : ℕ

-- A node of the expression stack. `flag` is written only where `var` is set.
pub record Item (D : Type 0) : Type 0 where
  pub kind : Kind
  pub strval : Bytes
  pub intval : ℤ
  pub douval : D
  pub var : Option ℕ
  pub flag : Bool

pub record CondStack : Type 0 where
  pub state : ℤ
  pub active : ℤ

-- The tokens that stand on the stack of open braces.
pub data Token : Type 0 where
  end_if end_while end_switch : Token

pub record WhileStack : Type 0 where
  pub seekpos : ℕ
  pub offset : ℕ
  pub state : ℤ
  pub lineno : ℕ

pub record SwitchStack (D : Type 0) : Type 0 where
  pub kind : Kind
  pub matched : ℤ
  pub intval : ℤ
  pub douval : D
  pub strval : Bytes

-- The statics of src/lex.c that a loop moves.
pub record Lexer : Type 0 where
  pub seek_pos : ℕ
  pub pa_pos : ℕ
  pub linenumber : ℕ
  pub tokenmarker : ℕ
  pub state : ℕ
  pub iterwhile : ℕ

pub record Machine (D : Type 0) : Type 0 where
  pub expr : List (Item D)
  pub vars : ℕ → VarTree D
  pub conds : Nodes CondStack
  pub matches : Nodes ℤ
  pub braces : Nodes Token
  pub cond_marks : Nodes (Option ℕ)
  pub match_marks : Nodes (Option ℕ)
  pub brace_marks : Nodes (Option ℕ)
  pub whiles : Nodes WhileStack
  pub while_marks : Nodes (Option ℕ)
  pub switches : Nodes (SwitchStack D)
  pub switch_marks : Nodes (Option ℕ)
  pub lexer : Lexer
  pub errors : List String

module _ {D : Type 0} where
  -- `Error`: the message is reported, newest first here, and the handler goes on.
  abbrev pub error : String → Machine D → Machine D
  error message m = record m { errors = message ∷ m.errors }

  pop_with : List (Item D) → Machine D → Option (Item D × Machine D)
  pop_with [] m = none
  pop_with (s ∷ rest) m = some (s, record m { expr = rest })

  -- `Pop`: `none` is the NULL that it returns on an empty stack.
  unfoldable pub pop : Machine D → Option (Item D × Machine D)
  unfolding pop_with
  pop m = pop_with m.expr m

  pop_with_rest :
      (l : List (Item D)) (m : Machine D) {s : Item D} {m' : Machine D}
      → pop_with l m ≡ some (s, m')
      → (rest : List (Item D)) × (m' ≡ record m { expr = rest })
  unfolding pop_with
  pop_with_rest [] m e = cc
  pop_with_rest (x ∷ rest) m e = (rest, cc)

  -- A pop changes nothing but the expression stack.
  pub pop_rest :
      (m : Machine D) {s : Item D} {m' : Machine D}
      → pop m ≡ some (s, m')
      → (rest : List (Item D)) × (m' ≡ record m { expr = rest })
  unfolding pop
  pop_rest m e = pop_with_rest m.expr m e
