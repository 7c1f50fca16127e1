-- ===== src/Lib.antt =====
-- The core of GOOMBAServer, an interpreter for HTML pages with embedded script.
--
-- The parser (src/parse.raw) recognises a statement and calls a handler. The handlers of if, else,
-- elseif and endif (src/cond.c), of while and endwhile (src/while.c) and of switch, case, default,
-- break and endswitch (src/switch.c) keep linked stacks: conditions, matches, open braces, loops,
-- switches, and marks into each of them. The top of the stack of conditions says whether code is
-- executed; a handler takes its condition's value from the expression stack (src/stack.c); a loop
-- moves the lexer's position back (src/lex.c). A call of a function or an eval pushes marks into
-- the first three before, and unwinds the conditions and matches to them behind.
--
-- Files:
--   Common and its children: shared names, Boolean tests, lists, and integers over the native numbers.
--   Nodes: the linked stacks, `Nodes`: nodes with an address, the top pointer, the re-use stack. Push,
--     recycle (a pop onto the re-use stack), discard (a pop that forgets the node), unwind (the loop
--     that pops to a mark). Nodes/Separate: nodes do not alias; unwinding gives back the marked stack.
--   Machine: the record of the static variables, and `Pop` of src/stack.c.
--   Cond: src/cond.c; `if_handler` is `If`, and so on. Cond/Program: the language of structured
--     conditionals, its tokens and its meaning without a stack. Cond/Steps, Cond/Opened,
--     Cond/Blocks, Cond/Chains, Cond/Structured: the tokens print the meaning. Cond/Apart: the aliasing
--     invariant. Cond/Frame: what conditionals do not touch. Cond/Marks: calls. Cond/Narrow: conditions
--     as `int`.
--   While: src/while.c with `WhileAgain`, `NewWhileIteration` and the word `while` of src/lex.c.
--     While/Steps, While/Rounds, While/Loop: a whole loop, with the rest of the line of its endwhile. While/Stale: a word taken for an old loop's.
--   Floats: C's doubles, a parameter of the model: comparisons, arithmetic, conversions, `atof` and
--     `sprintf` of them.
--   Switch: src/switch.c. Grammar: the rules of src/parse.raw that decide in which state a handler of a
--     loop or a switch is called. Grammar/Choice, Grammar/Stages, Grammar/Meaning: a whole switch.
--   Numerals: `sprintf` of whole numbers and `atol`, of the C library. Expr: `Logic`, `Compare` and
--     `Not` of src/cond.c, and the part of `Push` of src/stack.c that takes numbers. Expr/Results,
--     Expr/Negation: the operators among each other. Bases: `BinDec`, `HexDec`, `OctDec` of
--     src/calc.c.
--   Text: `UrlEncode` of src/string.c and `parse_url`, `CheckResult` of src/post.c, with
--     Text/RoundTrip and Text/Fields; Text/Pieces, Text/Slices: `QuoteMeta`, `SubStr` and the case
--     of letters. Format: `FormatCheck` of src/echo.c, a state machine over the bytes of a format
--     string. Format/Directives: what a directive is. Format/Sound: it finds those and no others;
--     Format/Unterminated: the end of the text.
--   Ident: src/type.c, with Ident/Counting and Ident/Index. Pool: the accounting of src/pool.c in
--     the build without Apache. Access: `StrtoAccess` of src/acc.c; Access/Written: the text that
--     it reads.
--   Vars: of src/var.c the search of a name (`get_node` for `GetVar`, `set_node` for `SetVar`) and
--     the stack of frames; Vars/Lookup, Vars/Calls. VarExamples: these, Subst, Sort and Date at concrete
--     inputs.
--   Vars/Values: what `SetVar` does to the value of a variable that exists, `set_value`, and of an
--     element, `set_element`. Vars/Values/Fits: the buffer; Vars/Values/Agrees: text and number.
--   Arrays: the nodes of arrays in src/var.c: `append`, `set_index` and `set_simple` are `SetVar` with the
--     modes 1, 2 and 0, `get_index` is `GetVar` with an index. Arrays/Lists: arrays as lists.
--     Arrays/Chain, Arrays/Extend: nodes in order, and a node more. Arrays/Slots, Arrays/Find: the two
--     searches. Arrays/Append, Arrays/Assign, Arrays/Unset: assignments. Arrays/Copy, Arrays/Whole,
--     Arrays/Duplicate, Arrays/Endless: `copyarray`. Arrays/Cursor: `Reset`, `Next`, `Key`, `ArrayMax`
--     and the like. ArrayExamples: these at concrete variables.
--   Subst: `SubVar` of src/var.c; Subst/Pieces: templates; Subst/Lost: a full buffer.
--   Sort: src/sort.c; Sort/Contract: what `qsort` promises; Sort/Insertion: a sort that keeps it;
--     Sort/Sorted: a sorted array.
--   Date: of src/date.c the loop of `Date`, `write_date`, and `MkTime`; Date/Room: the buffer of `Date`.
--   Input: of src/lex.c the input line, `next_char` for `getnextchar`, the stack of files and functions,
--     and `RunFunc` up to the parser. Input/Lines: the line from a later byte; Input/Resume: the return
--     to a caller; Input/Ends: the end of a text; Input/Body: the body that
--     `DefineFunc` stores. InputExamples: these at a small page.
--   Scenario: a concrete machine. TextExamples: the theorems on texts, formats and numbers at
--     inputs.
--   Examples: the theorems at concrete pages.
--
-- A pointer is an address, NULL is `none`; a handler that reads or writes through NULL returns
-- `none`. An error is its message on `errors`; what Error prints around it and the variable that
-- it sets are left out. Integers are unbounded where the source only compares them, and
-- `CheckCond` narrows to 32 bits as the source does. Loops over a stack recur on its nodes. A
-- whole loop runs on the list of the values that its condition takes, and one value for every
-- test is enough. `check_fields` and the digits of a number run on fuel, the length of the text
-- and the number itself, and that is enough. The loops over an array run on fuel, and each
-- theorem on them says how much is enough; `sub_var` runs on the length of its text and one
-- more. `fill` runs on the room in the line's buffer, where the source stops, too, and
-- `find_open` on fuel above the place that it looks for.
--
-- Not modelled: the parser's tables (generated), scopes and environment variables in `SetVar`
-- and `GetVar`, the token loop of the lexer, all of `DefineFunc` but the body that it stores,
-- the block allocator (taken over from Apache), input and output, and calls of libraries.
pub mod Access
pub mod Arrays
pub mod Bases
pub mod Common
pub mod Cond
pub mod Date
pub mod Expr
pub mod Floats
pub mod Format
pub mod Grammar
pub mod Ident
pub mod Input
pub mod Machine
pub mod Nodes
pub mod Numerals
pub mod Pool
pub mod Scenario
pub mod Sort
pub mod Subst
pub mod Switch
pub mod Text
pub mod Vars
pub mod While
mod ArrayExamples
mod Examples
mod InputExamples
mod TextExamples
mod VarExamples
