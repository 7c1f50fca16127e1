-- ===== src/Scenario.antt =====
-- A concrete machine and concrete values, for the theorems at concrete pages.
use goombaserver.Common.{none, [], false, Bytes}
use goombaserver.Common.Int.{ℤ, pos}
use goombaserver.Nodes.{Nodes}
use goombaserver.Machine.{lnumber, string, VarTree, Link, Item, Machine}

abbrev pub no_nodes : {A : Type 0} → Nodes A
no_nodes = record { live = []; free = []; next = 1 }

abbrev pub no_var : VarTree ℤ
no_var = record {
  kind = lnumber;
  count = 0;
  name = [];
  strval = none;
  iname = none;
  intval = pos 0;
  douval = pos 0;
  flag = pos 0;
  scope = 0;
  left = none;
  right = none;
  next = none;
  prev = Link.null;
  lacc = Link.null;
  lastnode = none;
  deleted = false;
  allocated = 0;
}

-- The interpreter at the second line of a page.
abbrev pub start : Machine ℤ
start = record {
  expr = [];
  vars = λ n. no_var;
  conds = no_nodes;
  matches = no_nodes;
  braces = no_nodes;
  cond_marks = no_nodes;
  match_marks = no_nodes;
  brace_marks = no_nodes;
  whiles = no_nodes;
  while_marks = no_nodes;
  switches = no_nodes;
  switch_marks = no_nodes;
  lexer = record {
    seek_pos = 20;
    pa_pos = 50;
    linenumber = 3;
    tokenmarker = 2;
    state = 1;
    iterwhile = 0;
  };
  errors = [];
}

abbrev pub number : ℤ → Item ℤ
number z = record { kind = lnumber; strval = []; intval = z; douval = z; var = none; flag = false }

abbrev pub text : Bytes → Item ℤ
text s = record {
  kind = string;
  strval = s;
  intval = pos 0;
  douval = pos 0;
  var = none;
  flag = false;
}
