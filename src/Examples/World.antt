-- ===== src/Examples/World.antt =====
-- A small document, with numbers in place of floats.
use quintses.Common.{
  ℕ, ◌+◌, ◌-◌, ◌/◌, ◌*◌, ◌≡◌, refl, ap, Option, none, some, List, [], ◌∷◌, ◌++◌, ltb, arith,
  if◌then◌else◌,
}
use quintses.Common.Text.{text_eq, codes}
use quintses.Common.Int.{pos, pos_part, pred_ℤ}
use quintses.Socket.{ok}
use quintses.Messages.Server.{Text}
use quintses.Server as Model
use quintses.Server.{LocalServer, Effect, to_physics, add_blocker}
use quintses.Xml.{Dom, Math, parse_quaternion, parse_transform}
use quintses.World.{MobGroup, read_mob_group, load_mob_group, add_blockers}
use quintses.World.Loading.{IsCounting, spawn_all, points, coordinates, grid, load_mob_group-grid}
use quintses.World.Numbers.{numbered, char_calls, load_mob_group-numbered}
use quintses.World.Blockers.{HasSiblings, read_all, add_all, add_blockers-read_all}

-- A node with what follows it: its name, value and children, and the nodes behind it.
pub data Nodes : Type 0 where
  ends : Nodes
  element : Text → Text → Nodes → Nodes → Nodes

unfoldable pub named : Text → Nodes → Option Nodes
named t ends = none
named t (element name value children behind) =
    let rest = named t behind in
    if text_eq name t then some (element name value children behind) else rest

abbrev first : Nodes → Text → Option Nodes
first ends t = none
first (element name value children behind) t = named t children

abbrev next : Nodes → Option Nodes
next ends = none
next (element name value children ends) = none
next (element name value children (element n v c b)) = some (element n v c b)

abbrev text : Nodes → Text
text ends = []
text (element name value children behind) = value

abbrev pub tree : Dom
tree = record {
  Node = Nodes;
  parse = λ t. ok ends;
  first_node = first;
  next_sibling = next;
  value = text;
}

abbrev siblings : Nodes → List Nodes
siblings ends = []
siblings (element name value children ends) = []
siblings (element name value children (element n v c b)) =
    element n v c b ∷ siblings (element n v c b)

last_none : (n : Nodes) → next n ≡ none → siblings n ≡ []
last_none ends h = refl
last_none (element name value children ends) h = refl
last_none (element name value children (element n v c b)) h = cc

walks : (n m : Nodes) → next n ≡ some m → siblings n ≡ m ∷ siblings m
walks ends m h = cc
walks (element name value children ends) m h = cc
walks (element name value children (element n v c b)) m h =
    ap (λ o. elim o [ none ↦ [] | some found ↦ found ∷ siblings found ]) h

tree-HasSiblings : HasSiblings tree
tree-HasSiblings = record { siblings = siblings; last = last_none; walk = walks }

-- Decimal digits.
abbrev digits : ℕ → Text → ℕ
digits n [] = n
digits n (c ∷ cs) = digits (10 * n + (c - 48)) cs

abbrev pub numbers : Math
numbers = record {
  Float = ℕ;
  atof = digits 0;
  atoi = λ t. pos (digits 0 t);
  of_int = pos_part;
  plus = λ a b. a + b;
  minus = λ a b. a - b;
  divide = λ a b. a / b;
  less = ltb;
  Quat = List ℕ;
  quat = λ x y z w. x ∷ y ∷ z ∷ w ∷ [];
  identity_quat = 0 ∷ 0 ∷ 0 ∷ 1 ∷ [];
  Mat = List ℕ;
  identity = [];
  translate = λ m x y z. m ++ x ∷ y ∷ z ∷ [];
  mat4_cast = λ q. q;
  times = λ m n. m ++ n;
  value_ptr = λ m. m;
}

numbers-IsCounting : IsCounting numbers
numbers-IsCounting = record { next = λ n h. omega arith; below = λ n k h h'. refl }

abbrev leaf : Text → Text → Nodes → Nodes
leaf name value behind = element name value ends behind

abbrev group_node : Nodes
group_node =
    element (codes "MobGroup") []
      (leaf (codes "Template") (codes "B") (
        leaf (codes "Height") (codes "2") (
          element (codes "Grid") []
            (leaf (codes "xmin") (codes "0") (
              leaf (codes "xmax") (codes "4") (
                leaf (codes "ymin") (codes "10") (
                  leaf (codes "ymax") (codes "16")
                    (leaf (codes "xdiv") (codes "2") (leaf (codes "ydiv") (codes "2") ends))))))
            ends)))
      ends

abbrev group : MobGroup tree numbers
group = record {
  templ = codes "B";
  rotation = 0 ∷ 0 ∷ 0 ∷ 1 ∷ [];
  height = 2;
  xmin = 0;
  xmax = 4;
  ymin = 10;
  ymax = 16;
  xdiv = pos 2;
  ydiv = pos 2;
}

reads_group : read_mob_group tree numbers (some group_node) ≡ ok group
unfolding read_mob_group named text_eq parse_quaternion
reads_group = refl

abbrev server : LocalServer
server = Model.init []

load_mob_group-grid_example :
    load_mob_group tree numbers 5 (some group_node) server
    ≡ ok (some (spawn_all (codes "B") (grid tree numbers group) server))
load_mob_group-grid_example =
    load_mob_group-grid tree numbers numbers-IsCounting group 5 (some group_node) server reads_group
      (omega arith) (omega arith) (omega arith)

load_mob_group-numbered_example :
    load_mob_group tree numbers 5 (some group_node) server
    ≡ ok (
        some (
          record server { next_id = 5; baddies = numbered (codes "B") 1 4 },
          char_calls (codes "B") 1 (
              (0 ∷ 10 ∷ 2 ∷ 0 ∷ 0 ∷ 0 ∷ 1 ∷ [])
              ∷ (0 ∷ 16 ∷ 2 ∷ 0 ∷ 0 ∷ 0 ∷ 1 ∷ [])
              ∷ (4 ∷ 10 ∷ 2 ∷ 0 ∷ 0 ∷ 0 ∷ 1 ∷ [])
              ∷ (4 ∷ 16 ∷ 2 ∷ 0 ∷ 0 ∷ 0 ∷ 1 ∷ [])
              ∷ []),
        ))
unfolding Model.init points coordinates pred_ℤ
load_mob_group-numbered_example =
    load_mob_group-numbered tree numbers group 5 (some group_node) server numbers-IsCounting
      reads_group (omega arith) (omega arith) (omega arith) (omega arith)

abbrev blocker_nodes : Nodes
blocker_nodes =
    element (codes "Blocker") [] (leaf (codes "Template") (codes "Floor") ends)
      (element (codes "Other") [] (leaf (codes "Template") (codes "LWall") ends) ends)

add_blockers-read_all_example :
    add_blockers tree numbers 3 (some blocker_nodes) server
    ≡ ok (some (add_all tree numbers ((codes "Floor", []) ∷ (codes "LWall", []) ∷ []) server))
unfolding read_all named text_eq parse_transform tree-HasSiblings
add_blockers-read_all_example =
    add_blockers-read_all tree numbers tree-HasSiblings 3 blocker_nodes server (omega arith)
