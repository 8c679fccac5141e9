-- ===== src/Xml.antt =====
-- core/util/xml_helpers.hpp: `parseTransform` and `parseQuaternion`. The documents of rapidxml, the
-- matrices of glm and the type `float` are the parameters `Dom` and `Math`.
pub mod Handles
use quintses.Common.{ℕ, Bool, Option, none, some}
use quintses.Common.Text.{codes}
use quintses.Common.Int.{ℤ}
use quintses.Socket.{null_pointer, Result, ok, err}
use quintses.Messages.Server.{Matrix, Text}

-- rapidxml: `parse` of a text, and `first_node`, `next_sibling` and `value` of a node.
pub record Dom : Type 1 where
  pub Node : Type 0
  pub parse : Text → Result Node
  pub first_node : Node → Text → Option Node
  pub next_sibling : Node → Option Node
  pub value : Node → Text

-- `float` with what the code does on it, and glm. `quat` takes its numbers in the order of the calls.
pub record Math : Type 1 where
  pub Float : Type 0
  pub atof : Text → Float
  pub atoi : Text → ℤ
  pub of_int : ℤ → Float
  pub plus : Float → Float → Float
  pub minus : Float → Float → Float
  pub divide : Float → Float → Float
  pub less : Float → Float → Bool
  pub Quat : Type 0
  pub quat : Float → Float → Float → Float → Quat
  pub identity_quat : Quat
  pub Mat : Type 0
  pub identity : Mat
  pub translate : Mat → Float → Float → Float → Mat
  pub mat4_cast : Quat → Mat
  pub times : Mat → Mat → Mat
  pub value_ptr : Mat → Matrix

infixl 5 ◌>>=◌
abbrev pub ◌>>=◌ {ℓ κ} : {A : Type ℓ} {B : Type κ} → Result A → (A → Result B) → Result B
ok a >>= f = f a
err e >>= f = err e

module _ (dom : Dom) (math : Math) where
  open dom use {Node, parse, first_node, next_sibling, value}
  open math use {
    Float, atof, atoi, of_int, plus, minus, divide, less, Quat, quat, identity_quat, Mat, identity,
    translate, mat4_cast, times, value_ptr,
  }

  -- A node that the code follows without a test.
  abbrev pub child : Node → Text → Result Node
  child node name = elim (first_node node name) [ none ↦ err null_pointer | some n ↦ ok n ]

  abbrev pub text_of : Node → Text → Result Text
  text_of node name = do n ← child node name; ok (value n)

  abbrev pub number : Node → Text → Result Float
  number node name = do n ← child node name; ok (atof (value n))

  -- `parseQuaternion`
  unfoldable pub parse_quaternion : Option Node → Result Quat
  parse_quaternion none = ok identity_quat
  parse_quaternion (some node) = do
    x ← number node (codes "X")
    y ← number node (codes "Y")
    z ← number node (codes "Z")
    w ← number node (codes "W")
    ok (quat x y z w)

  -- The two parts of `parseTransform`.
  abbrev pub parse_position : Option Node → Mat → Result Mat
  parse_position none trans = ok trans
  parse_position (some node) trans = do
    x ← number node (codes "X")
    y ← number node (codes "Y")
    z ← number node (codes "Z")
    ok (translate trans x y z)

  abbrev pub parse_rotation : Option Node → Mat → Result Mat
  parse_rotation none trans = ok trans
  parse_rotation (some node) trans = do
    x ← number node (codes "X")
    y ← number node (codes "Y")
    z ← number node (codes "Z")
    w ← number node (codes "W")
    ok (times trans (mat4_cast (quat x y z w)))

  unfoldable pub parse_transform : Option Node → Result Mat
  parse_transform none = ok identity
  parse_transform (some node) = do
    trans ← parse_position (first_node node (codes "Position")) identity
    parse_rotation (first_node node (codes "Quaternion")) trans
