-- ===== src/World.antt =====
-- server/localserver.cpp: `loadWorld` and `loadMobGroup`, over the parameters of Xml.
pub mod Loading
pub mod Numbers
pub mod Blockers
pub mod Kept
use mathlib.Core.Option
use quintses.Common.{
  ℕ, zero, suc, ◌+◌, ◌≤◌, ◌<◌, ◌^◌, ◌≡◌, Bool, true, false, ◌&&◌, ◌||◌, Option, none, some, List,
  [], ◌∷◌, ◌++◌, ltb, leb, ◌==◌, if◌then◌else◌,
}
use quintses.Common.Text.{codes}
use quintses.Xml.{Dom, Math, ◌>>=◌, child, text_of, number, parse_quaternion, parse_transform}
use quintses.Common.Int.{ℤ, pos, pos_part, neg_part, pred_ℤ, ltb_ℤ}
use quintses.Socket.{Fault, out_of_bounds, null_pointer, Result, ok, err}
use quintses.Messages.Server.{Matrix, Text}
use quintses.Server.{LocalServer, Effect, spawn_baddie, add_blocker}

-- What `istream_iterator<char>` skips.
abbrev pub is_space : ℕ → Bool
is_space c = (leb 9 c && leb c 13) || c == 32

-- `std::copy` to the begin of an empty string: the first character that is not skipped is written
-- outside it.
unfoldable pub copy_file : List ℕ → Result Text
copy_file [] = ok []
copy_file (c ∷ cs) = let rest = copy_file cs in if is_space c then rest else err out_of_bounds

module _ (dom : Dom) (math : Math) where
  open dom use {Node, parse, first_node, next_sibling, value}
  open math use {
    Float, atof, atoi, of_int, plus, minus, divide, less, Quat, quat, identity_quat, Mat, identity,
    translate, mat4_cast, times, value_ptr,
  }

  -- What `loadMobGroup` reads before its loops.
  pub record MobGroup : Type 0 where
    pub templ : Text
    pub rotation : Quat
    pub height : Float
    pub xmin : Float
    pub xmax : Float
    pub ymin : Float
    pub ymax : Float
    pub xdiv : ℤ
    pub ydiv : ℤ

  unfoldable pub read_mob_group : Option Node → Result MobGroup
  read_mob_group none = err null_pointer
  read_mob_group (some node) = do
    t ← text_of dom math node (codes "Template")
    q ← parse_quaternion dom math (first_node node (codes "Quaternion"))
    h ← number dom math node (codes "Height")
    grid ← child dom math node (codes "Grid")
    x0 ← number dom math grid (codes "xmin")
    x1 ← number dom math grid (codes "xmax")
    y0 ← number dom math grid (codes "ymin")
    y1 ← number dom math grid (codes "ymax")
    nx ← text_of dom math grid (codes "xdiv")
    ny ← text_of dom math grid (codes "ydiv")
    ok (record {
      templ = t;
      rotation = q;
      height = h;
      xmin = x0;
      xmax = x1;
      ymin = y0;
      ymax = y1;
      xdiv = atoi nx;
      ydiv = atoi ny;
    })

  -- `xdelta` and `ydelta`
  abbrev pub delta : Float → Float → ℤ → Float
  delta low high div = divide (minus high low) (of_int (pred_ℤ div))

  -- The matrix of a baddie of the group at a point.
  abbrev pub place : MobGroup → Float → Float → Matrix
  place g x y = value_ptr (times (translate identity x y g.height) (mat4_cast g.rotation))

  -- The inner loop of `loadMobGroup`, at `y` and `j`. Its counter is a `float`. Without fuel the result
  -- is none.
  unfoldable pub spawn_column :
      ℕ → MobGroup → Float → Float → Float → LocalServer → Option (LocalServer × List Effect)
  spawn_column zero g x y j s = none
  spawn_column (suc fuel) g x y j s =
      let (s', out) = spawn_baddie g.templ (place g x y) s in
      let rest =
        Option.map (λ r. (r.0, out ++ r.1))
          (spawn_column fuel g x (plus y (delta g.ymin g.ymax g.ydiv)) (plus j (of_int (pos 1)))
            s') in
      if less j (of_int g.ydiv) then rest else some (s, [])

  -- The outer loop, at `x` and `i`.
  unfoldable pub spawn_grid :
      ℕ → MobGroup → Float → Float → LocalServer → Option (LocalServer × List Effect)
  unfolding spawn_column
  spawn_grid zero g x i s = none
  spawn_grid (suc fuel) g x i s =
      let rest : Option (LocalServer × List Effect) =
        elim (spawn_column fuel g x g.ymin (of_int (pos 0)) s) [
          | none ↦ none
          | some (s', out) ↦
              Option.map (λ r. (r.0, out ++ r.1))
                (spawn_grid fuel g (plus x (delta g.xmin g.xmax g.xdiv)) (plus i (of_int (pos 1)))
                  s')
        ] in
      if less i (of_int g.xdiv) then rest else some (s, [])

  unfoldable pub load_mob_group :
      ℕ → Option Node → LocalServer → Result (Option (LocalServer × List Effect))
  unfolding read_mob_group spawn_grid
  load_mob_group fuel node s = do
    g ← read_mob_group node
    ok (spawn_grid fuel g g.xmin (of_int (pos 0)) s)

  -- What the loop over the blockers reads of a node.
  abbrev pub read_blocker : Node → Result (Text × Mat)
  read_blocker node = do
    t ← text_of dom math node (codes "Template")
    trans ← parse_transform dom math (first_node node (codes "Transform"))
    ok (t, trans)

  -- The loop of `loadWorld` over the blockers, which goes on to any next sibling.
  unfoldable pub add_blockers :
      ℕ → Option Node → LocalServer → Result (Option (LocalServer × List Effect))
  add_blockers zero next s = ok none
  add_blockers (suc fuel) none s = ok (some (s, []))
  add_blockers (suc fuel) (some node) s = do
    b ← read_blocker node
    let (s', out) = add_blocker b.0 (value_ptr b.1) s
    rest ← add_blockers fuel (next_sibling node) s'
    ok (Option.map (λ r. (r.0, out ++ r.1)) rest)

  abbrev pub set_spawn : Option Node → LocalServer → Result LocalServer
  set_spawn none s = ok s
  set_spawn (some spawn) s = do
    trans ← parse_transform dom math (first_node spawn (codes "Transform"))
    ok (record s { player_spawn = value_ptr trans })

  -- The mob group and the blockers of a root node, in the order of the code.
  abbrev pub fill_world : ℕ → Node → LocalServer → Result (Option (LocalServer × List Effect))
  fill_world fuel root s = do
    s' ← set_spawn (first_node root (codes "PlayerSpawn")) s
    mobs ← load_mob_group fuel (first_node root (codes "MobGroup")) s'
    elim mobs [
      | none ↦ ok none
      | some (s'', out) ↦ (do
        rest ← add_blockers fuel (first_node root (codes "Blocker")) s''
        ok (Option.map (λ r. (r.0, out ++ r.1)) rest))
    ]

  -- `loadWorld` behind the parse.
  unfoldable pub load_document :
      ℕ → Node → LocalServer → Result (Option (LocalServer × List Effect))
  unfolding load_mob_group add_blockers
  load_document fuel doc s = elim (first_node doc (codes "QuintsesWorld")) [
    | none ↦ ok (some (s, []))
    | some root ↦ fill_world fuel root s
  ]

  -- `loadWorld`; without a file it returns.
  unfoldable pub load_world :
      ℕ → Option (List ℕ) → LocalServer → Result (Option (LocalServer × List Effect))
  unfolding copy_file load_document
  load_world fuel none s = ok (some (s, []))
  load_world fuel (some file) s = do
    text ← copy_file file
    doc ← parse text
    load_document fuel doc s
