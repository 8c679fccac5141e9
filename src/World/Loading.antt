-- ===== src/World/Loading.antt =====
-- The loops of `loadMobGroup` and `loadWorld` against lists of what they place.

use mathlib.Core.List.{append_assoc}
use quintses.Common.{
  ℕ, zero, suc, ◌+◌, ◌^◌, ◌≤◌, ◌<◌, ◌≡◌, refl, sym, ap, true, false, Option, some, List, [], ◌∷◌,
  ◌++◌, map, arith, ltb,
}
use quintses.Common.Int.{ℤ, pos, pos_part}
use quintses.Socket.{ok}
use quintses.Messages.Server.{Matrix, Text}
use quintses.Server.{LocalServer, Effect, spawn_baddie}
use quintses.Xml.{Dom, Math}
use quintses.World.{
  MobGroup, delta, place, spawn_column, spawn_grid, read_mob_group, load_mob_group,
}

-- What the loops rely on of `float`: it counts exactly up to 2 ^ 24, and compares such a count with an
-- integer up to it.
pub record IsCounting (math : Math) : Type 0 where
  pub next :
      (n : ℕ)
      → n < 2 ^ 24
      → math.plus (math.of_int (pos n)) (math.of_int (pos 1)) ≡ math.of_int (pos (suc n))
  pub below :
      (n : ℕ) (k : ℤ)
      → n ≤ 2 ^ 24
      → pos_part k ≤ 2 ^ 24
      → math.less (math.of_int (pos n)) (math.of_int k) ≡ ltb n (pos_part k)

unfoldable pub spawn_all : Text → List Matrix → LocalServer → LocalServer × List Effect
spawn_all t [] s = (s, [])
spawn_all t (m ∷ ms) s =
    let (s', out) = spawn_baddie t m s in
    let (final, more) = spawn_all t ms s' in (final, out ++ more)

spawn_all-append :
    (t : Text) (xs ys : List Matrix) (s : LocalServer)
    → spawn_all t (xs ++ ys) s ≡ (
      (spawn_all t ys (spawn_all t xs s).0).0,
      (spawn_all t xs s).1 ++ (spawn_all t ys (spawn_all t xs s).0).1,
    )
unfolding spawn_all
spawn_all-append t [] ys s = refl
spawn_all-append t (m ∷ xs) ys s = rw (spawn_all-append t xs ys (spawn_baddie t m s).0) (
    ap (λ l. ((spawn_all t ys (spawn_all t xs (spawn_baddie t m s).0).0).0, l))
      (sym (append_assoc (spawn_baddie t m s).1 (spawn_all t xs (spawn_baddie t m s).0).1 _)))

module _ (dom : Dom) (math : Math) where
  open math use {Float, plus, of_int}

  -- Repeated addition: the coordinates that a loop visits.
  unfoldable pub coordinates : Float → Float → ℕ → List Float
  coordinates start step zero = []
  coordinates start step (suc n) = start ∷ coordinates (plus start step) step n

  unfoldable pub points : MobGroup dom math → List Float → List Float → List Matrix
  points g [] ys = []
  points g (x ∷ xs) ys = map (place dom math g x) ys ++ points g xs ys

  -- The matrices of a group: column by column.
  abbrev pub grid : MobGroup dom math → List Matrix
  grid g =
      points g (coordinates g.xmin (delta dom math g.xmin g.xmax g.xdiv) (pos_part g.xdiv))
        (coordinates g.ymin (delta dom math g.ymin g.ymax g.ydiv) (pos_part g.ydiv))

  module _ (counting : IsCounting math) (g : MobGroup dom math) where
    spawn_column_lem :
        (n j fuel : ℕ) (x y : Float) (s : LocalServer)
        → n + j ≡ pos_part g.ydiv
        → pos_part g.ydiv ≤ 2 ^ 24
        → n < fuel
        → spawn_column dom math fuel g x y (of_int (pos j)) s
          ≡ some (
              spawn_all g.templ
                (map (place dom math g x) (coordinates y (delta dom math g.ymin g.ymax g.ydiv) n))
                s)
    unfolding spawn_column spawn_all coordinates
    spawn_column_lem n j zero x y s e b lt = absurd (omega arith)
    spawn_column_lem zero j (suc fuel) x y s e b lt =
        let stop : ltb j (pos_part g.ydiv) ≡ false = ground arith in
        rw (counting.below j g.ydiv (omega arith) b, stop) refl
    spawn_column_lem (suc n) j (suc fuel) x y s e b lt =
        let more : ltb j (pos_part g.ydiv) ≡ true = ground arith in
        rw
          (
            counting.below j g.ydiv (omega arith) b,
            more,
            counting.next j (omega arith),
            spawn_column_lem n (suc j) fuel x (plus y (delta dom math g.ymin g.ymax g.ydiv))
                (spawn_baddie g.templ (place dom math g x y) s).0 (omega arith) b (omega arith),
          )
          refl

    abbrev ys : List Float
    ys = coordinates g.ymin (delta dom math g.ymin g.ymax g.ydiv) (pos_part g.ydiv)

    spawn_grid_lem :
        (n i fuel : ℕ) (x : Float) (s : LocalServer)
        → n + i ≡ pos_part g.xdiv
        → pos_part g.xdiv ≤ 2 ^ 24
        → pos_part g.ydiv ≤ 2 ^ 24
        → n + pos_part g.ydiv < fuel
        → spawn_grid dom math fuel g x (of_int (pos i)) s
          ≡ some (
              spawn_all g.templ
                (points g (coordinates x (delta dom math g.xmin g.xmax g.xdiv) n) ys)
                s)
    unfolding spawn_grid spawn_all coordinates points
    spawn_grid_lem n i zero x s e b c lt = absurd (omega arith)
    spawn_grid_lem zero i (suc fuel) x s e b c lt =
        let stop : ltb i (pos_part g.xdiv) ≡ false = ground arith in
        rw (counting.below i g.xdiv (omega arith) b, stop) refl
    spawn_grid_lem (suc n) i (suc fuel) x s e b c lt =
        let more : ltb i (pos_part g.xdiv) ≡ true = ground arith in
        let column = map (place dom math g x) ys in
        let rest =
          points g
            (coordinates (plus x (delta dom math g.xmin g.xmax g.xdiv))
              (delta dom math g.xmin g.xmax g.xdiv) n)
            ys in
        rw
          (
            counting.below i g.xdiv (omega arith) b,
            more,
            spawn_column_lem (pos_part g.ydiv) 0 fuel x g.ymin s (omega arith) c (omega arith),
            counting.next i (omega arith),
            spawn_grid_lem n (suc i) fuel (plus x (delta dom math g.xmin g.xmax g.xdiv))
                (spawn_all g.templ column s).0 (omega arith) b c (omega arith),
            spawn_all-append g.templ column rest s,
          )
          refl

    -- With at most 2 ^ 24 columns and rows, on which a `float` counts exactly, and more fuel than both
    -- together, the nested loops of `loadMobGroup` end and do what placing the points of the grid one
    -- after another does, column by column.
    pub load_mob_group-grid :
        (fuel : ℕ) (group : Option dom.Node) (s : LocalServer)
        → read_mob_group dom math group ≡ ok g
        → pos_part g.xdiv ≤ 2 ^ 24
        → pos_part g.ydiv ≤ 2 ^ 24
        → pos_part g.xdiv + pos_part g.ydiv < fuel
        → load_mob_group dom math fuel group s ≡ ok (some (spawn_all g.templ (grid g) s))
    unfolding load_mob_group
    load_mob_group-grid fuel group s e b c lt =
        rw (e, spawn_grid_lem (pos_part g.xdiv) 0 fuel g.xmin s (omega arith) b c lt) refl
