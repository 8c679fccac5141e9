-- ===== src/World/Numbers.antt =====
-- The identifiers of a mob group.
use mathlib.Core.List.{append_assoc, append-nil}
use quintses.Common.{
  ℕ, zero, suc, ◌+◌, ◌*◌, ◌%◌, ◌^◌, ◌≤◌, ◌<◌, ◌≡◌, refl, sym, ap, ◌∙◌, Option, some, List, [], ◌∷◌,
  ◌++◌, map, arith, length, length-append, length-map,
}
use quintses.Common.Int.{pos_part}
use quintses.Socket.{ok}
use quintses.Messages.Server.{Matrix, Text, add_char}
use quintses.Server.{LocalServer, Effect, to_physics, BaddieData, spawn_baddie, get_next_identifier}
use quintses.PhysicsIface.{add_physical}
use quintses.Xml.{Dom, Math}
use quintses.World.{MobGroup, delta, place, read_mob_group, load_mob_group}
use quintses.World.Loading.{IsCounting, spawn_all, coordinates, points, grid, load_mob_group-grid}

-- The baddies that get consecutive identifiers.
unfoldable pub numbered : Text → ℕ → ℕ → List BaddieData
numbered t id zero = []
numbered t id (suc n) = record { templ = t; id = id } ∷ numbered t (id + 1) n

-- The messages that add them to the physics engine.
unfoldable pub char_calls : Text → ℕ → List Matrix → List Effect
char_calls t id [] = []
char_calls t id (m ∷ ms) = to_physics (add_char id t m) ∷ char_calls t (id + 1) ms

spawn_all-numbered :
    (t : Text) (ms : List Matrix) (s : LocalServer)
    → s.next_id + length ms < 2 ^ 32
    → spawn_all t ms s ≡ (
      record s {
        next_id = s.next_id + length ms;
        baddies = s.baddies ++ numbered t s.next_id (length ms);
      },
      char_calls t s.next_id ms,
    )
unfolding spawn_all numbered char_calls spawn_baddie get_next_identifier add_physical
spawn_all-numbered t [] s room =
    let same : s.next_id ≡ s.next_id + 0 = omega arith in
    ap (λ n. (record s { next_id = n }, [])) same
    ∙ ap (λ l. (record s { next_id = s.next_id + 0; baddies = l }, [])) (sym (append-nil s.baddies))
spawn_all-numbered t (m ∷ ms) s room =
    let wrap : (s.next_id + 1) % 2 ^ 32 ≡ s.next_id + 1 = omega arith in
    let count : s.next_id + 1 + length ms ≡ s.next_id + suc (length ms) = omega arith in
    let first : List BaddieData = record { templ = t; id = s.next_id } ∷ [] in
    rw
      (
        wrap,
        spawn_all-numbered t ms (record s { next_id = s.next_id + 1; baddies = s.baddies ++ first })
            (omega arith),
        count,
        append_assoc s.baddies first (numbered t (s.next_id + 1) (length ms)),
      )
      refl

length-points :
    (dom : Dom) (math : Math) (g : MobGroup dom math) (xs ys : List math.Float)
    → length (points dom math g xs ys) ≡ length xs * length ys
unfolding points
length-points dom math g [] ys = omega arith
length-points dom math g (x ∷ xs) ys = grind (
  arith,
  length-append (map (place dom math g x) ys) (points dom math g xs ys),
  length-map (place dom math g x) ys,
  length-points dom math g xs ys,
)

length-coordinates :
    (dom : Dom) (math : Math) (start step : math.Float) (n : ℕ)
    → length (coordinates dom math start step n) ≡ n
unfolding coordinates
length-coordinates dom math start step zero = refl
length-coordinates dom math start step (suc n) =
    ap suc (length-coordinates dom math (math.plus start step) step n)

length-grid :
    (dom : Dom) (math : Math) (g : MobGroup dom math)
    → length (grid dom math g) ≡ pos_part g.xdiv * pos_part g.ydiv
length-grid dom math g =
    let xstep = delta dom math g.xmin g.xmax g.xdiv in
    let ystep = delta dom math g.ymin g.ymax g.ydiv in
    let ys = coordinates dom math g.ymin ystep (pos_part g.ydiv) in
    length-points dom math g (coordinates dom math g.xmin xstep (pos_part g.xdiv)) ys
    ∙ ap (λ n. n * length ys) (length-coordinates dom math g.xmin xstep (pos_part g.xdiv))
    ∙ ap (λ n. pos_part g.xdiv * n) (length-coordinates dom math g.ymin ystep (pos_part g.ydiv))

-- With at most 2 ^ 24 columns and rows, on which a `float` counts exactly, more fuel than both
-- together, and identifiers left for all of them, a group of m columns and n rows adds m * n
-- baddies of its template behind the others, numbers them consecutively from the counter on, and
-- creates a character for each of them, at the points of the grid.
pub load_mob_group-numbered :
    (dom : Dom) (math : Math) (g : MobGroup dom math) (fuel : ℕ) (group : Option dom.Node)
    (s : LocalServer)
    → IsCounting math
    → read_mob_group dom math group ≡ ok g
    → pos_part g.xdiv ≤ 2 ^ 24
    → pos_part g.ydiv ≤ 2 ^ 24
    → pos_part g.xdiv + pos_part g.ydiv < fuel
    → s.next_id + pos_part g.xdiv * pos_part g.ydiv < 2 ^ 32
    → let n = pos_part g.xdiv * pos_part g.ydiv in
      load_mob_group dom math fuel group s
      ≡ ok (
          some (
            record s {
              next_id = s.next_id + n;
              baddies = s.baddies ++ numbered g.templ s.next_id n;
            },
            char_calls g.templ s.next_id (grid dom math g),
          ))
load_mob_group-numbered dom math g fuel group s counting e b c lt room =
    let size = length-grid dom math g in
    load_mob_group-grid dom math counting g fuel group s e b c lt
    ∙ ap (λ r. ok (some r)) (spawn_all-numbered g.templ (grid dom math g) s (rw size room))
    ∙ ap
        (λ n. ok (
          some (
            record s {
              next_id = s.next_id + n;
              baddies = s.baddies ++ numbered g.templ s.next_id n;
            },
            char_calls g.templ s.next_id (grid dom math g),
          )))
        size
