-- ===== src/World/Kept.antt =====
-- What `loadWorld` leaves as it is.
use mathlib.Core.Option
use quintses.Common.{
  ℕ, zero, suc, ◌≡◌, refl, Bool, Option, none, some, List, ◌++◌, arith, Option-cases, Bool-cases,
  inl, inr,
}
use quintses.Common.Map.{Map}
use quintses.Common.Text.{codes}
use quintses.Common.Int.{pos}
use quintses.Socket.{Result, Result-cases, ok, err}
use quintses.Server.{LocalServer, Effect, spawn_baddie, add_blocker}
use quintses.Xml.{Dom, Math, ◌>>=◌, parse_transform}
use quintses.World.{
  MobGroup, delta, place, read_mob_group, spawn_column, spawn_grid, load_mob_group, read_blocker,
  add_blockers, set_spawn, fill_world, load_document, copy_file, load_world,
}

-- `m_running`, `m_clients` and `m_lobby_clients`
abbrev pub Kept : Type 0
Kept = Bool × Map ℕ × Map (Unit {0})

abbrev pub kept : LocalServer → Kept
kept s = (s.running, s.clients, s.lobby_clients)

-- A result, if there is one, in which these are as they were.
abbrev Keeps : Kept → Option (LocalServer × List Effect) → Type 0
Keeps b none = Unit
Keeps b (some (s, out)) = kept s ≡ b

abbrev KeepsOk : Kept → Result (Option (LocalServer × List Effect)) → Type 0
KeepsOk b (err e) = Unit
KeepsOk b (ok o) = Keeps b o

Keeps-map :
    (b : Kept) (out : List Effect) (o : Option (LocalServer × List Effect))
    → Keeps b o
    → Keeps b (Option.map (λ r. (r.0, out ++ r.1)) o)
Keeps-map b out none h = tt
Keeps-map b out (some r) h = h

KeepsOk-bind {ℓ} :
    {A : Type ℓ} (b : Kept) (r : Result A) (f : A → Result (Option (LocalServer × List Effect)))
    → ((a : A) → KeepsOk b (f a))
    → KeepsOk b (r >>= f)
KeepsOk-bind b (err e) f h = tt
KeepsOk-bind b (ok a) f h = h a

KeepsOk-then :
    (b : Kept) (r : Result (Option (LocalServer × List Effect)))
    (f : Option (LocalServer × List Effect) → Result (Option (LocalServer × List Effect)))
    → KeepsOk b r
    → ((o : Option (LocalServer × List Effect)) → Keeps b o → KeepsOk b (f o))
    → KeepsOk b (r >>= f)
KeepsOk-then b (err e) f h k = tt
KeepsOk-then b (ok o) f h k = k o h

module _ (dom : Dom) (math : Math) (b : Kept) where
  open dom use {Node, first_node, next_sibling}
  open math use {less, plus, of_int, Float, value_ptr}

  spawn_column-Keeps :
      (fuel : ℕ) (g : MobGroup dom math) (x y j : Float) (s : LocalServer)
      → kept s ≡ b
      → Keeps b (spawn_column dom math fuel g x y j s)
  unfolding spawn_column spawn_baddie
  spawn_column-Keeps zero g x y j s h = tt
  spawn_column-Keeps (suc fuel) g x y j s h =
      let (s', out) = spawn_baddie g.templ (place dom math g x y) s in
      let rest =
        spawn_column-Keeps fuel g x (plus y (delta dom math g.ymin g.ymax g.ydiv))
          (plus j (of_int (pos 1))) s' h in
      elim (Bool-cases (less j (of_int g.ydiv))) [
        | inl e ↦ rw e (Keeps-map b out _ rest)
        | inr e ↦ rw e h
      ]

  spawn_grid-Keeps :
      (fuel : ℕ) (g : MobGroup dom math) (x i : Float) (s : LocalServer)
      → kept s ≡ b
      → Keeps b (spawn_grid dom math fuel g x i s)
  unfolding spawn_grid
  spawn_grid-Keeps zero g x i s h = tt
  spawn_grid-Keeps (suc fuel) g x i s h =
      let column = spawn_column-Keeps fuel g x g.ymin (of_int (pos 0)) s h in
      elim (Bool-cases (less i (of_int g.xdiv))) [
        | inr e ↦ rw e h
        | inl e ↦ elim (Option-cases (spawn_column dom math fuel g x g.ymin (of_int (pos 0)) s)) [
          | inl n ↦ rw (e, n) tt
          | inr (r, n) ↦
              let rest =
                spawn_grid-Keeps fuel g (plus x (delta dom math g.xmin g.xmax g.xdiv))
                  (plus i (of_int (pos 1))) r.0 (ground (arith, column, n)) in
              rw (e, n) (Keeps-map b r.1 _ rest)
        ]
      ]

  load_mob_group-Keeps :
      (fuel : ℕ) (n : Option Node) (s : LocalServer)
      → kept s ≡ b
      → KeepsOk b (load_mob_group dom math fuel n s)
  unfolding load_mob_group
  load_mob_group-Keeps fuel n s h =
      KeepsOk-bind b (read_mob_group dom math n) _
        (λ g. spawn_grid-Keeps fuel g g.xmin (of_int (pos 0)) s h)

  add_blockers-Keeps :
      (fuel : ℕ) (n : Option Node) (s : LocalServer)
      → kept s ≡ b
      → KeepsOk b (add_blockers dom math fuel n s)
  unfolding add_blockers add_blocker
  add_blockers-Keeps zero n s h = tt
  add_blockers-Keeps (suc fuel) none s h = h
  add_blockers-Keeps (suc fuel) (some node) s h =
      KeepsOk-bind b (read_blocker dom math node) _ (λ (t, m).
        let (s', out) = add_blocker t (value_ptr m) s in
        let rest = add_blockers-Keeps fuel (next_sibling node) s' h in
        KeepsOk-then b _ _ rest (λ o k. Keeps-map b out o k))

  set_spawn-KeepsOk :
      (n : Option Node) (s : LocalServer)
      (f : LocalServer → Result (Option (LocalServer × List Effect)))
      → kept s ≡ b
      → ((s' : LocalServer) → kept s' ≡ b → KeepsOk b (f s'))
      → KeepsOk b (set_spawn dom math n s >>= f)
  set_spawn-KeepsOk none s f h k = k s h
  set_spawn-KeepsOk (some n) s f h k =
      elim (Result-cases (parse_transform dom math (first_node n (codes "Transform")))) [
        | inl (e, r) ↦ rw r tt
        | inr (t, r) ↦ rw r (k (record s { player_spawn = value_ptr t }) h)
      ]

  -- The mob group has been loaded, and the blockers are next.
  add_behind-Keeps :
      (fuel : ℕ) (next : Option Node) (o : Option (LocalServer × List Effect))
      → Keeps b o
      → KeepsOk b (elim o [
        | none ↦ ok none
        | some (s, out) ↦ (do
          rest ← add_blockers dom math fuel next s
          ok (Option.map (λ r. (r.0, out ++ r.1)) rest))
      ])
  add_behind-Keeps fuel next none h = tt
  add_behind-Keeps fuel next (some (s, out)) h =
      KeepsOk-then b _ _ (add_blockers-Keeps fuel next s h) (λ o k. Keeps-map b out o k)

  fill_world-Keeps :
      (fuel : ℕ) (root : Node) (s : LocalServer)
      → kept s ≡ b
      → KeepsOk b (fill_world dom math fuel root s)
  fill_world-Keeps fuel root s h =
      set_spawn-KeepsOk (first_node root (codes "PlayerSpawn")) s _ h (λ s' h'.
        KeepsOk-then b _ _ (load_mob_group-Keeps fuel (first_node root (codes "MobGroup")) s' h')
          (add_behind-Keeps fuel (first_node root (codes "Blocker"))))

  load_document-Keeps :
      (fuel : ℕ) (doc : Node) (s : LocalServer)
      → kept s ≡ b
      → KeepsOk b (load_document dom math fuel doc s)
  unfolding load_document
  load_document-Keeps fuel doc s h = elim (Option-cases (first_node doc (codes "QuintsesWorld"))) [
    | inl e ↦ rw (e, load_document, KeepsOk) h
    | inr (root, e) ↦ rw (e, load_document, KeepsOk) (fill_world-Keeps fuel root s h)
  ]

  load_world-Keeps :
      (fuel : ℕ) (file : Option (List ℕ)) (s : LocalServer)
      → kept s ≡ b
      → KeepsOk b (load_world dom math fuel file s)
  unfolding load_world
  load_world-Keeps fuel none s h = h
  load_world-Keeps fuel (some file) s h =
      KeepsOk-bind b (copy_file file) _
        (λ text. KeepsOk-bind b (dom.parse text) _ (λ doc. load_document-Keeps fuel doc s h))

-- If `loadWorld` returns, it has left them as they were.
pub load_world-kept :
    (dom : Dom) (math : Math) (fuel : ℕ) (file : Option (List ℕ)) (s : LocalServer)
    {s' : LocalServer} {out : List Effect}
    → load_world dom math fuel file s ≡ ok (some (s', out))
    → kept s' ≡ kept s
load_world-kept dom math fuel file s h =
    ground (arith, load_world-Keeps dom math (kept s) fuel file s refl, h)
