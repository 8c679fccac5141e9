-- ===== src/World/Blockers.antt =====
-- The loop of `loadWorld` over the blockers, and the copy of the file.
use mathlib.Core.Option
use quintses.Common.{
  ℕ, zero, suc, ◌+◌, ◌<◌, ◌≡◌, refl, ap, ◌∙◌, false, Option, none, some, List, [], ◌∷◌, ◌++◌, arith,
  length, Option-cases, Bool-cases, inl, inr,
}
use quintses.Socket.{Result, Result-cases, ok, err, out_of_bounds}
use quintses.Messages.Server.{Text}
use quintses.Server.{LocalServer, Effect, add_blocker}
use quintses.Xml.{Dom, Math, ◌>>=◌}
use quintses.World.{read_blocker, add_blockers, copy_file, load_world, is_space}

-- The nodes behind a node are a finite list, which `next_sibling` walks.
pub record HasSiblings (dom : Dom) : Type 0 where
  pub siblings : dom.Node → List dom.Node
  pub last : (n : dom.Node) → dom.next_sibling n ≡ none → siblings n ≡ []
  pub walk : (n m : dom.Node) → dom.next_sibling n ≡ some m → siblings n ≡ m ∷ siblings m

module _ (dom : Dom) (math : Math) where
  open dom use {Node}
  open math use {Mat, value_ptr}

  unfoldable pub read_all : List Node → Result (List (Text × Mat))
  read_all [] = ok []
  read_all (n ∷ ns) = do b ← read_blocker dom math n; bs ← read_all ns; ok (b ∷ bs)

  unfoldable pub add_all : List (Text × Mat) → LocalServer → LocalServer × List Effect
  add_all [] s = (s, [])
  add_all ((t, m) ∷ bs) s =
      let (s', out) = add_blocker t (value_ptr m) s in
      let (final, more) = add_all bs s' in (final, out ++ more)

  abbrev pub placed :
      LocalServer → Result (List (Text × Mat)) → Result (Option (LocalServer × List Effect))
  placed s r = r >>= λ bs. ok (some (add_all bs s))

  abbrev behind :
      List Effect
      → Result (Option (LocalServer × List Effect))
      → Result (Option (LocalServer × List Effect))
  behind out r = r >>= λ rest. ok (Option.map (λ q. (q.0, out ++ q.1)) rest)

  behind-placed :
      (t : Text) (m : Mat) (s : LocalServer) (r : Result (List (Text × Mat)))
      → behind (add_blocker t (value_ptr m) s).1 (placed (add_blocker t (value_ptr m) s).0 r)
        ≡ placed s (r >>= λ bs. ok ((t, m) ∷ bs))
  unfolding add_all
  behind-placed t m s (ok bs) = refl
  behind-placed t m s (err e) = refl

  module _ (finite : HasSiblings dom) where
    -- Over finitely many siblings, with more fuel than nodes, the loop ends: it reads the first blocker
    -- and every sibling behind it, whatever its name, and adds all of them in order, or fails as the
    -- first of them that cannot be read.
    pub add_blockers-read_all :
        (fuel : ℕ) (n : Node) (s : LocalServer)
        → length (finite.siblings n) + 1 < fuel
        → add_blockers dom math fuel (some n) s ≡ placed s (read_all (n ∷ finite.siblings n))
    unfolding add_blockers read_all add_all
    add_blockers-read_all zero n s lt = absurd (omega arith)
    add_blockers-read_all (suc zero) n s lt = absurd (omega arith)
    add_blockers-read_all (suc (suc fuel)) n s lt = elim (Result-cases (read_blocker dom math n)) [
      | inl (e, fails) ↦ rw fails refl
      | inr ((t, m), reads) ↦ elim (Option-cases (dom.next_sibling n)) [
        | inl end ↦ rw (reads, end, finite.last n end) refl
        | inr (next, e) ↦
            let s' : LocalServer = (add_blocker t (value_ptr m) s).0 in
            let out : List Effect = (add_blocker t (value_ptr m) s).1 in
            let shorter : length (finite.siblings n) ≡ suc (length (finite.siblings next)) =
              ap length (finite.walk n next e) in
            rw (reads, e, finite.walk n next e)
              (ap (behind out) (add_blockers-read_all (suc fuel) next s' (omega arith))
                ∙ behind-placed t m s (read_all (next ∷ finite.siblings next)))
      ]
    ]

copy_file-visible :
    (before : List ℕ) (c : ℕ) (after : List ℕ)
    → is_space c ≡ false
    → copy_file (before ++ c ∷ after) ≡ err out_of_bounds
unfolding copy_file
copy_file-visible [] c after h = rw (h, copy_file) refl
copy_file-visible (b ∷ before) c after h = elim (Bool-cases (is_space b)) [
  | inl space ↦ rw (space, copy_file) (copy_file-visible before c after h)
  | inr visible ↦ rw (visible, copy_file) refl
]

-- A file with a character that is not white space anywhere in it makes `loadWorld` write outside an empty
-- string, whatever the document says.
pub load_world-copy :
    (dom : Dom) (math : Math) (fuel : ℕ) (before : List ℕ) (c : ℕ) (after : List ℕ)
    (s : LocalServer)
    → is_space c ≡ false
    → load_world dom math fuel (some (before ++ c ∷ after)) s ≡ err out_of_bounds
unfolding load_world
load_world-copy dom math fuel before c after s h = rw (copy_file-visible before c after h) refl
