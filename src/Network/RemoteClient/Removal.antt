-- ===== src/Network/RemoteClient/Removal.antt =====
-- A connection that fails is taken from the server once.
use quintses.Common.{
  ℕ, ◌+◌, ◌≡◌, refl, Bool, false, Option, none, some, List, [], ◌∷◌, ◌++◌, arith, if◌then◌else◌,
  Bool-cases, inl, inr,
}
use quintses.Socket.{
  system_error, out_of_bounds, null_pointer, Result, ok, err, SocketWrapper, write_pod, ◌>>◌,
}
use quintses.Messages.Client.{type, write}
use quintses.Messages.Server.{ServerMsg, create, read}
use quintses.Network.RemoteClient.{
  Call, adds_client, removes_client, reads_next, posts_delete, pushes, RemoteClient, Arrival,
  failed, arrived, Event, writes, reads, write_msg, written, accept, read_created, read_msg, handle,
  continue, run,
}

-- The calls of `removeClient`, and the posts of `deleteSelf`.
unfoldable pub removals : List Call → ℕ
removals [] = 0
removals (removes_client ∷ out) = 1 + removals out
removals (c ∷ out) = removals out

unfoldable pub deletions : List Call → ℕ
deletions [] = 0
deletions (posts_delete ∷ out) = 1 + deletions out
deletions (c ∷ out) = deletions out

removals-append : (xs ys : List Call) → removals (xs ++ ys) ≡ removals xs + removals ys
unfolding removals
removals-append [] ys = omega arith
removals-append (removes_client ∷ xs) ys = omega (arith, removals-append xs ys)
removals-append (adds_client ∷ xs) ys = removals-append xs ys
removals-append (reads_next ∷ xs) ys = removals-append xs ys
removals-append (posts_delete ∷ xs) ys = removals-append xs ys
removals-append (pushes m ∷ xs) ys = removals-append xs ys

deletions-append : (xs ys : List Call) → deletions (xs ++ ys) ≡ deletions xs + deletions ys
unfolding deletions
deletions-append [] ys = omega arith
deletions-append (posts_delete ∷ xs) ys = omega (arith, deletions-append xs ys)
deletions-append (adds_client ∷ xs) ys = deletions-append xs ys
deletions-append (reads_next ∷ xs) ys = deletions-append xs ys
deletions-append (removes_client ∷ xs) ys = deletions-append xs ys
deletions-append (pushes m ∷ xs) ys = deletions-append xs ys

abbrev pub flag : Bool → ℕ
flag b = if b then 1 else 0

module _ {s : SocketWrapper} where
  -- From a client that is marked or not, a run removes and deletes exactly when it marks.
  pub record IsBalanced (marked : Bool) (r : RemoteClient s × List Call) : Type 0 where
    pub removed : removals r.1 + flag marked ≡ flag r.0.marked_for_delete
    pub deleted : deletions r.1 + flag marked ≡ flag r.0.marked_for_delete

  abbrev Outcome : Bool → Result (RemoteClient s × List Call) → Type 0
  Outcome marked (ok r) = IsBalanced marked r
  Outcome marked (err e) = Unit

  written-Outcome :
      (broken : s.Conn) (c : RemoteClient s) (r : Result ((Unit {0}) × s.Conn))
      → Outcome c.marked_for_delete (written broken c r)
  unfolding removals deletions
  written-Outcome broken c (ok (done, d)) = record { removed = omega arith; deleted = omega arith }
  written-Outcome broken c (err (system_error code)) = elim (Bool-cases c.marked_for_delete) [
    | inl marked ↦ rw marked (record { removed = ground arith; deleted = ground arith })
    | inr alive ↦ rw alive (record { removed = ground arith; deleted = ground arith })
  ]
  written-Outcome broken c (err out_of_bounds) = tt
  written-Outcome broken c (err null_pointer) = tt

  accept-Outcome :
      (c : RemoteClient s) (r : Result (ServerMsg × s.Conn))
      → Outcome c.marked_for_delete (accept c r)
  unfolding removals deletions
  accept-Outcome c (ok (msg, d)) = record { removed = omega arith; deleted = omega arith }
  accept-Outcome c (err e) = tt

  read_created-Outcome :
      (o : Option ServerMsg) (c : RemoteClient s) (d : s.Conn)
      → c.marked_for_delete ≡ false
      → Outcome c.marked_for_delete (read_created o c d)
  unfolding removals deletions
  read_created-Outcome none c d alive = record { removed = ground arith; deleted = ground arith }
  read_created-Outcome (some msg) c d alive = accept-Outcome c (read s msg d)

  read_msg-Outcome :
      (garbage self : ℕ) (a : Arrival s) (c : RemoteClient s)
      → Outcome c.marked_for_delete (read_msg garbage self a c)
  unfolding read_msg removals deletions
  read_msg-Outcome garbage self (failed d) c = elim (Bool-cases c.marked_for_delete) [
    | inl marked ↦ rw (marked, read_msg) (record { removed = ground arith; deleted = ground arith })
    | inr alive ↦ rw (alive, read_msg) (record { removed = ground arith; deleted = ground arith })
  ]
  read_msg-Outcome garbage self (arrived t d) c = elim (Bool-cases c.marked_for_delete) [
    | inl marked ↦ rw (marked, read_msg) (record { removed = ground arith; deleted = ground arith })
    | inr alive ↦
        rw (alive, read_msg)
          (read_created-Outcome (create garbage t self)
            (record c { next_msg_type = t; marked_for_delete = false }) d refl)
  ]

  handle-Outcome :
      (self : ℕ) (e : Event s) (c : RemoteClient s) → Outcome c.marked_for_delete (handle self e c)
  unfolding handle write_msg
  handle-Outcome self (writes msg broken) c =
      written-Outcome broken c ((write_pod s 4 (type msg) >> write s msg) c.conn)
  handle-Outcome self (reads garbage a) c = read_msg-Outcome garbage self a c

  continue-IsBalanced :
      (rest : RemoteClient s → RemoteClient s × List Call)
      → ((d : RemoteClient s) → IsBalanced d.marked_for_delete (rest d))
      → (c : RemoteClient s) (r : Result (RemoteClient s × List Call))
      → Outcome c.marked_for_delete r
      → IsBalanced c.marked_for_delete (continue rest c r)
  unfolding removals deletions
  continue-IsBalanced rest h c (err e) o = record { removed = omega arith; deleted = omega arith }
  continue-IsBalanced rest h c (ok (d, out)) o = record {
    removed = omega (arith, removals-append out (rest d).1, (h d).removed, o.removed);
    deleted = omega (arith, deletions-append out (rest d).1, (h d).deleted, o.deleted);
  }

  -- Over any events a client that is not marked for deletion is removed from the server, and its
  -- deletion is posted, once if it is marked at the end and never otherwise; a client that is marked
  -- already is neither removed nor deleted again.
  pub run-IsBalanced :
      (self : ℕ) (es : List (Event s)) (c : RemoteClient s)
      → IsBalanced c.marked_for_delete (run self es c)
  unfolding run removals deletions
  run-IsBalanced self [] c = record { removed = omega arith; deleted = omega arith }
  run-IsBalanced self (e ∷ es) c =
      continue-IsBalanced (run self es) (run-IsBalanced self es) c (handle self e c)
        (handle-Outcome self e c)
