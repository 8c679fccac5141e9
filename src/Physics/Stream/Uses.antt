-- ===== src/Physics/Stream/Uses.antt =====
-- `parseMessage` and the identifiers that it uses.
use mathlib.Core.Path.{subst}
use quintses.Common.{ℕ, ◌+◌, ◌≤◌, ◌≡◌, refl, sym, ap, [], ◌∷◌, arith, ◌==◌, Option-cases, inl, inr}
use quintses.Common.Map.{lookup, has-erase}
use quintses.Socket.{Result, ok}
use quintses.Messages.Server.{
  ServerMsg, Matrix, Text, shutdown, input, load_player, add_phys, add_char, del_phys, del_char,
  force_state,
}
use quintses.Server.{LocalServer, get_client_id}
use quintses.Physics.{
  BtPhysics, set_input_state_callback, add_object, add_character, del_object, del_character,
  find_plane, planes, parse_message,
}
use quintses.Physics.Registered.{once, has-assign, with_server-ok}
use quintses.Physics.Run.Round.{with_server_same}
use quintses.Physics.Stream.Safety.{same_result}
use quintses.Physics.Stream.Orderly.{adding, present}

-- Parsing a message gives out no identifier, and uses none that the queue does not.
pub record Uses (msg : ServerMsg) (s s' : LocalServer) (p p' : BtPhysics) : Type 0 where
  pub same : s'.next_id ≡ s.next_id
  pub used : (i : ℕ) → present i p' ≤ adding i (msg ∷ []) + present i p

Uses-ok :
    {msg : ServerMsg} {s t s' : LocalServer} {p q p' : BtPhysics}
    → Uses msg s t p q
    → ◌≡◌ {A = Result (LocalServer × BtPhysics)} (ok (t, q)) (ok (s', p'))
    → Uses msg s s' p p'
Uses-ok {msg} {s} {p = p} u h = subst (λ r. Uses msg s r.0 p r.1) (same_result h) u

present-callback :
    (id st i : ℕ) (p : BtPhysics) → present i (set_input_state_callback id st p) ≡ present i p
unfolding set_input_state_callback
present-callback id st i p = elim (Option-cases (lookup id p.characters)) [
  | inl e ↦ rw (e, set_input_state_callback) refl
  | inr (character, e) ↦
      let state = record character { state = st } in
      rw (e, set_input_state_callback) (ground (arith, e, has-assign id state p.characters i))
]

present-add_object :
    (id : ℕ) (t : Text) (m : Matrix) (i : ℕ) (p : BtPhysics)
    → present i (add_object id t m p) ≤ once (id == i) + present i p
unfolding add_object
present-add_object id t m i p = elim (Option-cases (find_plane t planes)) [
  | inl e ↦ rw (e, add_object) (omega arith)
  | inr (normal, e) ↦
      rw (e, add_object)
        (ground (arith, has-assign id (record { normal = normal; transform = m }) p.objects i))
]

present-del_object :
    (id i : ℕ) (p p' : BtPhysics) → del_object id p ≡ ok p' → present i p' ≤ present i p
unfolding del_object
present-del_object id i p p' h = ground (arith, h, has-erase id p.objects i)

present-del_character :
    (id i : ℕ) (p p' : BtPhysics) → del_character id p ≡ ok p' → present i p' ≤ present i p
unfolding del_character
present-del_character id i p p' h = ground (arith, h, has-erase id p.characters i)

pub parse_message-Uses :
    (msg : ServerMsg) (s s' : LocalServer) (p p' : BtPhysics)
    → parse_message msg s p ≡ ok (s', p')
    → Uses msg s s' p p'
unfolding parse_message adding add_character get_client_id
parse_message-Uses (shutdown c) s s' p p' h =
    Uses-ok (record { same = refl; used = λ i. omega arith }) h
parse_message-Uses (load_player c t) s s' p p' h =
    Uses-ok (record { same = refl; used = λ i. omega arith }) h
parse_message-Uses (input c st) s s' p p' h =
    Uses-ok
      (record {
        same = refl;
        used = λ i. omega (arith, present-callback (get_client_id c s).0 st i p);
      })
      h
parse_message-Uses (force_state id st) s s' p p' h =
    Uses-ok (record { same = refl; used = λ i. omega (arith, present-callback id st i p) }) h
parse_message-Uses (add_phys id t m) s s' p p' h =
    Uses-ok (record { same = refl; used = λ i. omega (arith, present-add_object id t m i p) }) h
parse_message-Uses (add_char id t m) s s' p p' h =
    Uses-ok
      (record {
        same = refl;
        used =
            λ i. ground (arith, has-assign id (record { transform = m; state = 0 }) p.characters i);
      })
      h
parse_message-Uses (del_phys id) s s' p p' h = record {
  same = ap (λ t. t.next_id) (sym (with_server_same s (del_object id p) h));
  used = λ i. omega (arith, present-del_object id i p p' (with_server-ok s (del_object id p) h));
}
parse_message-Uses (del_char id) s s' p p' h = record {
  same = ap (λ t. t.next_id) (sym (with_server_same s (del_character id p) h));
  used =
      λ i. omega (arith, present-del_character id i p p' (with_server-ok s (del_character id p) h));
}
