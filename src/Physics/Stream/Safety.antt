-- ===== src/Physics/Stream/Safety.antt =====
-- `parseMessage` in every reachable state of the game.
use mathlib.Core.Path.{subst}
use quintses.Common.{
  ℕ, ◌≡◌, ◌≢◌, sym, ◌∙◌, ap, Bool, true, some, none, List, [], ◌∷◌, arith, ◌⊎◌, inl, inr, All,
}
use quintses.Common.Map.{has, lookup, index_found}
use quintses.Socket.{Result, ok}
use quintses.Messages.Server.{ServerMsg, Matrix}
use quintses.Server.{LocalServer, get_client_id}
use quintses.Server.Identifiers
use quintses.Server.Identifiers.{get_client_id-Inv}
use quintses.Physics.{BtPhysics, parse_message}
use quintses.Physics.Stream.{
  Game, adds, removes, loads, inputs, spawns, blocks, ticks, parses, Reach, start, later, follow,
  IsCharacterMsg, Inv, init-Inv,
}
use quintses.Physics.Stream.Calls.{
  adds-Inv, removes-Inv, loads-Inv, inputs-Inv, spawns-Inv, blocks-Inv, ticks-Inv,
}
use quintses.Physics.Stream.Parses.{Parsed, parse_message-Parsed}

-- Looking a client up gives no client a character.
owned-after :
    (s s' : LocalServer)
    → (s' ≡ s) ⊎ ((c : ℕ) × (s' ≡ (get_client_id c s).1))
    → (c id : ℕ) → lookup c s'.clients ≡ some id
    → id ≢ 0
    → lookup c s.clients ≡ some id
unfolding get_client_id
owned-after s s' (inl e) c id h ne = ap (λ t. lookup c t.clients) (sym e) ∙ h
owned-after s s' (inr (d, e)) c id h ne =
    ground (arith, index_found d s.clients c id (ap (λ t. lookup c t.clients) (sym e) ∙ h))

ids-after :
    (s s' : LocalServer)
    → (s' ≡ s) ⊎ ((c : ℕ) × (s' ≡ (get_client_id c s).1))
    → Identifiers.Inv s
    → Identifiers.Inv s'
ids-after s s' (inl e) v = subst Identifiers.Inv (sym e) v
ids-after s s' (inr (d, e)) v = subst Identifiers.Inv (sym e) (get_client_id-Inv v d)

pub same_result :
    {a b : LocalServer × BtPhysics}
    → ◌≡◌ {A = Result (LocalServer × BtPhysics)} (ok a) (ok b)
    → a ≡ b
same_result h = ground arith

module _ (g : Game) (v : Inv g) (msg : ServerMsg) (rest : List ServerMsg)
    (e : g.pending ≡ msg ∷ rest) where
  parsed : Parsed msg rest g.server g.physics
  parsed =
      parse_message-Parsed msg rest g.server g.physics (subst (All IsCharacterMsg) e v.clean).0
        (subst (λ l. (id : ℕ) → follow id l (has id g.physics.characters) ≢ none) e v.alive)

  next-Inv : Inv (record { server = parsed.0; physics = parsed.1; pending = rest })
  next-Inv = record {
    ids = ids-after g.server parsed.0 parsed.4 v.ids;
    clean = (subst (All IsCharacterMsg) e v.clean).1;
    alive = λ id h.
        v.alive id (ap (λ l. follow id l (has id g.physics.characters)) e ∙ sym (parsed.3 id) ∙ h);
    owned = λ c id h ne.
        parsed.3 id
        ∙ ap (λ l. follow id l (has id g.physics.characters)) (sym e)
        ∙ v.owned c id (owned-after g.server parsed.0 parsed.4 c id h ne) ne;
  }

  parses-Inv :
      (s : LocalServer) (p : BtPhysics)
      → parse_message msg g.server g.physics ≡ ok (s, p)
      → Inv (record { server = s; physics = p; pending = rest })
  parses-Inv s p h =
      subst (λ r. Inv (record { server = r.0; physics = r.1; pending = rest }))
        (same_result (sym (parsed.2) ∙ h)) next-Inv

pub Reach-Inv : {spawn : Matrix} {g : Game} → Reach spawn g → Inv g
Reach-Inv {spawn} start = init-Inv spawn
Reach-Inv (later r (adds g c)) = adds-Inv g (Reach-Inv r) c
Reach-Inv (later r (removes g c)) = removes-Inv g (Reach-Inv r) c
Reach-Inv (later r (loads g c t h)) = loads-Inv g (Reach-Inv r) c t h
Reach-Inv (later r (inputs g c st)) = inputs-Inv g (Reach-Inv r) c st
Reach-Inv (later r (spawns g t m h)) = spawns-Inv g (Reach-Inv r) t m h
Reach-Inv (later r (blocks g t m h)) = blocks-Inv g (Reach-Inv r) t m h
Reach-Inv (later r (ticks g)) = ticks-Inv g (Reach-Inv r)
Reach-Inv (later r (parses g msg rest s p e h)) = parses-Inv g (Reach-Inv r) msg rest e s p h

-- In every state that the calls of the server and an engine that takes the messages in the order of
-- the pushes reach from the start, with fewer than 2 ^ 32 identifiers given out, `parseMessage`
-- handles the next message without following a null pointer.
pub parse_message-safe :
    {spawn : Matrix} {g : Game} (msg : ServerMsg) (rest : List ServerMsg)
    → Reach spawn g
    → g.pending ≡ msg ∷ rest
    → (s : LocalServer) × (p : BtPhysics) × (parse_message msg g.server g.physics ≡ ok (s, p))
parse_message-safe {g = g} msg rest r e =
    let done = parsed g (Reach-Inv r) msg rest e in (done.0, done.1, done.2)

-- In every state that the calls of the server and an engine that takes the messages in the order of
-- the pushes reach from the start, with fewer than 2 ^ 32 identifiers given out, and in which no
-- message is left, each client with an identifier other than 0 has its character in the engine.
pub players-have_characters :
    {spawn : Matrix} {g : Game} (c id : ℕ)
    → Reach spawn g
    → g.pending ≡ []
    → lookup c g.server.clients ≡ some id
    → id ≢ 0
    → has id g.physics.characters ≡ true
unfolding follow
players-have_characters {g = g} c id r e h ne =
    let all = (Reach-Inv r).owned c id h ne in
    same_flag (ap (λ l. follow id l (has id g.physics.characters)) (sym e) ∙ all)
  where
    same_flag : {a b : Bool} → some a ≡ some b → a ≡ b
    same_flag q = ground arith
