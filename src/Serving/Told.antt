-- ===== src/Serving/Told.antt =====
-- Which clients `run` tells that the server has closed.
use quintses.Common.{
  ℕ, ◌≤◌, ◌≡◌, ◌≢◌, refl, true, none, some, List, [], ◌∷◌, ◌++◌, arith, Bool-cases, ◌||◌, ◌&&◌, not,
  ◌⊎◌, inl, inr, All,
}
use quintses.Common.Map.{keys}
use quintses.Socket.{Result-cases}
use quintses.Messages.Server.{ServerMsg, Matrix, shutdown}
use quintses.Server.{
  LocalServer, Effect, finish_physics, handle, add_client, remove_client, run_tick_callbacks,
  push_client_transforms, close_all,
}
use quintses.Server.Registered.{
  is_registered, handle-is_registered, add_client-is_registered, get_client_id-is_registered,
  remove_client-is_registered,
}
use quintses.Server.Closing.{closings, closings-append, has-close_all}
use quintses.Lifecycle.Returns.{is_finished}
use quintses.World.{load_world}
use quintses.World.Kept.{load_world-kept}
use quintses.Serving.Rounds.{rank}
use quintses.Serving.Threads.{Inv, steps-Inv, reached-Inv}
use quintses.Serving.{
  WorldFile, is_built, has_player, is_alive, deleted, Thread, Serving, Call, Event, start, does,
  owner_step, serve, serve_next, pick, construct, await_end, loaded, thread_step, client_step, step,
  steps, loading, looping, leaving, closing, of_owner, of_thread, of_client, spurious, pushes, adds,
  removes, looks_up, pushes_transforms, ticks,
}

-- The client stands in a list that is still to be gone through, or it has been told.
abbrev IsTold : ℕ → Serving → Type 0
IsTold c s = ((is_registered c s.server ≡ true) × (3 ≤ rank s.thread)) ⊎ (1 ≤ closings c s.calls)

more_calls : (c : ℕ) (xs ys : List Effect) → 1 ≤ closings c xs → 1 ≤ closings c (xs ++ ys)
more_calls c xs ys h = omega (arith, closings-append c xs ys, h)

-- A handler that keeps the client and the thread where they are.
does-IsTold :
    (c : ℕ) (r : LocalServer × List Effect) (s : Serving)
    → (is_registered c s.server ≡ true → is_registered c r.0 ≡ true)
    → IsTold c s
    → IsTold c (does r s)
unfolding does
does-IsTold c (s', out) s keeps (inl (here, k)) = inl (keeps here, k)
does-IsTold c (s', out) s keeps (inr h) = inr (more_calls c s.calls out h)

serve-IsTold :
    (c : ℕ) (msg : ServerMsg) (left : List ServerMsg) (s : Serving)
    → s.thread ≡ looping
    → IsTold c s
    → IsTold c (serve (msg, left) s)
unfolding serve
serve-IsTold c (shutdown d) left s h t = ground (arith, t, h)
serve-IsTold c msg left s h t =
    does-IsTold c (handle msg s.server) (record s { inbox = left })
      (handle-is_registered c msg s.server) t

serve_next-IsTold :
    (c n : ℕ) (msgs : List ServerMsg) (s : Serving)
    → s.thread ≡ looping
    → IsTold c s
    → IsTold c (serve_next n msgs s)
unfolding serve_next
serve_next-IsTold c n [] s h t = t
serve_next-IsTold c n (msg ∷ msgs) s h t =
    serve-IsTold c (pick n msg msgs).0 (pick n msg msgs).1 s h t

-- No call of this schedule takes the client away.
abbrev pub Spares : ℕ → Event → Type 0
Spares c (of_client (removes k)) = k ≢ c
Spares c e = Unit

client_step-IsTold :
    (c : ℕ) (e : Call) (s : Serving)
    → Spares c (of_client e)
    → IsTold c s
    → IsTold c (client_step e s)
unfolding client_step run_tick_callbacks
client_step-IsTold c (pushes msg) s other t = t
client_step-IsTold c (adds k) s other t =
    does-IsTold c (add_client k s.server) s (add_client-is_registered c k s.server) t
client_step-IsTold c (removes k) s other t =
    does-IsTold c (remove_client k s.server)
      (record s { fault = s.fault || (has_player k s.server && not (is_alive s.engine)) })
      (remove_client-is_registered c k s.server other) t
client_step-IsTold c (looks_up k) s other t =
    ground (arith, t, get_client_id-is_registered c k s.server)
client_step-IsTold c (pushes_transforms ts) s other t =
    does-IsTold c (s.server, push_client_transforms ts s.server) s (λ h. h) t
client_step-IsTold c ticks s other t = does-IsTold c (run_tick_callbacks s.server) s (λ h. h) t

module _ (w : WorldFile) (c : ℕ) where
  loaded-IsTold :
      (s : Serving)
      → s.thread ≡ loading
      → IsTold c s
      → IsTold c (loaded (load_world w.dom w.math w.fuel w.file s.server) s)
  unfolding loaded
  loaded-IsTold s h t = elim (Result-cases (load_world w.dom w.math w.fuel w.file s.server)) [
    | inl (e, r) ↦ rw r (ground (arith, t, h))
    | inr (none, r) ↦ rw r (ground (arith, t, h))
    | inr (some (s', out), r) ↦
        let kept = load_world-kept w.dom w.math w.fuel w.file s.server r in
        rw r (
          does-IsTold c (s', out) (record s { thread = looping }) (λ k. ground (arith, kept, k))
            (ground (arith, t, h)))
  ]

  thread_step-IsTold :
      (n : ℕ) (t : Thread) (s : Serving)
      → s.thread ≡ t
      → IsTold c s
      → IsTold c (thread_step w n t s)
  unfolding thread_step does
  thread_step-IsTold n loading s h t = loaded-IsTold s h t
  thread_step-IsTold n looping s h t = serve_next-IsTold c n s.inbox s h t
  thread_step-IsTold n leaving s h t =
      does-IsTold c (s.server, finish_physics ∷ [])
        (record s { thread = closing; engine = deleted }) (λ k. k) (ground (arith, h, t))
  thread_step-IsTold n closing s h (inr t) = inr (more_calls c s.calls _ t)
  thread_step-IsTold n closing s h (inl (here, k)) =
      let ours = close_all (keys s.server.clients) in
      let lobby = close_all (keys s.server.lobby_clients) in
      inr (
        ground (
          arith,
          here,
          closings-append c s.calls (ours ++ lobby),
          closings-append c ours lobby,
          has-close_all c s.server.clients,
          has-close_all c s.server.lobby_clients,
        ))
  thread_step-IsTold n u s h t = ground (arith, h, t)

  step-IsTold : (e : Event) (s : Serving) → Spares c e → IsTold c s → IsTold c (step w e s)
  unfolding step owner_step construct await_end
  step-IsTold of_owner s other t = ground (arith, t)
  step-IsTold (of_thread n) s other t = thread_step-IsTold n s.thread s refl t
  step-IsTold (of_client e) s other t = elim (Bool-cases (is_built s.owner)) [
    | inl h ↦ rw h (client_step-IsTold c e s other t)
    | inr h ↦ rw h t
  ]
  step-IsTold spurious s other t = t

  steps-IsTold :
      (es : List Event) (s : Serving) → All (Spares c) es → IsTold c s → IsTold c (steps w es s)
  unfolding steps
  steps-IsTold [] s others t = t
  steps-IsTold (e ∷ es) s (other, others) t =
      steps-IsTold es (step w e s) others (step-IsTold e s other t)

  finished-rank : (s : Serving) → Inv s → is_finished s.owner ≡ true → rank s.thread ≤ 1
  finished-rank s inv h = ground (arith, inv.fits)

-- A client that is registered in some state of a schedule in which the thread has not yet gone
-- through its lists of clients, and that is not removed in what follows, has been told
-- `serverClosed` when `waitForTermination` has returned, whatever else the thread and the clients
-- do meanwhile.
pub registered_told :
    (w : WorldFile) (c : ℕ) (before es : List Event) (identity : Matrix)
    → is_registered c (steps w before (start identity)).server ≡ true
    → 3 ≤ rank (steps w before (start identity)).thread
    → All (Spares c) es
    → is_finished (steps w es (steps w before (start identity))).owner ≡ true
    → 1 ≤ closings c (steps w es (steps w before (start identity))).calls
registered_told w c before es identity here early others over =
    let s = steps w before (start identity) in
    let s' = steps w es s in
    let late = finished-rank w c s' (steps-Inv w es s (reached-Inv w before identity)) over in
    ground (arith, steps-IsTold w c es s others (inl (here, early)), late)
