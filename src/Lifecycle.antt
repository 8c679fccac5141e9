-- ===== src/Lifecycle.antt =====
-- client/opengl/glloader.cpp: the class `GlLoader`, and with it the protocol of the classes that
-- keep a thread (`AlAudio` in client/openal/alaudio.cpp and `BtPhysics` in
-- server/bullet/btphysics.cpp have the same constructor, the same `finish` and the same lines
-- around the loop of `run`). What a block does under `m_status_mutex` is one step, and so is each
-- line between two blocks; `W` is what the thread works on.
pub mod Progress
pub mod Returns
pub mod Work
use quintses.Common.{Bool, true, false, List, [], ◌∷◌, if◌then◌else◌}

-- Where the owner stands: in the constructor, asleep in its `wait`, behind it, in `finish`, asleep in
-- that `wait`, and behind it.
pub data Owner : Type 0 where
  constructing waiting_start built finishing waiting_end finished : Owner

-- Where the thread stands, before each step of `run`.
pub data Thread : Type 0 where
  starting initialized announcing looping leaving closed quitting ended : Thread

pub record Worker {ℓ} (W : Type ℓ) : Type ℓ where
  pub owner : Owner
  pub thread : Thread
  -- `m_running` and `m_finish`
  pub running : Bool
  pub finish : Bool
  pub work : W

-- Who moves next; the condition variable may also wake the owner unasked.
pub data Event : Type 0 where
  of_owner of_thread spurious : Event

-- `notify_all`
unfoldable pub notify_all : Owner → Owner
notify_all waiting_start = constructing
notify_all waiting_end = finishing
notify_all o = o

module _ {ℓ} {W : Type ℓ} where
  -- The constructor, as its thread starts.
  unfoldable pub start : W → Worker W
  start w = record {
    owner = constructing;
    thread = starting;
    running = false;
    finish = false;
    work = w;
  }

  -- The loop of the constructor: on to its end, or asleep.
  unfoldable pub construct : Worker W → Worker W
  construct s = record s { owner = if s.running then built else waiting_start }

  -- The call of `finish`, and its loop.
  unfoldable pub tell : Worker W → Worker W
  tell s = record s { owner = finishing; finish = true }

  unfoldable pub await_end : Worker W → Worker W
  await_end s = record s { owner = if s.running then waiting_end else finished }

  -- Asleep or at its end, the owner does nothing.
  unfoldable pub owner_step : Owner → Worker W → Worker W
  unfolding construct tell await_end
  owner_step constructing s = construct s
  owner_step built s = tell s
  owner_step finishing s = await_end s
  owner_step o s = s

  -- `run`, whose parts are `initialize`, the body of its loop, and `finalize`.
  unfoldable pub thread_step : (W → W) → (W → W) → (W → W) → Thread → Worker W → Worker W
  unfolding notify_all
  thread_step initialize body finalize starting s = record s {
    thread = initialized;
    work = initialize s.work;
  }
  thread_step initialize body finalize initialized s = record s {
    thread = announcing;
    running = true;
  }
  thread_step initialize body finalize announcing s = record s {
    thread = looping;
    owner = notify_all s.owner;
  }
  thread_step initialize body finalize looping s =
      if s.finish
      then record s { thread = leaving }
      else record s { thread = looping; work = body s.work }
  thread_step initialize body finalize leaving s = record s {
    thread = closed;
    work = finalize s.work;
  }
  thread_step initialize body finalize closed s = record s { thread = quitting; running = false }
  thread_step initialize body finalize quitting s = record s {
    thread = ended;
    owner = notify_all s.owner;
  }
  thread_step initialize body finalize ended s = record s { thread = ended }

  module _ (initialize body finalize : W → W) where
    unfoldable pub step : Event → Worker W → Worker W
    unfolding owner_step thread_step notify_all
    step of_owner s = owner_step s.owner s
    step of_thread s = thread_step initialize body finalize s.thread s
    step spurious s = record s { owner = notify_all s.owner }

    -- The events of a schedule, in order.
    unfoldable pub steps : List Event → Worker W → Worker W
    unfolding step
    steps [] s = s
    steps (e ∷ es) s = steps es (step e s)
