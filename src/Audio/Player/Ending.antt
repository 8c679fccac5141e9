-- ===== src/Audio/Player/Ending.antt =====
-- `AlAudio::finish`: what is left of the streams and of OpenAL.
use quintses.Common.{ℕ, ◌≡◌, ap, Bool, true, false, List, []}
use quintses.Lifecycle.{Event}
use quintses.Lifecycle.Returns.{is_finished}
use quintses.Lifecycle.Work.{finish-work}
use quintses.Audio.Player.{Player, open_device, play_streams, close_device, construct, al_steps}

-- In every schedule of the owner and the thread of the player, when `finish` has returned, every stream
-- is deleted, and the context and the device are closed.
pub finish-closed :
    (memory : ℕ → ℕ) (processed : ℕ → Bool) (es : List Event) (p : Player)
    → is_finished (al_steps memory processed es (construct p)).owner ≡ true
    → let a = (al_steps memory processed es (construct p)).work in
      (a.playing.streams ≡ []) × (a.device ≡ false) × (a.context ≡ false) × (a.current ≡ false)
unfolding construct al_steps close_device
finish-closed memory processed es p h =
    let (n, e) = finish-work open_device (play_streams memory processed) close_device _ es h in
    (
      ap (λ a. a.playing.streams) e,
      ap (λ a. a.device) e,
      ap (λ a. a.context) e,
      ap (λ a. a.current) e,
    )
