-- ===== src/Client/Platform/Resources.antt =====
-- Which resources are released, each once and none that is not held, and which are not.
use quintses.Common.{
  ℕ, ◌≡◌, Bool, true, false, not, ◌||◌, ◌&&◌, Option, none, some, List, [], ◌∷◌, arith, ◌==◌,
  if◌then◌else◌, is_some,
}
use quintses.Client.Platform.{
  Resource, Failure, Use, Screen, LoaderScreen, platform_data, dpy, win, ctx, configs, visual,
  title, colormap, loader, renderer, ldr_dpy, ldr_draw, ldr_ctx, acquires, releases, throws,
  no_display, no_configuration, no_visual, no_window, no_context, no_pbuffer, no_loader_context,
  make_context, make_window, choose_visual, initialize_platform, finalize_platform,
  initialize_loader, finalize_loader,
}

abbrev pub number : Resource → ℕ
number platform_data = 0
number dpy = 1
number win = 2
number ctx = 3
number configs = 4
number visual = 5
number loader = 6
number renderer = 7
number ldr_dpy = 8
number ldr_draw = 9
number ldr_ctx = 10
number title = 11
number colormap = 12

-- What an acquisition or release makes of whether its resource is held; none for a second
-- acquisition in a row or a release of what is not held.
abbrev acquired : Bool → Option Bool
acquired held = if held then none else some true

abbrev released : Bool → Option Bool
released held = if held then some false else none

-- Whether a resource is held after some uses.
unfoldable pub held : Resource → List Use → Bool → Option Bool
held r [] now = some now
held r (throws f ∷ us) now = held r us now
held r (acquires q ∷ us) now =
    let rest = held r us true in
    let same = held r us now in if number q == number r then (if now then none else rest) else same
held r (releases q ∷ us) now =
    let rest = held r us false in
    let same = held r us now in if number q == number r then (if now then rest else none) else same

-- What is thrown.
unfoldable pub thrown : List Use → Option Failure
thrown [] = none
thrown (throws f ∷ us) = some f
thrown (u ∷ us) = thrown us

-- The first answer that is a failure.
abbrev pub failure : Screen → Option Failure
failure s =
    if not s.display
    then some no_display
    else if s.nelements == 0
    then some no_configuration
    else if not s.visual
    then some no_visual
    else if not s.window
    then some no_window
    else if not s.context
    then some no_context
    else none

-- What `finalizePlatform` has to release.
abbrev pub is_kept : Resource → Bool
is_kept platform_data = true
is_kept dpy = true
is_kept win = true
is_kept ctx = true
is_kept loader = true
is_kept renderer = true
is_kept r = false

-- `initializePlatform` has come to `XCreateColormap`.
abbrev pub has_colormap : Screen → Bool
has_colormap s = s.display && not (s.nelements == 0) && s.visual

-- `initializePlatform` of the client throws what the first failing answer stands for. If a display is
-- opened and a configuration and its visual are found, then it creates a colormap, which neither it
-- nor `finalizePlatform` frees. Of all else, where an answer fails, everything that it has acquired
-- is released, each once; and where none fails, it throws nothing, holds six resources and no
-- other but the colormap, and `finalizePlatform` releases these six, each once.
pub initialize_platform-releases :
    (s : Screen) (r : Resource)
    → (thrown (initialize_platform s) ≡ failure s)
      × (held r (initialize_platform s) false
          ≡ some (
              if number r == number colormap
              then has_colormap s
              else if is_some (failure s)
              then false
              else is_kept r))
      × (held r finalize_platform
            (if number r == number colormap then has_colormap s else is_kept r)
          ≡ some (if number r == number colormap then has_colormap s else false))
unfolding initialize_platform choose_visual make_window make_context thrown held finalize_platform
initialize_platform-releases s r = (ground arith, ground arith, ground arith)

-- The first answer to the loader that is a failure.
abbrev pub loader_failure : LoaderScreen → Option Failure
loader_failure s =
    if s.nelements == 0
    then some no_configuration
    else if not s.pbuffer
    then some no_pbuffer
    else if not s.context
    then some no_loader_context
    else none

-- What `finalizePlatform` of the loader has to release.
abbrev pub is_loader_kept : Resource → Bool
is_loader_kept ldr_dpy = true
is_loader_kept ldr_draw = true
is_loader_kept ldr_ctx = true
is_loader_kept r = false

-- `initializePlatform` of the loader throws what the first failing answer stands for. Where no answer
-- fails, it holds three resources, which its `finalizePlatform` releases, and the client keeps its own.
-- Where one fails, only the display that it has opened is still held; and where that is the missing
-- configuration, the display and the data of the client have been released in its place.
pub initialize_loader-releases :
    (s : LoaderScreen) (r : Resource)
    → let us = initialize_loader s in
      (thrown us ≡ loader_failure s)
      × (held r finalize_loader (is_loader_kept r) ≡ some false)
      × (held r us (is_kept r)
          ≡ some (
              if is_loader_kept r
              then not (is_some (loader_failure s)) || number r == number ldr_dpy
              else if s.nelements == 0
                  && (number r == number dpy || number r == number platform_data)
              then false
              else is_kept r))
unfolding initialize_loader thrown held finalize_loader
initialize_loader-releases s r = (ground arith, ground arith, ground arith)
