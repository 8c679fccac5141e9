-- ===== src/Client/Platform.antt =====
-- client/localclient_x11.cpp and client/opengl/glloader_x11.cpp: what `initializePlatform` and
-- `finalizePlatform` of `LocalClient` and of `GlLoader` acquire and release, in the order of the code.
-- What the X server and GLX answer is an argument. What is drawn is left out.
pub mod Resources
use quintses.Common.{
  ℕ, Bool, true, false, Option, none, some, List, [], ◌∷◌, ◌++◌, ◌==◌, if◌then◌else◌,
}

-- The fields of `PlatformData`, the object itself, what `XFree` frees, the colormap of the window,
-- and the two objects of OpenGL.
pub data Resource : Type 0 where
  platform_data dpy win ctx : Resource
  configs visual title colormap : Resource
  loader renderer : Resource
  ldr_dpy ldr_draw ldr_ctx : Resource

-- What is thrown, by its text.
pub data Failure : Type 0 where
  no_display no_configuration no_visual no_window no_context no_pbuffer no_loader_context : Failure

pub data Use : Type 0 where
  acquires releases : Resource → Use
  throws : Failure → Use

-- The answers to `LocalClient`: whether `XOpenDisplay` opens a display, the `nelements` of
-- `glXChooseFBConfig`, and whether the other three calls return something.
pub record Screen : Type 0 where
  pub display : Bool
  pub nelements : ℕ
  pub visual : Bool
  pub window : Bool
  pub context : Bool

-- From the title of the window on.
unfoldable pub make_context : Screen → List Use
make_context s =
    if s.context
    then acquires ctx ∷ acquires loader ∷ acquires renderer ∷ []
    else releases win ∷ releases dpy ∷ releases platform_data ∷ throws no_context ∷ []

unfoldable pub make_window : Screen → List Use
unfolding make_context
make_window s =
    if s.window
    then acquires win ∷ releases visual ∷ acquires title ∷ releases title ∷ make_context s
    else releases visual ∷ releases dpy ∷ releases platform_data ∷ throws no_window ∷ []

unfoldable pub choose_visual : Screen → List Use
unfolding make_window
choose_visual s =
    if s.visual
    then acquires visual ∷ acquires colormap ∷ make_window s
    else releases dpy ∷ releases platform_data ∷ throws no_visual ∷ []

unfoldable pub initialize_platform : Screen → List Use
unfolding choose_visual
initialize_platform s =
    acquires platform_data
    ∷ (if s.display
        then acquires dpy
          ∷ (if s.nelements == 0
              then releases dpy ∷ releases platform_data ∷ throws no_configuration ∷ []
              else acquires configs ∷ releases configs ∷ choose_visual s)
        else releases platform_data ∷ throws no_display ∷ [])

unfoldable pub finalize_platform : List Use
finalize_platform =
    releases loader
    ∷ releases renderer
    ∷ releases ctx
    ∷ releases win
    ∷ releases dpy
    ∷ releases platform_data
    ∷ []

-- The answers to `GlLoader`, which takes the display as opened.
pub record LoaderScreen : Type 0 where
  pub nelements : ℕ
  pub pbuffer : Bool
  pub context : Bool

unfoldable pub initialize_loader : LoaderScreen → List Use
initialize_loader s =
    acquires ldr_dpy
    ∷ (if s.nelements == 0
        then releases dpy ∷ releases platform_data ∷ throws no_configuration ∷ []
        else acquires configs
          ∷ releases configs
          ∷ (if s.pbuffer
              then acquires ldr_draw
                ∷ (if s.context
                    then acquires ldr_ctx ∷ []
                    else releases ldr_draw ∷ throws no_loader_context ∷ [])
              else throws no_pbuffer ∷ []))

unfoldable pub finalize_loader : List Use
finalize_loader = releases ldr_ctx ∷ releases ldr_draw ∷ releases ldr_dpy ∷ []
